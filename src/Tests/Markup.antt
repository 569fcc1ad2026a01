-- ===== src/Tests/Markup.antt =====
-- Rendered pages, with the server of the tests behind those of a member.
use ror_books_test.Prelude.{ℕ, ◌*◌, ◌≡◌, refl, String, none, some, true, [], ◌∷◌, ◌++◌, map, keep}
use mathlib.Core.List.{flat_map}
use ror_books_test.Dates.{day_ms, utc, borrowed, returned}
use ror_books_test.Forms.{Number, whole}
use ror_books_test.Paging.{pager}
use ror_books_test.QuickSearch.{Box}
use ror_books_test.Backend.{books_index, top_books}
use ror_books_test.Dashboards.{
  Dashboard, LibrarianData, MemberData, BookResult, Found, is_librarian,
}
use ror_books_test.Borrowings
use ror_books_test.Borrowings.{Borrowing, Desk, has_return, view, clear_stands}
use ror_books_test.Books
use ror_books_test.Members
use ror_books_test.Joint.Offers
use ror_books_test.Joint.Dashboard
use ror_books_test.Joint.Buttons.{book_of}
use ror_books_test.Markup.Nodes.{gather, clicks, handler, borrows}
use ror_books_test.Markup.MemberBooks
use ror_books_test.Markup.MemberDashboard
use ror_books_test.Markup.LibrarianDashboard
use ror_books_test.Markup.LibrarianDashboard.Links
use ror_books_test.Markup.Borrowings.Filters
use ror_books_test.Markup.Borrowings.Desk as Rendered
use ror_books_test.Markup.Borrowings.Offers as BorrowingOffers
use ror_books_test.Markup.Books as BooksMarkup
use ror_books_test.Markup.Books.Offers as BookOffers
use ror_books_test.Markup.Members as MembersMarkup
use ror_books_test.Markup.Members.Offers as MemberOffers
use ror_books_test.Tests.Data.{ann, bob}
use ror_books_test.Tests.Tables.{tables, ruby}

abbrev now : ℕ
now = 5 * day_ms

books_page-books_index_example :
    gather borrows (
      MemberBooks.books_page
        (record { q = "e"; page = 1 })
        (map book_of (books_index ruby (λ bs. bs) bob (some "e") 1 tables)))
    ≡ map
        (λ row. row.book.id)
        (keep
          (Offers.is_accepted now bob tables)
          (books_index ruby (λ bs. bs) bob (some "e") 1 tables))
books_page-books_index_example =
    Offers.books_page-books_index ruby (λ bs. bs) now bob (some "e") 1 tables
      (record { q = "e"; page = 1 }) (λ P bs h. h) (refl, (refl, tt)) refl

abbrev typed_box : Box BookResult
typed_box = record { q = "e"; results = []; timer = none; in_flight = [] }

abbrev figures : MemberData
figures = record {
  current_borrowings = [];
  history = [];
  top_books = [];
  overdue_count = 1;
  due_soon_count = 0;
}

member_dashboard-served_example :
    let rows = books_index ruby (λ bs. bs) bob (some "e") 1 tables in
    let tops = top_books (λ bs. bs) bob tables in
    gather borrows (
      MemberDashboard.member_dashboard utc now
        (some (Dashboard.with_tops tops figures))
        (Dashboard.with_results rows typed_box))
    ≡ map (λ row. row.book.id) (keep (Offers.is_accepted now bob tables) rows)
      ++ map (λ t. t.book.id) (keep (Dashboard.is_top_accepted now bob tables) tops)
member_dashboard-served_example =
    Dashboard.member_dashboard-served now bob tables refl ruby (λ bs. bs) (some "e") 1 utc figures
      typed_box (λ P bs h. h) (refl, (refl, tt)) refl

abbrev counted : LibrarianData
counted = record {
  total_books = 2;
  currently_borrowed = 1;
  due_today = 0;
  overdue_books_count = 3;
  top_genres = ("Novel", 2) ∷ [];
  recent_borrowings = [];
}

abbrev library : ror_books_test.Dashboards.Dashboard
library = record { figures = some counted; alerts = [] }

abbrev quiet : Box Found
quiet = record {
  q = "e";
  results = record { id = 2; title = "Emma"; author = "Jane Austen" } ∷ [];
  timer = none;
  in_flight = [];
}

abbrev lent : Borrowing
lent = record {
  id = 7;
  title = "Emma";
  author = "Jane Austen";
  user = none;
  borrowed_at = 3 * day_ms;
  due_date = 17 * day_ms;
  status = borrowed;
}

-- Two rows, and the dialog of the first.
abbrev desk : Desk
desk = record {
  list = record {
    key = Borrowings.initial none;
    items = lent ∷ record lent { id = 8; status = returned } ∷ [];
    in_flight = [];
  };
  returning_id = some 7;
  return_comment = "";
  closing = [];
  alerts = [];
}

borrowings_page-clicks_example :
    gather clicks (Rendered.borrowings_page (some ann) now desk)
    ≡ handler Filters.borrowed_sorted
      ∷ handler Filters.due_sorted
      ∷ handler (Filters.return_asked 7)
      ∷ handler Filters.return_closed
      ∷ handler Filters.return_closed
      ∷ handler Filters.return_confirmed
      ∷ []
unfolding Borrowings.initial pager view has_return
borrowings_page-clicks_example = BorrowingOffers.borrowings_page-clicks (some ann) now desk

abbrev show : Number → String
show n = "1"

abbrev novel : Books.Book
novel = record {
  id = 4;
  title = "Emma";
  author = "Jane Austen";
  genre = "Novel";
  isbn = "1";
  total_copies = whole 2;
}

books_page-clicks_example :
    gather clicks (
      BooksMarkup.books_page show (some ann) Books.new_editor (record Books.opened {
        list = record Books.opened.list { items = novel ∷ [] };
        creating = true;
      }))
    ≡ handler BooksMarkup.toggled
      ∷ handler BooksMarkup.create_closed
      ∷ handler BooksMarkup.create_closed
      ∷ handler BooksMarkup.created
      ∷ handler (BooksMarkup.edited 4)
      ∷ handler (BooksMarkup.removed 4)
      ∷ []
unfolding flat_map Books.new_editor pager
books_page-clicks_example =
    BookOffers.books_page-clicks show (some ann) Books.new_editor (record Books.opened {
      list = record Books.opened.list { items = novel ∷ [] };
      creating = true;
    })

abbrev carol : Members.Member
carol = record { id = 9; email = "carol@library.test"; first_name = some "Carol"; last_name = none }

-- A row that saves what was edited.
abbrev saving : Members.Member → Members.Editor
saving m = record {
  member = m;
  editing = true;
  form = Members.blank_member;
  loading = true;
  errors = [];
  alerts = [];
}

members_page-clicks_example :
    gather clicks (
      MembersMarkup.members_page saving
        (record Members.opened { list = record Members.opened.list { items = carol ∷ [] } }))
    ≡ handler MembersMarkup.toggled
      ∷ handler (MembersMarkup.edited 9)
      ∷ handler (MembersMarkup.edit_closed 9)
      ∷ handler (MembersMarkup.edit_closed 9)
      ∷ []
unfolding flat_map pager
members_page-clicks_example =
    MemberOffers.members_page-clicks saving
      (record Members.opened { list = record Members.opened.list { items = carol ∷ [] } })
