-- ===== src/Tests/Forms.antt =====
-- The forms, the page of books and the page of members.
use ror_books_test.Prelude.{
  ◌≡◌, ◌≢◌, ◌↔◌, ◌≤◌, refl, Option, none, some, true, false, List, [], ◌∷◌, length, map, All,
}
use ror_books_test.Api.{Reply, ok, failed}
use ror_books_test.Forms.{whole, BookForm, book_errors, has_errors, error_at}
use ror_books_test.Forms.Validation.{IsComplete, book_errors-nil_iff}
use ror_books_test.Paging.{no_search}
use ror_books_test.Books
use ror_books_test.Books.Creating.{row_callbacks}
use ror_books_test.Books.Editing
use ror_books_test.Books.Editing.{one_request}
use ror_books_test.Members
use ror_books_test.Tests.Data.{refusal, full_form}

book_errors-nil_iff_example : (has_errors (book_errors full_form) ≡ false) ↔ IsComplete full_form
book_errors-nil_iff_example = book_errors-nil_iff full_form

abbrev blank : BookForm
blank = Books.blank_book

blank_errors : error_at "isbn" (book_errors blank) ≡ some "ISBN is required"
unfolding book_errors
blank_errors = refl

abbrev emma : Books.Book
emma = record {
  id = 7;
  title = "Emma";
  author = "Austen";
  genre = "Novel";
  isbn = "1";
  total_copies = whole 2;
}

abbrev no_book : Reply (Option Books.Book)
no_book = failed refusal

not_a_book : (book : Books.Book) → no_book ≢ ok (some book)
not_a_book book e = cc

abbrev five : List Books.Book → List Books.Book
five rest = emma ∷ emma ∷ emma ∷ emma ∷ emma ∷ rest

abbrev full_page : Books.Page
full_page = record Books.opened {
  list = record { key = no_search; items = five (five (five (five (five [])))); in_flight = [] };
}

row_callbacks_example :
    (map (λ b. b.id) (Books.book_changed emma full_page).list.items
      ≡ map (λ b. b.id) full_page.list.items)
    × All (λ b. b.id ≢ 7) (Books.book_deleted 7 full_page).list.items
row_callbacks_example = row_callbacks full_page emma 7

abbrev clicks : List Editing.Event
clicks =
    Editing.edit
    ∷ Editing.save
    ∷ Editing.save
    ∷ Editing.remove true
    ∷ Editing.saved (failed refusal)
    ∷ Editing.remove true
    ∷ []

one_request_example :
    let r = Editing.run clicks (record { editor = Books.new_editor emma; in_flight = [] }) in
    (length r.in_flight ≤ 1) × ((r.editor.loading ≡ true) ↔ (length r.in_flight ≡ 1))
one_request_example = one_request emma clicks

abbrev carl : Members.Member
carl = record { id = 3; email = "carl@library.test"; first_name = none; last_name = none }

abbrev dora : Members.Member
dora = record { id = 4; email = "dora@library.test"; first_name = none; last_name = none }
