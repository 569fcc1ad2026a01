-- ===== src/Tests/Joint.antt =====
-- The frontend with the server of the tests.
use ror_books_test.Prelude.{
  map, count, All, ◌*◌, ℕ, ◌/◌, ◌≡◌, ◌≤◌, ◌+◌, ◌↔◌, refl, none, some, Option, String, Bool, true,
  false, List, [], ◌∷◌, length, is_blank, arith, str_eq, if◌then◌else◌,
}
use ror_books_test.Auth.{World}
use ror_books_test.Forms.{book_errors}
use ror_books_test.Paging.Bounds
use ror_books_test.BorrowButton.{mounted, borrow_answered, view}
use ror_books_test.Borrowings.{Filters, initial, params, is_due_date}
use ror_books_test.Backend.{
  Database, Borrowing, receive, create_borrowing, borrow_errors, is_rendered, create_book, sent,
  is_taken, per_page, ordering_of, status_wanted, present, page_number, Queries, Accounts,
  already_held, none_left, available_copies, ordering_of,
}
use ror_books_test.Joint.Lending
use ror_books_test.Joint.BookForms
use ror_books_test.Joint.Walk
use ror_books_test.Joint.Filters
use ror_books_test.Joint.Sessions
use ror_books_test.Joint.Figures
use ror_books_test.Dashboards.{Item, row_of}
use ror_books_test.Dates.{day_ms, utc}
use ror_books_test.Backend.{mark_overdue_books, member_counts, books_index}
use ror_books_test.Tests.Data.{ann, bob, full_form, open_server}
use ror_books_test.Tests.Tables.{tables, emma, ruby}

abbrev one_copy : Database
one_copy = record tables { books = record emma { total_copies = 1 } ∷ [] }

refused_messages_example :
    let reply =
      receive (λ status. "Request failed") (Lending.bare (create_borrowing 7 bob 2 one_copy).0) in
    (view (borrow_answered "16 January" reply mounted)).error_lines
    ≡ borrow_errors one_copy bob (record emma { total_copies = 1 })
unfolding borrow_errors available_copies
refused_messages_example =
    Lending.refused_messages (λ status. "Request failed") mounted "16 January" 7 bob 2 one_copy
      (record emma { total_copies = 1 }) already_held (none_left ∷ []) refl refl refl

complete_saved_iff_example :
    (is_rendered (create_book is_blank ann (sent full_form) tables).0 ≡ true)
    ↔ (BookForms.IsStorable full_form.total_copies × (is_taken full_form.isbn tables ≡ false))
unfolding book_errors ror_books_test.Prelude.trim ror_books_test.Prelude.Texts.is_space
complete_saved_iff_example =
    BookForms.complete_saved_iff is_blank ann tables full_form refl refl (λ h. h) (λ h. h) (λ h. h)
      (λ h. h)

abbrev three : List ℕ
three = 1 ∷ 2 ∷ 3 ∷ []

walk-some_example : Walk.walk (length three / per_page + 1) 1 three ≡ some three
walk-some_example = Walk.walk-some three

prev_over-one_example : Bounds.prev_over (25 ∷ 0 ∷ 3 ∷ []) 4 ≡ 1
prev_over-one_example = Bounds.prev_over-one (25 ∷ 0 ∷ 3 ∷ []) 4 (omega arith) (omega arith)

ruby-IsRuby : Filters.IsRuby ruby
unfolding ror_books_test.Prelude.Texts.is_blank ror_books_test.Prelude.Texts.is_space
ruby-IsRuby = record {
  asc_is = refl;
  desc_is = refl;
  all_is = refl;
  borrowed_is = refl;
  returned_is = refl;
  overdue_is = refl;
}

abbrev first_filters : Filters
first_filters = initial (some "overdue")

wire-params_example :
    let read = Filters.wire (params first_filters) in
    (ordering_of ruby read ≡ record {
      by_due_date = is_due_date first_filters.sort;
      dir = Filters.meant_dir first_filters.direction;
    })
    × (status_wanted ruby (present ruby read.status) ≡ Filters.meant_status first_filters.status)
    × (page_number read.page ≡ first_filters.page)
unfolding initial
wire-params_example = Filters.wire-params ruby ruby-IsRuby first_filters (omega arith)

abbrev accounts : Accounts
accounts = record {
  find_for_authentication = λ email. if str_eq email "bob@library.test" then some bob else none;
  valid_password = λ user password. str_eq password "secret";
  token = "token";
  unauthenticated = record { error = some "Please sign in"; details = none; errors = none };
  axios_message = λ status. "Request failed";
}

abbrev fresh : World (Unit {0})
fresh = record {
  auth = record { user = none; loading = false; error = none };
  rendered = [];
  csrf_header = none;
  sent = [];
  location = "/login";
  page = tt;
}

abbrev steps : List Sessions.Step
steps =
    Sessions.signs_in "bob@library.test" "guess"
    ∷ Sessions.signs_in "bob@library.test" "secret"
    ∷ Sessions.reloads
    ∷ Sessions.signs_out
    ∷ []

perform-IsInStep_example :
    Sessions.IsInStep accounts open_server (Sessions.perform accounts open_server steps fresh)
unfolding ror_books_test.Backend.session_of
perform-IsInStep_example = Sessions.perform-IsInStep accounts open_server steps fresh refl

abbrev item_of : Borrowing → Item
item_of b = record {
  id = b.id;
  due_date = b.due_date * day_ms;
  borrowed_at = none;
  created_at = none;
  status = none;
  title = some "Emma";
  author = some "Jane Austen";
}

-- Bob's copy of Emma, one day late.
mark_overdue_books-row_of_example :
    let now = 18 * day_ms in
    let figures = member_counts now bob (mark_overdue_books now tables).1 in
    let shown = map (λ b. row_of utc now (item_of b)) figures.current_borrowings in
    (count (λ r. Figures.is_soon r.badge) shown ≡ figures.due_soon_count)
    × (count (λ r. Figures.is_red r.badge) shown ≡ figures.overdue_count)
mark_overdue_books-row_of_example =
    Figures.mark_overdue_books-row_of item_of (λ b. refl) (18 * day_ms) bob tables
      (λ h. absurd (ground (arith, h)), tt)
