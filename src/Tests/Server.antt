-- ===== src/Tests/Server.antt =====
-- The server: a librarian, two members and two books.
use ror_books_test.Prelude.{
  ℕ, ◌*◌, ◌/◌, ◌≡◌, ◌≤◌, ◌+◌, refl, none, some, Bool, false, ◌&&◌, List, [], ◌∷◌, count, length,
  All, is_blank, arith,
}
use ror_books_test.Prelude.Sorting.{IsSorted}
use ror_books_test.Dates.{day_ms}
use ror_books_test.Backend
use ror_books_test.Backend.{
  Book, Borrowing, Database, BookParams, assign_book, MemberParams, absent, number, Devise, Queries,
  IndexParams, Accounts, find_book, is_rendered, can_borrow, create_borrowing, create_or_raise,
  borrow_errors, new_borrowing, rendered, record_invalid, already_held, active_for, active_count,
  ordering_of, row_le, index, listed_rows, is_listed, receive, mark_overdue_books,
}
use ror_books_test.Backend.Requests.{
  post_borrowing, post_return, post_mark_overdue, put_account, put_book, delete_book, Rails, act,
}
use ror_books_test.Backend.Integrity.{IsSound}
use ror_books_test.Backend.Reachable
use ror_books_test.Backend.Reachable.{Call}
use ror_books_test.Backend.Roles
use ror_books_test.Backend.Stock.{IsStocked}
use ror_books_test.Backend.Capacity
use ror_books_test.Backend.Clock
use ror_books_test.Backend.Counting
use ror_books_test.Backend.{librarian_counts}
use ror_books_test.Backend.Access
use ror_books_test.Backend.Late
use ror_books_test.Backend.Listed
use ror_books_test.Backend.Listed.Asked
use ror_books_test.Backend.Overlap.{System, Reach, rest, later, validate, store}
use ror_books_test.Backend.Overlap.Bound
use ror_books_test.Backend.{insert}
use ror_books_test.Tests.Data.{ann, bob}
use ror_books_test.Tests.Tables.{dune, tables, ruby}

tables-IsSound : IsSound tables
tables-IsSound = record { single = λ user book. ground arith; known = ((refl, refl), tt) }

abbrev lenient : Devise
lenient = record { errors = λ user password db. []; full_messages = λ errors. [] }

abbrev rails : Rails
rails = record { blank = is_blank; devise = lenient }

abbrev bobs : MemberParams
bobs = record { email = none; password = none; first_name = some "Bob"; last_name = none }

abbrev calls : List Call
calls =
    record { now = 5 * day_ms; session = some 2; request = post_borrowing 1 }
    ∷ record { now = 6 * day_ms; session = some 2; request = post_borrowing 1 }
    ∷ record { now = 7 * day_ms; session = some 2; request = put_account bobs }
    ∷ record { now = 20 * day_ms; session = some 1; request = post_mark_overdue }
    ∷ record { now = 21 * day_ms; session = some 1; request = post_return 1 (some "worn") }
    ∷ record { now = 22 * day_ms; session = some 1; request = delete_book 1 }
    ∷ []

calls-IsInOrder : Clock.IsInOrder 5 calls
unfolding Clock.IsInOrder
calls-IsInOrder =
    (omega arith, (omega arith, (omega arith, (omega arith, (omega arith, (omega arith, tt))))))

serve-IsSound_example : IsSound (Reachable.serve rails calls tables)
serve-IsSound_example = Reachable.serve-IsSound rails calls tables tables-IsSound

abbrev more_emma : BookParams
more_emma = record {
  title = none;
  author = none;
  genre = none;
  isbn = none;
  total_copies = number false 3 0;
}

abbrev stocking : List Call
stocking =
    record { now = 5 * day_ms; session = some 1; request = put_book 2 more_emma }
    ∷ record { now = 6 * day_ms; session = some 2; request = post_borrowing 1 }
    ∷ record { now = 7 * day_ms; session = some 1; request = post_borrowing 1 }
    ∷ record { now = 8 * day_ms; session = some 1; request = post_borrowing 2 }
    ∷ []

tables-IsStocked : IsStocked tables
tables-IsStocked = record {
  covered = λ id book found. ground (arith, found);
  fresh = (omega arith, (omega arith, tt));
  fresh_lent = (omega arith, tt);
}

more_copies :
    (b : Book)
    → find_book 2 tables ≡ some b
    → b.total_copies ≤ (assign_book more_emma b).total_copies
unfolding assign_book
more_copies b found = ground (arith, found)

stocking-AllKeeping : Capacity.AllKeeping rails stocking tables
unfolding Capacity.AllKeeping
stocking-AllKeeping = (λ b found. more_copies b found, (tt, (tt, (tt, tt))))

serve-IsStocked_example : IsStocked (Reachable.serve rails stocking tables)
serve-IsStocked_example =
    Capacity.serve-IsStocked rails stocking tables stocking-AllKeeping tables-IsStocked

serve-IsNoLibrarian_example : Roles.IsNoLibrarian 2 (Reachable.serve rails calls tables)
serve-IsNoLibrarian_example = Roles.serve-IsNoLibrarian rails 2 calls tables refl

act-IsOwnChange_example :
    Access.IsOwnChange bob tables (act rails (5 * day_ms) bob (post_borrowing 1) tables).1
act-IsOwnChange_example =
    Access.act-IsOwnChange rails (5 * day_ms) bob (post_borrowing 1) tables refl

marking_frees_example :
    let after = (mark_overdue_books (20 * day_ms) tables).1 in
    (active_count 2 after + count (Late.late_on (20 * day_ms / day_ms) 2) tables.borrowings
      ≡ active_count 2 tables)
    × (count (Late.is_out 2) after.borrowings ≡ count (Late.is_out 2) tables.borrowings)
marking_frees_example = Late.marking_frees (20 * day_ms) 2 tables

abbrev newest : IndexParams
newest = record {
  status = some "all";
  q = none;
  date = none;
  sort = some "borrowed_at";
  direction = some "desc";
  page = 1;
}

index-own_example :
    All (λ b. b.user_id ≡ 2) (index ruby bob newest tables)
    × (length (index ruby bob newest tables) ≤ 25)
index-own_example = Listed.index-own ruby bob newest tables refl

listed_rows-IsSorted_example :
    IsSorted (Asked.is_before ruby newest) (listed_rows ruby bob newest tables)
    × ((q : Borrowing → Bool)
        → count q (listed_rows ruby bob newest tables)
          ≡ count (λ b. Asked.is_asked ruby bob newest tables b && q b) tables.borrowings)
listed_rows-IsSorted_example = Asked.listed_rows-IsSorted ruby bob newest tables

marking_moves_example :
    let (marking, after) = mark_overdue_books (20 * day_ms) tables in
    let old = librarian_counts (20 * day_ms) tables in
    let new = librarian_counts (20 * day_ms) after in
    (new.currently_borrowed + marking.count ≡ old.currently_borrowed)
    × (new.overdue_books_count ≡ old.overdue_books_count + marking.count)
    × (new.due_today ≡ old.due_today)
    × (new.total_books ≡ old.total_books)
marking_moves_example = Counting.marking_moves (20 * day_ms) tables

serve-IsTidy_example :
    All (Clock.IsTidy (Clock.last_day 5 calls)) (Reachable.serve rails calls tables).borrowings
serve-IsTidy_example =
    Clock.serve-IsTidy rails calls 5 tables calls-IsInOrder
      ((λ h. absurd (ground (arith, h)), ground arith), tt)

-- Bob and Ann both ask for the only copy of Dune, and each request passes before the other is stored.
abbrev crowded : System
crowded =
    let first = insert (new_borrowing 10 bob dune tables) tables in
    record { db = insert (new_borrowing 11 ann dune first) first; waiting = [] }

bob_passes : borrow_errors tables bob dune ≡ []
unfolding borrow_errors Backend.available_copies
bob_passes = refl

ann_passes : borrow_errors tables ann dune ≡ []
unfolding borrow_errors Backend.available_copies
ann_passes = refl

crowded-Reach : Reach 2 tables crowded
crowded-Reach =
    later
      (later
        (later (later rest (validate bob 1 dune (omega arith) refl bob_passes))
          (validate ann 1 dune (omega arith) refl ann_passes))
        (store (record { user = ann; book = dune } ∷ []) (record { user = bob; book = dune }) []
          10))
      (store [] (record { user = ann; book = dune }) [] 11)

overlap_bound_example :
    ((id : ℕ) (book : Book)
      → find_book id crowded.db ≡ some book
      → active_count id crowded.db + 1 ≤ book.total_copies + 2)
    × ((user_id id : ℕ) → count (active_for user_id id) crowded.db.borrowings ≤ 2)
overlap_bound_example =
    Bound.overlap_bound 2 tables crowded (omega arith) tables-IsStocked.covered
      tables-IsSound.single crowded-Reach
