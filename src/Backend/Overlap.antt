-- ===== src/Backend/Overlap.antt =====
-- Requests to borrow that overlap: each reads the tables for its validations, and inserts its row
-- later. Nothing locks the rows in between.
pub mod Bound
use ror_books_test.Prelude.{
  ℕ, zero, suc, ◌+◌, ◌/◌, ◌≤◌, ◌<◌, ◌≡◌, refl, sym, ◌∙◌, ap, ◌==◌, String, Option, none, some,
  Option-cases, Bool, true, false, ◌&&◌, Bool-cases, List, [], ◌∷◌, ◌++◌, map, any, count,
  count-append, count-map_le, count-none, find, find-some, length, arith, inl, inr, if◌then◌else◌,
}
use ror_books_test.Api.{User}
use ror_books_test.Dates.{day_ms}
use ror_books_test.Backend.Tables.{
  Book, Borrowing, Database, Response, find_book, find_borrowing, is_librarian,
}
use ror_books_test.Backend.Lending.{
  active_on, active_for, active_count, borrow_errors, new_borrowing, insert, give_back, return_book,
  mark, mark_overdue_books,
}
use ror_books_test.Backend.Eligible.{no_errors_free}
use ror_books_test.Backend.Integrity.{same_id}
use ror_books_test.Backend.Late.{mark_overdue_books_lem}
use ror_books_test.Backend.Upkeep.{if_both, give_back_inactive, mark_inactive}
use ror_books_test.Backend.Stock.{passes_left, give_back_active, mark_active, new_active}

-- A request that has passed its validations.
pub record Passed : Type 0 where
  pub user : User
  pub book : Book

pub record System : Type 0 where
  pub db : Database
  pub waiting : List Passed

-- A step of the server, with at most `n` requests to borrow at once. Books are not edited meanwhile.
pub data Step (n : ℕ) : System → System → Type 0 where
  validate :
      {s : System} (user : User) (id : ℕ) (book : Book)
      → length s.waiting < n
      → find_book id s.db ≡ some book
      → borrow_errors s.db user book ≡ []
      → Step n s (record s { waiting = record { user = user; book = book } ∷ s.waiting })
  store :
      {db : Database} (before : List Passed) (r : Passed) (after : List Passed) (now : ℕ)
      → Step n
          (record { db = db; waiting = before ++ r ∷ after })
          (record {
            db = insert (new_borrowing now r.user r.book db) db;
            waiting = before ++ after;
          })
  give :
      {s : System} (blank : String → Bool) (now : ℕ) (user : User) (id : ℕ)
      (comment : Option String)
      → Step n s (record s { db = (return_book blank now user id comment s.db).1 })
  check : {s : System} (now : ℕ) → Step n s (record s { db = (mark_overdue_books now s.db).1 })

-- What can be reached from tables at rest.
pub data Reach (n : ℕ) (db : Database) : System → Type 0 where
  rest : Reach n db (record { db = db; waiting = [] })
  later : {s t : System} → Reach n db s → Step n s t → Reach n db t
