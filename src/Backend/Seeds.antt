-- ===== src/Backend/Seeds.antt =====
-- The task `db:seed_bestsellers` of lib/tasks/bestsellers.rake.
pub mod Bestsellers
pub mod Rows
pub mod Rounds
pub mod Again
pub mod Unique
pub mod Isbn
pub mod Ends
use Prim.Native.String
use ror_books_test.Prelude.{
  ℕ, zero, suc, ◌+◌, ◌/◌, ◌%◌, ◌==◌, String, str_eq, Option, none, some, Bool, true, false, ◌&&◌,
  List, [], ◌∷◌, find, if◌then◌else◌,
}
use ror_books_test.Backend.Tables.{Book, Database, Response, rendered, refused}
use ror_books_test.Backend.Catalogue.{
  BookParams, number, save_book, save_changed, assign_book, new_book_errors, changed_book_errors,
}

-- An entry of `bestsellers`.
pub record Listing : Type 0 where
  pub title : String
  pub author : String
  pub genre : String

abbrev ten_digits : List String
ten_digits = "0" ∷ "1" ∷ "2" ∷ "3" ∷ "4" ∷ "5" ∷ "6" ∷ "7" ∷ "8" ∷ "9" ∷ []

abbrev nth : List String → ℕ → String
nth [] n = ""
nth (d ∷ ds) zero = d
nth (d ∷ ds) (suc n) = nth ds n

abbrev digit : ℕ → String
digit n = nth ten_digits n

-- The last digits of a number, with zeros in front.
abbrev padded : ℕ → ℕ → String
padded zero n = ""
padded (suc width) n = String.◌++◌ (padded width (n / 10)) (digit (n % 10))

-- `format("999%010d", n)` of a number of at most ten digits.
unfoldable pub isbn_of : ℕ → String
isbn_of n = String.◌++◌ "999" (padded 10 n)

-- `bestsellers.each_with_index`, from an index on, with the ISBN of each entry.
abbrev pub numbered : ℕ → List Listing → List (String × Listing)
numbered index [] = []
numbered index (l ∷ ls) = (isbn_of (index + 1), l) ∷ numbered (index + 1) ls

-- The tables, and the two counts that the task prints.
pub record Seeding : Type 0 where
  pub db : Database
  pub created : ℕ
  pub updated : ℕ

-- What the record is given.
abbrev pub attributes : String → Listing → BookParams
attributes isbn l = record {
  title = some l.title;
  author = some l.author;
  genre = some l.genre;
  isbn = some isbn;
  total_copies = number false 10 0;
}

-- `Book.find_or_initialize_by(isbn: isbn)`, `none` for a new record.
abbrev pub find_by_isbn : String → Database → Option Book
find_by_isbn isbn db = find (λ b. str_eq b.isbn isbn) db.books

-- `not record.changed?`
abbrev pub is_unchanged : Listing → Book → Bool
is_unchanged l b =
    str_eq b.title l.title
    && (str_eq b.author l.author && (str_eq b.genre l.genre && b.total_copies == 10))

-- `record.save!`, `none` where it raises.
abbrev pub saved : Response Book × Database → Option Database
saved (rendered row, db) = some db
saved (refused status body, db) = none

abbrev pub count_created : Seeding → Option Database → Option Seeding
count_created s none = none
count_created s (some db) = some (record s { db = db; created = s.created + 1 })

abbrev pub count_updated : Seeding → Option Database → Option Seeding
count_updated s none = none
count_updated s (some db) = some (record s { db = db; updated = s.updated + 1 })

module _ (blank : String → Bool) where
  abbrev pub seed_found : String → Listing → Seeding → Option Book → Option Seeding
  seed_found isbn l s none =
      let p = attributes isbn l in
      count_created s (saved (save_book (new_book_errors blank p s.db) p s.db))
  seed_found isbn l s (some b) =
      let p = attributes isbn l in
      let changed = assign_book p b in
      if is_unchanged l b
      then some s
      else count_updated s
          (saved (save_changed (changed_book_errors blank p changed s.db) changed s.db))

  -- One round of the loop; `none` where `save!` raises, which ends the task.
  unfoldable pub seed_one : String × Listing → Seeding → Option Seeding
  seed_one (isbn, l) s = seed_found isbn l s (find_by_isbn isbn s.db)

  abbrev pub and_then : (Seeding → Option Seeding) → Option Seeding → Option Seeding
  and_then next none = none
  and_then next (some s) = next s

  unfoldable pub seed_all : List (String × Listing) → Seeding → Option Seeding
  seed_all [] s = some s
  seed_all (e ∷ es) s = and_then (seed_all es) (seed_one e s)

  -- The task.
  unfoldable pub seed_bestsellers : List Listing → Database → Option Seeding
  seed_bestsellers bestsellers db =
      seed_all (numbered 0 bestsellers) (record { db = db; created = 0; updated = 0 })
