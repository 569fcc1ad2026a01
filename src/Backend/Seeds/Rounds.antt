-- ===== src/Backend/Seeds/Rounds.antt =====
-- What a round of the task does to the tables.
use ror_books_test.Prelude.{
  ◌≡◌, ◌<◌, ◌+◌, refl, ap, sym, ◌∙◌, ◌==◌, String, str_eq, eq_iff, Option, none, some, Bool, true,
  false, List, [], ◌∷◌, ◌++◌, find-some, All-imp, arith, Bool-cases, inl, inr,
}
use mathlib.Core.Path.{subst}
use ror_books_test.Api.{Messages}
use ror_books_test.Backend.Tables.{Book, Database, find_book}
use ror_books_test.Backend.Catalogue.{new_book, save_book, save_changed, assign_book}
use ror_books_test.Backend.Seeds.{
  Listing, Seeding, attributes, find_by_isbn, is_unchanged, saved, count_created, count_updated,
  seed_found, seed_one,
}
use ror_books_test.Backend.Seeds.Rows.{
  same_text, find-added, find-new, All-find, replaced, find-replaced, find-other, IsKeyed,
  added-IsKeyed, replaced-IsKeyed,
}

-- The row of an ISBN says what its entry says.
abbrev pub IsSeeded : Database → String × Listing → Type 0
IsSeeded db (isbn, l) = (b : Book) × (find_by_isbn isbn db ≡ some b) × (is_unchanged l b ≡ true)

module _ (blank : String → Bool) where
  -- The tables after a round.
  pub data Outcome (s : Seeding) (isbn : String) (l : Listing) : Database → Type 0 where
    as_before : IsSeeded s.db (isbn, l) → Outcome s isbn l s.db
    added :
        find_by_isbn isbn s.db ≡ none
        → Outcome s isbn l (record s.db {
          books = s.db.books ++ new_book (attributes isbn l) s.db ∷ [];
          next_book = s.db.next_book + 1;
        })
    changed :
        (b : Book)
        → find_by_isbn isbn s.db ≡ some b
        → Outcome s isbn l
            (record s.db { books = replaced (assign_book (attributes isbn l) b) s.db.books })

  unfoldable pub db_of : Seeding → Option Seeding → Database
  db_of s none = s.db
  db_of s (some t) = t.db

  created_rows :
      (errors : List (String × Messages)) (isbn : String) (l : Listing) (s t : Seeding)
      → find_by_isbn isbn s.db ≡ none
      → count_created s (saved (save_book errors (attributes isbn l) s.db)) ≡ some t
      → Outcome s isbn l t.db
  unfolding save_book new_book db_of
  created_rows (e ∷ es) isbn l s t missing done_ = absurd (ground (arith, done_))
  created_rows [] isbn l s t missing done_ =
      subst (Outcome s isbn l) (ap (db_of s) done_) (added missing)

  updated_rows :
      (errors : List (String × Messages)) (isbn : String) (l : Listing) (b : Book) (s t : Seeding)
      → find_by_isbn isbn s.db ≡ some b
      → count_updated s (saved (save_changed errors (assign_book (attributes isbn l) b) s.db))
        ≡ some t
      → Outcome s isbn l t.db
  unfolding save_changed assign_book db_of
  updated_rows (e ∷ es) isbn l b s t found done_ = absurd (ground (arith, done_))
  updated_rows [] isbn l b s t found done_ =
      subst (Outcome s isbn l) (ap (db_of s) done_) (changed b found)

  found_done :
      (isbn : String) (l : Listing) (s t : Seeding) (o : Option Book)
      → find_by_isbn isbn s.db ≡ o
      → seed_found blank isbn l s o ≡ some t
      → Outcome s isbn l t.db
  unfolding db_of
  found_done isbn l s t none missing done_ = created_rows _ isbn l s t missing done_
  found_done isbn l s t (some b) found done_ = elim (Bool-cases (is_unchanged l b)) [
    | inl same ↦
        subst (Outcome s isbn l) (ap (db_of s) (rw same at done_)) (as_before (b, found, same))
    | inr other ↦ updated_rows _ isbn l b s t found (rw other at done_)
  ]

  -- After its round an entry has a row that says what it says.
  pub Outcome-IsSeeded :
      (isbn : String) (l : Listing) (s : Seeding) (db : Database)
      → Outcome s isbn l db
      → IsSeeded db (isbn, l)
  unfolding new_book assign_book
  Outcome-IsSeeded isbn l s db (as_before h) = h
  Outcome-IsSeeded isbn l s db (added missing) = (
    new_book (attributes isbn l) s.db,
    find-new (λ b. str_eq b.isbn isbn) s.db.books (new_book (attributes isbn l) s.db) missing
        (same_text isbn),
    ground (arith, same_text l.title, same_text l.author, same_text l.genre),
  )
  Outcome-IsSeeded isbn l s db (changed b found) = (
    assign_book (attributes isbn l) b,
    find-replaced isbn (assign_book (attributes isbn l) b) b s.db.books found refl (same_text isbn),
    ground (arith, same_text l.title, same_text l.author, same_text l.genre),
  )

  abbrev or_row : Book → Option Book → Book
  or_row x none = x
  or_row x (some y) = y

  pub same_row :
      (db : Database) (x b : Book)
      → find_book x.id db ≡ some x
      → find_book b.id db ≡ some b
      → (x.id == b.id) ≡ true
      → x ≡ b
  same_row db x b x_found b_found h =
      let ids : x.id ≡ b.id = ground (arith, h) in
      ap (or_row x) (sym x_found ∙ ap (λ id. find_book id db) ids ∙ b_found)

  -- A row with the id of one that an ISBN finds does not have another ISBN.
  same_id-isbn :
      (db : Database) (isbn other : String) (x b : Book)
      → IsKeyed db
      → find_by_isbn isbn db ≡ some b
      → str_eq isbn other ≡ false
      → find_book x.id db ≡ some x
      → (x.id == b.id) ≡ true
      → str_eq x.isbn other ≡ false
  same_id-isbn db isbn other x b keyed found apart x_found h =
      let b_found =
        All-find (λ o. find_book o.id db ≡ some o) (λ o. str_eq o.isbn isbn) db.books b keyed.keyed
          found in
      let row : x.isbn ≡ b.isbn = ap (λ (o : Book). o.isbn) (same_row db x b x_found b_found h) in
      let b_isbn : b.isbn ≡ isbn =
        (eq_iff b.isbn isbn).0 (find-some (λ o. str_eq o.isbn isbn) db.books b found).1 in
      ap (λ text. str_eq text other) (row ∙ b_isbn) ∙ apart

  -- A round leaves the rows of other entries alone.
  pub other-IsSeeded :
      (isbn : String) (l : Listing) (s : Seeding) (db : Database) (e : String × Listing)
      → Outcome s isbn l db
      → IsKeyed s.db
      → str_eq isbn e.0 ≡ false
      → IsSeeded s.db e
      → IsSeeded db e
  unfolding new_book assign_book
  other-IsSeeded isbn l s db e (as_before h) keyed apart there = there
  other-IsSeeded isbn l s db e (added missing) keyed apart (r, found, same) =
      (r, find-added (λ b. str_eq b.isbn e.0) s.db.books r _ found, same)
  other-IsSeeded isbn l s db e (changed b by_isbn) keyed apart (r, found, same) =
      let r_isbn = (find-some (λ o. str_eq o.isbn e.0) s.db.books r found).1 in
      let r_found =
        All-find (λ o. find_book o.id s.db ≡ some o) (λ o. str_eq o.isbn e.0) s.db.books r
          keyed.keyed found in
      let apart_ids : (r.id == b.id) ≡ false = elim (Bool-cases (r.id == b.id)) [
        | inl h ↦
            let wrong = same_id-isbn s.db isbn e.0 r b keyed by_isbn apart r_found h in
            absurd (ground (arith, r_isbn, wrong))
        | inr h ↦ h
      ] in
      let rest =
        All-imp (λ o. find_book o.id s.db ≡ some o)
          (λ o. (o.id == b.id) ≡ true → str_eq o.isbn e.0 ≡ false)
          (λ o. same_id-isbn s.db isbn e.0 o b keyed by_isbn apart) s.db.books keyed.keyed in
      (
        r,
        find-other e.0 (assign_book (attributes isbn l) b) r s.db.books found apart_ids apart rest,
        same,
      )

  pub Outcome-IsKeyed :
      (isbn : String) (l : Listing) (s : Seeding) (db : Database)
      → Outcome s isbn l db
      → IsKeyed s.db
      → IsKeyed db
  unfolding new_book assign_book
  Outcome-IsKeyed isbn l s db (as_before h) keyed = keyed
  Outcome-IsKeyed isbn l s db (added missing) keyed =
      added-IsKeyed s.db (new_book (attributes isbn l) s.db) refl keyed
  Outcome-IsKeyed isbn l s db (changed b found) keyed =
      replaced-IsKeyed s.db (assign_book (attributes isbn l) b)
        (All-find (λ o. o.id < s.db.next_book) (λ o. str_eq o.isbn isbn) s.db.books b keyed.fresh
          found)
        keyed

  pub round_done :
      (e : String × Listing) (s t : Seeding) → seed_one blank e s ≡ some t → Outcome s e.0 e.1 t.db
  unfolding seed_one
  round_done (isbn, l) s t done_ = found_done isbn l s t (find_by_isbn isbn s.db) refl done_
