-- ===== src/Backend/Seeds/Ends.antt =====
-- The task runs to its end, and a second run of it has nothing to do.
use ror_books_test.Prelude.{
  length, ◌<◌, ◌^◌, ◌≡◌, refl, ap, sym, ◌∙◌, ◌==◌, String, str_eq, eq_iff, Option, none, some, Bool,
  false, not, ◌&&◌, List, [], ◌∷◌, find, find-some, any, All, arith, Bool-cases, inl, inr,
}
use ror_books_test.Backend.Tables.{Book, Database}
use ror_books_test.Backend.Catalogue.{
  new_book, save_book, save_changed, assign_book, new_book_errors, changed_book_errors,
}
use ror_books_test.Backend.Seeds.{
  Listing, Seeding, attributes, find_by_isbn, is_unchanged, saved, count_created, count_updated,
  seed_found, seed_one, seed_all, seed_bestsellers, numbered,
}
use ror_books_test.Backend.Seeds.Rows.{All-find, IsKeyed}
use ror_books_test.Backend.Seeds.Again.{all-IsSeeded, seed_all-seeded}
use ror_books_test.Backend.Seeds.Rounds.{IsSeeded, round_done, Outcome-IsKeyed}
use ror_books_test.Backend.Seeds.Isbn.{numbered-IsDistinct}
use ror_books_test.Backend.Seeds.Unique.{is_used, IsUnique, Outcome-IsUnique}

none_taken :
    (isbn : String) (bs : List Book)
    → find (λ b. str_eq b.isbn isbn) bs ≡ none
    → any (λ b. str_eq b.isbn isbn) bs ≡ false
none_taken isbn [] h = refl
none_taken isbn (b ∷ bs) h = ground (arith, h, none_taken isbn bs)

module _ (blank : String → Bool) where
  -- An entry whose texts are not blank.
  abbrev pub IsFilled : String × Listing → Type 0
  IsFilled (isbn, l) =
      (blank isbn ≡ false)
      × (blank l.title ≡ false)
      × (blank l.author ≡ false)
      × (blank l.genre ≡ false)

  no_errors_new :
      (isbn : String) (l : Listing) (db : Database)
      → IsFilled (isbn, l)
      → find_by_isbn isbn db ≡ none
      → new_book_errors blank (attributes isbn l) db ≡ []
  unfolding new_book_errors ror_books_test.Backend.Catalogue.copies_errors
  no_errors_new isbn l db (i, t, a, g) missing =
      rw (i, t, a, g, none_taken isbn db.books missing) refl

  no_errors_changed :
      (isbn : String) (l : Listing) (b : Book) (db : Database)
      → IsFilled (isbn, l)
      → find_by_isbn isbn db ≡ some b
      → IsUnique db.books
      → changed_book_errors blank (attributes isbn l) (assign_book (attributes isbn l) b) db ≡ []
  unfolding changed_book_errors assign_book ror_books_test.Backend.Catalogue.copies_errors
  no_errors_changed isbn l b db (i, t, a, g) found unique =
      let b_isbn : b.isbn ≡ isbn =
        (eq_iff b.isbn isbn).0 (find-some (λ o. str_eq o.isbn isbn) db.books b found).1 in
      let alone : any (λ o. not (o.id == b.id) && str_eq o.isbn isbn) db.books ≡ false =
        ap (is_used db.books b.id) (sym b_isbn)
        ∙ All-find (λ x. is_used db.books x.id x.isbn ≡ false) (λ o. str_eq o.isbn isbn) db.books b
            unique found in
      rw (i, t, a, g, alone) refl

  created_some :
      (isbn : String) (l : Listing) (s : Seeding)
      → (t : Seeding) × (count_created s (saved (save_book [] (attributes isbn l) s.db)) ≡ some t)
  unfolding save_book new_book
  created_some isbn l s = (_, refl)

  updated_some :
      (isbn : String) (l : Listing) (b : Book) (s : Seeding)
      → (t : Seeding) × (count_updated s
            (saved (save_changed [] (assign_book (attributes isbn l) b) s.db))
          ≡ some t)
  unfolding save_changed assign_book
  updated_some isbn l b s = (_, refl)

  found_some :
      (isbn : String) (l : Listing) (s : Seeding) (o : Option Book)
      → IsFilled (isbn, l)
      → IsUnique s.db.books
      → find_by_isbn isbn s.db ≡ o
      → (t : Seeding) × (seed_found blank isbn l s o ≡ some t)
  found_some isbn l s none filled unique missing =
      rw (no_errors_new isbn l s.db filled missing) (created_some isbn l s)
  found_some isbn l s (some b) filled unique found = elim (Bool-cases (is_unchanged l b)) [
    | inl same ↦ (s, rw same refl)
    | inr other ↦
        rw (other, no_errors_changed isbn l b s.db filled found unique) (updated_some isbn l b s)
  ]

  seed_one-some :
      (e : String × Listing) (s : Seeding)
      → IsFilled e
      → IsUnique s.db.books
      → (t : Seeding) × (seed_one blank e s ≡ some t)
  unfolding seed_one
  seed_one-some (isbn, l) s filled unique =
      found_some isbn l s (find_by_isbn isbn s.db) filled unique refl

  seed_all-some :
      (es : List (String × Listing)) (s : Seeding)
      → All IsFilled es
      → IsKeyed s.db
      → IsUnique s.db.books
      → (t : Seeding) × (seed_all blank es s ≡ some t)
  unfolding seed_all
  seed_all-some [] s filled keyed unique = (s, refl)
  seed_all-some (e ∷ es) s filled keyed unique =
      let (u, went) = seed_one-some e s filled.0 unique in
      let after = round_done blank e s u went in
      let (t, rest) =
        seed_all-some es u filled.1 (Outcome-IsKeyed blank e.0 e.1 s u.db after keyed)
          (Outcome-IsUnique blank e.0 e.1 s u.db after keyed unique) in
      (t, rw went rest)

  -- The task ends, from tables in which every book is found by its id, the next id is above those
  -- in use and no two books have one ISBN, where no entry has a blank text or ISBN and there are
  -- fewer than 10 ^ 10. It leaves for each entry a book that says what the entry says, and a second
  -- run creates nothing, updates nothing and leaves the tables as they are.
  pub seed_bestsellers-IsSeeded :
      (bestsellers : List Listing) (db : Database)
      → All IsFilled (numbered 0 bestsellers)
      → length bestsellers < 10 ^ 10
      → IsKeyed db
      → IsUnique db.books
      → (t : Seeding) × (seed_bestsellers blank bestsellers db ≡ some t)
        × All (IsSeeded t.db) (numbered 0 bestsellers)
        × (seed_bestsellers blank bestsellers t.db
            ≡ some (record { db = t.db; created = 0; updated = 0 }))
  unfolding seed_bestsellers
  seed_bestsellers-IsSeeded bestsellers db filled few keyed unique =
      let es = numbered 0 bestsellers in
      let start : Seeding = record { db = db; created = 0; updated = 0 } in
      let (t, done_) = seed_all-some es start filled keyed unique in
      let there =
        all-IsSeeded blank es start t (numbered-IsDistinct 0 bestsellers (omega (arith, few))) keyed
          done_ in
      (
        t,
        done_,
        there,
        seed_all-seeded blank es (record { db = t.db; created = 0; updated = 0 }) there,
      )
