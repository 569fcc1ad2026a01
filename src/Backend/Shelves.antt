-- ===== src/Backend/Shelves.antt =====
-- The lent copies under changes of the books' own rows.
use ror_books_test.Prelude.{
  ℕ, ◌≤◌, ◌<◌, ◌≡◌, refl, sym, ◌∙◌, ap, ◌==◌, String, Option, none, some, false, not, Bool-cases,
  List, [], ◌∷◌, map, keep, find, All-map, All-keep, arith, inl, inr, if◌then◌else◌,
}
use ror_books_test.Api.{Messages}
use ror_books_test.Backend.Tables.{Book, Database, find_book}
use ror_books_test.Backend.Lending.{active_count}
use ror_books_test.Backend.Catalogue.{save_changed, destroy_found_book}
use ror_books_test.Backend.Upkeep.{if_both}
use ror_books_test.Backend.Integrity.{same_id}
use ror_books_test.Backend.Stock.{IsStocked, IsStockedAfter, keep-IsStocked}

find-other :
    (c : Book) (id : ℕ) (bs : List Book)
    → (c.id == id) ≡ false
    → find (λ o. o.id == id) (map (λ o. if o.id == c.id then c else o) bs)
      ≡ find (λ o. o.id == id) bs
find-other c id [] apart = refl
find-other c id (b ∷ bs) apart = ground (arith, apart, find-other c id bs apart)

find-changed :
    (c : Book) (bs : List Book) (book : Book)
    → find (λ o. o.id == c.id) (map (λ o. if o.id == c.id then c else o) bs) ≡ some book
    → c ≡ book
find-changed c [] book found = cc
find-changed c (b ∷ bs) book found = elim (Bool-cases (b.id == c.id)) [
  | inl here ↦ ground (arith, here, found)
  | inr apart ↦ find-changed c bs book (ground (arith, apart, found))
]

replaced_below : (n : ℕ) (c o : Book) → o.id < n → (if o.id == c.id then c else o).id < n
replaced_below n c o h = ground (arith, h)

pub save_changed-IsStocked :
    (b c : Book) (db : Database)
    → find_book c.id db ≡ some b
    → b.total_copies ≤ c.total_copies
    → IsStocked db
    → (errors : List (String × Messages)) → IsStocked (save_changed errors c db).1
unfolding save_changed
save_changed-IsStocked b c db here more h (e ∷ es) = h
save_changed-IsStocked b c db here more h [] =
    if_both (IsStockedAfter {A = Book}) _ _ _
      (record {
        covered = λ id book found. elim (Bool-cases (c.id == id)) [
          | inl same ↦
              let is = same_id c.id id same in
              let old = h.covered c.id b here in
              let changed = find-changed c db.books book (
                ap (λ k. find (λ o. o.id == k) (map (λ o. if o.id == c.id then c else o) db.books))
                  is
                ∙ found) in
              ground
                (arith, old, more, ap (λ k. active_count k db) is, ap (λ o. o.total_copies) changed)
          | inr apart ↦ h.covered id book (sym (find-other c id db.books apart) ∙ found)
        ];
        fresh =
            All-map (λ b. b.id < db.next_book) (λ b. b.id < db.next_book)
              (λ o. if o.id == c.id then c else o) (λ o k. replaced_below db.next_book c o k)
              db.books h.fresh;
        fresh_lent = h.fresh_lent;
      })
      h

kept_without :
    (gone : ℕ) (bs : List Book)
    → find (λ o. o.id == gone) (keep (λ o. not (o.id == gone)) bs) ≡ none
kept_without gone [] = refl
kept_without gone (b ∷ bs) = elim (Bool-cases (b.id == gone)) [
  | inl here ↦ ground (arith, here, kept_without gone bs)
  | inr apart ↦ ground (arith, apart, kept_without gone bs)
]

kept_others :
    (gone id : ℕ) (bs : List Book)
    → (gone == id) ≡ false
    → find (λ o. o.id == id) (keep (λ o. not (o.id == gone)) bs) ≡ find (λ o. o.id == id) bs
kept_others gone id [] apart = refl
kept_others gone id (b ∷ bs) apart = ground (arith, apart, kept_others gone id bs apart)

find-kept :
    (gone id : ℕ) (bs : List Book) (book : Book)
    → find (λ o. o.id == id) (keep (λ o. not (o.id == gone)) bs) ≡ some book
    → find (λ o. o.id == id) bs ≡ some book
find-kept gone id bs book found = elim (Bool-cases (gone == id)) [
  | inl same ↦
      let is = same_id gone id same in
      let nothing = kept_without gone bs in
      let there = ap (λ k. find (λ o. o.id == k) (keep (λ o. not (o.id == gone)) bs)) is ∙ found in
      absurd (ground (arith, nothing, there))
  | inr apart ↦ sym (kept_others gone id bs apart) ∙ found
]

pub destroy_found_book-IsStocked :
    (db : Database)
    → IsStocked db
    → (found : Option Book) → IsStocked (destroy_found_book found db).1
destroy_found_book-IsStocked db h none = h
destroy_found_book-IsStocked db h (some b) =
    let rest = keep-IsStocked (λ o. not (o.book_id == b.id)) db h in
    record {
      covered = λ id book found. rest.covered id book (find-kept b.id id db.books book found);
      fresh =
          All-keep (λ o. o.id < db.next_book) (λ o. o.id < db.next_book) (λ o. not (o.id == b.id))
            (λ o pass k. k) db.books h.fresh;
      fresh_lent = rest.fresh_lent;
    }
