-- ===== src/Backend/Shelved.antt =====
-- What the writes of books keep true of the table of books.
pub mod Writes
pub mod Requests
use ror_books_test.Prelude.{
  ℕ, ◌≡◌, ◌<◌, ◌+◌, refl, ap, sym, ◌∙◌, ◌==◌, String, str_eq, Option, none, some, Bool, true, false,
  not, ◌&&◌, List, [], ◌∷◌, ◌++◌, map, find, find-some, any, keep, All, All-keep, arith,
  if◌then◌else◌, Bool-cases, Option-cases, inl, inr,
}
use ror_books_test.Api.{Messages}
use ror_books_test.Backend.Tables.{Book, Database, Response, find_book}
use ror_books_test.Backend.Catalogue.{
  BookParams, new_book, save_book, save_changed, assign_book, new_book_errors, changed_book_errors,
  update_found_book, destroy_found_book,
}
use ror_books_test.Backend.Upkeep.{if_both}
use ror_books_test.Backend.Seeds.Rows.{
  All-find, replaced, other_text, IsKeyed, added-IsKeyed, replaced-IsKeyed,
}
use ror_books_test.Backend.Seeds.Unique.{is_used, IsUnique, added-IsUnique}

-- Every book is found by its id, the next id is above those in use, and no two books have one ISBN.
pub record IsShelved (books : List Book) (next : ℕ) : Type 0 where
  pub keyed : All (λ b. find (λ o. o.id == b.id) books ≡ some b) books
  pub fresh : All (λ b. b.id < next) books
  pub unique : IsUnique books

abbrev pub IsShelvedAfter : {A : Type 0} → Response A × Database → Type 0
IsShelvedAfter r = IsShelved r.1.books r.1.next_book

pub shelved-IsKeyed : (db : Database) → IsShelved db.books db.next_book → IsKeyed db
shelved-IsKeyed db h = record { keyed = h.keyed; fresh = h.fresh }

-- A row that takes the place of the one with its id.
same_used :
    (c : Book) (bs : List Book)
    → is_used bs c.id c.isbn ≡ false
    → is_used (replaced c bs) c.id c.isbn ≡ false
same_used c [] h = refl
same_used c (b ∷ bs) h = ground (arith, h, same_used c bs)

other_used :
    (c : Book) (id : ℕ) (isbn : String) (bs : List Book)
    → str_eq c.isbn isbn ≡ false
    → is_used bs id isbn ≡ false
    → is_used (replaced c bs) id isbn ≡ false
other_used c id isbn [] apart h = refl
other_used c id isbn (b ∷ bs) apart h = ground (arith, h, apart, other_used c id isbn bs)

pub changed_unique :
    (c : Book) (bs xs : List Book)
    → is_used bs c.id c.isbn ≡ false
    → is_used xs c.id c.isbn ≡ false
    → All (λ x. is_used bs x.id x.isbn ≡ false) xs
    → All (λ x. is_used (replaced c bs) x.id x.isbn ≡ false) (replaced c xs)
changed_unique c bs [] free rest unique = tt
changed_unique c bs (x ∷ xs) free rest unique = (
  elim (Bool-cases (x.id == c.id)) [
    | inl e ↦ rw e (same_used c bs free)
    | inr e ↦
        let apart : str_eq x.isbn c.isbn ≡ false = ground (arith, rest, e) in
        rw e (other_used c x.id x.isbn bs (other_text x.isbn c.isbn apart) unique.0)
  ],
  changed_unique c bs xs free (ground (arith, rest)) unique.1,
)

-- What is left of the rows.
is_used-keep :
    (q : Book → Bool) (id : ℕ) (isbn : String) (bs : List Book)
    → is_used bs id isbn ≡ false
    → is_used (keep q bs) id isbn ≡ false
is_used-keep q id isbn [] h = refl
is_used-keep q id isbn (b ∷ bs) h = ground (arith, h, is_used-keep q id isbn bs)

find-keep :
    (p q : Book → Bool) (bs : List Book) (x : Book)
    → find p bs ≡ some x
    → q x ≡ true
    → find p (keep q bs) ≡ some x
find-keep p q [] x found pass = ground (arith, found)
find-keep p q (b ∷ bs) x found pass = ground (arith, found, pass, find-keep p q bs x)

pub kept-IsShelved :
    (q : Book → Bool) (books : List Book) (next : ℕ)
    → IsShelved books next
    → IsShelved (keep q books) next
kept-IsShelved q books next h = record {
  keyed =
      All-keep (λ b. find (λ o. o.id == b.id) books ≡ some b)
        (λ b. find (λ o. o.id == b.id) (keep q books) ≡ some b) q
        (λ b pass found. find-keep (λ o. o.id == b.id) q books b found pass) books h.keyed;
  fresh = All-keep (λ b. b.id < next) (λ b. b.id < next) q (λ b pass less. less) books h.fresh;
  unique =
      All-keep (λ b. is_used books b.id b.isbn ≡ false)
        (λ b. is_used (keep q books) b.id b.isbn ≡ false) q
        (λ b pass alone. is_used-keep q b.id b.isbn books alone) books h.unique;
}
