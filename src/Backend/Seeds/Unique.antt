-- ===== src/Backend/Seeds/Unique.antt =====
-- How the ISBNs stay apart in a round of the task.
use ror_books_test.Prelude.{
  ℕ, ◌≡◌, refl, ap, sym, ◌∙◌, ◌==◌, String, str_eq, eq_iff, none, some, Bool, true, false, not,
  ◌&&◌, List, [], ◌∷◌, ◌++◌, find, find-some, any, All, All-imp, All-append, arith, Bool-cases, inl,
  inr,
}
use ror_books_test.Backend.Tables.{Book, Database, find_book}
use ror_books_test.Backend.Catalogue.{new_book, assign_book}
use ror_books_test.Backend.Seeds.{Listing, Seeding, attributes}
use ror_books_test.Backend.Seeds.Rows.{other_text, replaced, All-find, IsKeyed}
use ror_books_test.Backend.Seeds.Rounds.{Outcome, as_before, added, changed, same_row}

-- Whether another row has an ISBN.
abbrev pub is_used : List Book → ℕ → String → Bool
is_used bs id isbn = any (λ o. not (o.id == id) && str_eq o.isbn isbn) bs

-- No two rows have one ISBN.
abbrev pub IsUnique : List Book → Type 0
IsUnique bs = All (λ x. is_used bs x.id x.isbn ≡ false) bs

-- What an ISBN does not find has another one.
none_found :
    (isbn : String) (bs : List Book)
    → find (λ b. str_eq b.isbn isbn) bs ≡ none
    → All (λ b. str_eq b.isbn isbn ≡ false) bs
none_found isbn [] h = tt
none_found isbn (b ∷ bs) h = elim (Bool-cases (str_eq b.isbn isbn)) [
  | inl e ↦ absurd (ground (arith, h, e))
  | inr e ↦ (e, none_found isbn bs (ground (arith, h, e)))
]

is_used-added :
    (bs : List Book) (n : Book) (id : ℕ) (isbn : String)
    → str_eq n.isbn isbn ≡ false
    → is_used bs id isbn ≡ false
    → is_used (bs ++ n ∷ []) id isbn ≡ false
is_used-added [] n id isbn apart h = ground (arith, apart)
is_used-added (b ∷ bs) n id isbn apart h =
    ground (arith, h, apart, is_used-added bs n id isbn apart)

is_used-new :
    (bs : List Book) (n : Book)
    → All (λ b. str_eq b.isbn n.isbn ≡ false) bs
    → is_used (bs ++ n ∷ []) n.id n.isbn ≡ false
is_used-new [] n h = ground arith
is_used-new (b ∷ bs) n h = ground (arith, h.0, is_used-new bs n h.1)

is_used-replaced :
    (c : Book) (id : ℕ) (isbn : String) (bs : List Book)
    → All (λ o. (o.id == c.id) ≡ true → o.isbn ≡ c.isbn) bs
    → is_used (replaced c bs) id isbn ≡ is_used bs id isbn
is_used-replaced c id isbn [] h = refl
is_used-replaced c id isbn (b ∷ bs) h = elim (Bool-cases (b.id == c.id)) [
  | inl e ↦ ground (arith, e, h.0 e, is_used-replaced c id isbn bs h.1)
  | inr e ↦ ground (arith, e, is_used-replaced c id isbn bs h.1)
]

-- The rows that were there, beside a new one with another ISBN.
old_unique :
    (bs : List Book) (n : Book) (xs : List Book)
    → All (λ b. str_eq b.isbn n.isbn ≡ false) xs
    → All (λ x. is_used bs x.id x.isbn ≡ false) xs
    → All (λ x. is_used (bs ++ n ∷ []) x.id x.isbn ≡ false) xs
old_unique bs n [] apart unique = tt
old_unique bs n (x ∷ xs) apart unique = (
  is_used-added bs n x.id x.isbn (other_text x.isbn n.isbn apart.0) unique.0,
  old_unique bs n xs apart.1 unique.1,
)

-- The rows after one is replaced by a row with its ISBN.
kept_unique :
    (bs : List Book) (c : Book)
    → All (λ o. (o.id == c.id) ≡ true → o.isbn ≡ c.isbn) bs
    → (xs : List Book) → All (λ o. (o.id == c.id) ≡ true → o.isbn ≡ c.isbn) xs
    → All (λ x. is_used bs x.id x.isbn ≡ false) xs
    → All (λ x. is_used (replaced c bs) x.id x.isbn ≡ false) (replaced c xs)
kept_unique bs c all [] same unique = tt
kept_unique bs c all (x ∷ xs) same unique = (
  elim (Bool-cases (x.id == c.id)) [
    | inl e ↦
        let ids : x.id ≡ c.id = ground (arith, e) in
        let alone : is_used bs c.id c.isbn ≡ false =
          ap (λ id. is_used bs id c.isbn) (sym ids)
          ∙ (ap (is_used bs x.id) (sym (same.0 e)) ∙ unique.0) in
        rw e (is_used-replaced c c.id c.isbn bs all ∙ alone)
    | inr e ↦ rw e (is_used-replaced c x.id x.isbn bs all ∙ unique.0)
  ],
  kept_unique bs c all xs same.1 unique.1,
)

pub added-IsUnique :
    (bs : List Book) (n : Book)
    → All (λ b. str_eq b.isbn n.isbn ≡ false) bs
    → IsUnique bs
    → IsUnique (bs ++ n ∷ [])
added-IsUnique bs n apart unique =
    All-append (λ x. is_used (bs ++ n ∷ []) x.id x.isbn ≡ false) bs (n ∷ [])
      (old_unique bs n bs apart unique) (is_used-new bs n apart, tt)

replaced-IsUnique :
    (bs : List Book) (c : Book)
    → All (λ o. (o.id == c.id) ≡ true → o.isbn ≡ c.isbn) bs
    → IsUnique bs
    → IsUnique (replaced c bs)
replaced-IsUnique bs c same unique = kept_unique bs c same bs same unique

-- A round leaves no two rows with one ISBN.
pub Outcome-IsUnique :
    (blank : String → Bool) (isbn : String) (l : Listing) (s : Seeding) (db : Database)
    → Outcome blank s isbn l db
    → IsKeyed s.db
    → IsUnique s.db.books
    → IsUnique db.books
unfolding new_book assign_book
Outcome-IsUnique blank isbn l s db (as_before h) keyed unique = unique
Outcome-IsUnique blank isbn l s db (added missing) keyed unique =
    added-IsUnique s.db.books (new_book (attributes isbn l) s.db)
      (none_found isbn s.db.books missing) unique
Outcome-IsUnique blank isbn l s db (changed b found) keyed unique =
    let b_found =
      All-find (λ o. find_book o.id s.db ≡ some o) (λ o. str_eq o.isbn isbn) s.db.books b
        keyed.keyed found in
    let b_isbn : b.isbn ≡ isbn =
      (eq_iff b.isbn isbn).0 (find-some (λ o. str_eq o.isbn isbn) s.db.books b found).1 in
    replaced-IsUnique s.db.books (assign_book (attributes isbn l) b)
      (All-imp (λ o. find_book o.id s.db ≡ some o) (λ o. (o.id == b.id) ≡ true → o.isbn ≡ isbn)
        (λ o o_found h.
          ap (λ (x : Book). x.isbn) (same_row blank s.db o b o_found b_found h) ∙ b_isbn)
        s.db.books keyed.keyed)
      unique
