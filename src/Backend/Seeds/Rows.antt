-- ===== src/Backend/Seeds/Rows.antt =====
-- How rows are found by their ISBN and by their id once a row is added or changed.
use ror_books_test.Prelude.{
  ℕ, ◌≡◌, ◌<◌, ◌+◌, eq_iff, sym, All-imp, All-map, All-append, refl, ap, ◌∙◌, ◌==◌, String, str_eq,
  none, some, Bool, true, false, List, [], ◌∷◌, ◌++◌, map, find, All, arith, if◌then◌else◌,
  Bool-cases, inl, inr,
}
use ror_books_test.Backend.Tables.{Book, Database, find_book}

-- A row behind the others does not hide one that is found.
pub find-added :
    {A : Type 0} (p : A → Bool) (xs : List A) (x y : A)
    → find p xs ≡ some x
    → find p (xs ++ y ∷ []) ≡ some x
find-added p [] x y h = ground (arith, h)
find-added p (z ∷ zs) x y h = ground (arith, h, find-added p zs x y)

pub find-new :
    {A : Type 0} (p : A → Bool) (xs : List A) (y : A)
    → find p xs ≡ none
    → p y ≡ true
    → find p (xs ++ y ∷ []) ≡ some y
find-new p [] y h k = ground (arith, k)
find-new p (z ∷ zs) y h k = ground (arith, h, k, find-new p zs y)

-- What holds of all rows holds of one that is found.
pub All-find :
    {A : Type 0} (P : A → Type 0) (p : A → Bool) (xs : List A) (x : A)
    → All P xs
    → find p xs ≡ some x
    → P x
All-find P p [] x all found = absurd (ground (arith, found))
All-find P p (z ∷ zs) x all found = elim (Bool-cases (p z)) [
  | inl here ↦ let same : z ≡ x = ground (arith, found, here) in rw same at all.0
  | inr later ↦
      let rest : find p zs ≡ some x = ground (arith, found, later) in All-find P p zs x all.1 rest
]

abbrev pub replaced : Book → List Book → List Book
replaced c bs = map (λ o. if o.id == c.id then c else o) bs

-- A row that takes the place of one with its id is found by the ISBN that both have.
pub find-replaced :
    (isbn : String) (c b : Book) (bs : List Book)
    → find (λ o. str_eq o.isbn isbn) bs ≡ some b
    → c.id ≡ b.id
    → str_eq c.isbn isbn ≡ true
    → find (λ o. str_eq o.isbn isbn) (replaced c bs) ≡ some c
find-replaced isbn c b [] found same isbn_c = ground (arith, found)
find-replaced isbn c b (o ∷ os) found same isbn_c =
    ground (arith, found, same, isbn_c, find-replaced isbn c b os)

-- A row with another id and another ISBN takes nothing away from what an ISBN finds.
pub find-other :
    (isbn : String) (c r : Book) (bs : List Book)
    → find (λ o. str_eq o.isbn isbn) bs ≡ some r
    → (r.id == c.id) ≡ false
    → str_eq c.isbn isbn ≡ false
    → All (λ o. (o.id == c.id) ≡ true → str_eq o.isbn isbn ≡ false) bs
    → find (λ o. str_eq o.isbn isbn) (replaced c bs) ≡ some r
find-other isbn c r [] found other isbn_c rest = ground (arith, found)
find-other isbn c r (o ∷ os) found other isbn_c rest =
    ground (arith, found, other, isbn_c, rest.0, find-other isbn c r os)

-- The id of a row that is found by it.
pub find-replaced_id :
    (id : ℕ) (c x : Book) (bs : List Book)
    → find (λ o. o.id == id) bs ≡ some x
    → find (λ o. o.id == id) (replaced c bs) ≡ some (if x.id == c.id then c else x)
find-replaced_id id c x [] found = ground (arith, found)
find-replaced_id id c x (o ∷ os) found = ground (arith, found, find-replaced_id id c x os)

pub find-fresh : (n : ℕ) (bs : List Book) → All (λ b. b.id < n) bs → find (λ o. o.id == n) bs ≡ none
find-fresh n [] h = refl
find-fresh n (o ∷ os) h = ground (arith, h.0, find-fresh n os h.1)

-- Every row is found by its id, and the next id is above those in use.
pub record IsKeyed (db : Database) : Type 0 where
  pub keyed : All (λ b. find_book b.id db ≡ some b) db.books
  pub fresh : All (λ b. b.id < db.next_book) db.books

-- A new row with the next id.
pub added-IsKeyed :
    (db : Database) (n : Book)
    → n.id ≡ db.next_book
    → IsKeyed db
    → IsKeyed (record db { books = db.books ++ n ∷ []; next_book = db.next_book + 1 })
added-IsKeyed db n same h =
    let after = db.books ++ n ∷ [] in
    let old =
      All-imp (λ b. find_book b.id db ≡ some b) (λ b. find (λ o. o.id == b.id) after ≡ some b)
        (λ b found. find-added (λ o. o.id == b.id) db.books b n found) db.books h.keyed in
    let missing : find (λ o. o.id == n.id) db.books ≡ none =
      rw same (find-fresh db.next_book db.books h.fresh) in
    let below =
      All-imp (λ b. b.id < db.next_book) (λ b. b.id < db.next_book + 1)
        (λ b less. omega (arith, less)) db.books h.fresh in
    record {
      keyed =
          All-append (λ b. find (λ o. o.id == b.id) after ≡ some b) db.books (n ∷ []) old
            (find-new (λ o. o.id == n.id) db.books n missing (ground arith), tt);
      fresh =
          All-append (λ b. b.id < db.next_book + 1) db.books (n ∷ []) below
            (omega (arith, same), tt);
    }

kept_id : (c x : Book) → (if x.id == c.id then c else x).id ≡ x.id
kept_id c x = ground arith

-- A row that is changed and keeps its id.
pub replaced-IsKeyed :
    (db : Database) (c : Book)
    → c.id < db.next_book
    → IsKeyed db
    → IsKeyed (record db { books = replaced c db.books })
replaced-IsKeyed db c less h = record {
  keyed =
      All-map (λ b. find_book b.id db ≡ some b)
        (λ b. find (λ o. o.id == b.id) (replaced c db.books) ≡ some b)
        (λ o. if o.id == c.id then c else o)
        (λ x found.
          ap (λ id. find (λ o. o.id == id) (replaced c db.books)) (kept_id c x)
          ∙ find-replaced_id x.id c x db.books found)
        db.books h.keyed;
  fresh =
      All-map (λ b. b.id < db.next_book) (λ b. b.id < db.next_book)
        (λ o. if o.id == c.id then c else o) (λ b k. ground (arith, k, less)) db.books h.fresh;
}

pub same_text : (x : String) → str_eq x x ≡ true
same_text x = (eq_iff x x).1 refl

pub other_text : (x y : String) → str_eq x y ≡ false → str_eq y x ≡ false
other_text x y h = elim (Bool-cases (str_eq y x)) [
  | inl e ↦
      let same : x ≡ y = sym ((eq_iff y x).0 e) in
      let x_y = (eq_iff x y).1 same in absurd (ground (arith, h, x_y))
  | inr e ↦ e
]
