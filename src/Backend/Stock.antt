-- ===== src/Backend/Stock.antt =====
-- The lent copies against the copies that the library has.
use ror_books_test.Prelude.{
  ℕ, ◌+◌, ◌≤◌, ◌<◌, ◌≡◌, ◌⊎◌, refl, sym, ◌∙◌, ap, ◌==◌, String, Option, some, Option-cases, Bool,
  true, Bool-cases, List, [], ◌∷◌, ◌++◌, map, keep, find, find-some, count, count-append,
  count-map_le, count-keep_le, All, All-imp, All-append, All-map, All-keep, arith, inl, inr,
  if◌then◌else◌,
}
use ror_books_test.Api.{User, Messages}
use ror_books_test.Backend.Tables.{Book, Borrowing, Database, Response, find_book}
use ror_books_test.Backend.Lending.{
  active_on, active_count, borrow_errors, available_copies, new_borrowing, insert, create_or_raise,
  create_borrowing, give_back, mark,
}
use ror_books_test.Backend.Catalogue.{BookParams, new_book, save_book}
use ror_books_test.Backend.Eligible.{create_found}
use ror_books_test.Backend.Integrity.{same_id}
use ror_books_test.Backend.Upkeep.{if_both}

-- No book has more active borrowings than copies, and the next id is above those in use.
pub record IsStocked (db : Database) : Type 0 where
  pub covered :
      (id : ℕ) (book : Book) → find_book id db ≡ some book → active_count id db ≤ book.total_copies
  pub fresh : All (λ b. b.id < db.next_book) db.books
  pub fresh_lent : All (λ b. b.book_id < db.next_book) db.borrowings

abbrev pub IsStockedAfter : {A : Type 0} → Response A × Database → Type 0
IsStockedAfter r = IsStocked r.1

-- The borrowings change, and no book gets an active one more.
pub fewer-IsStocked :
    (db after : Database)
    → after.books ≡ db.books
    → after.next_book ≡ db.next_book
    → ((id : ℕ) → active_count id after ≤ active_count id db)
    → All (λ b. b.book_id < db.next_book) after.borrowings
    → IsStocked db
    → IsStocked after
fewer-IsStocked db after same next fewer lent h = record {
  covered = λ id book found.
      let before = h.covered id book (ap (λ bs. find (λ b. b.id == id) bs) (sym same) ∙ found) in
      omega (arith, before, fewer id);
  fresh = rw (same, next) h.fresh;
  fresh_lent = rw next lent;
}

pub new_active :
    (now : ℕ) (user : User) (book : Book) (db : Database) (id : ℕ)
    → count (active_on id) (new_borrowing now user book db ∷ []) ≡ (if book.id == id then 1 else 0)
unfolding new_borrowing
new_active now user book db id = ground arith

pub passes_left :
    (db : Database) (user : User) (book : Book)
    → borrow_errors db user book ≡ []
    → active_count book.id db < book.total_copies
unfolding borrow_errors available_copies
passes_left db user book h = ground (arith, h)

find-below :
    (n id : ℕ) (bs : List Book) (book : Book)
    → All (λ b. b.id < n) bs
    → find (λ b. b.id == id) bs ≡ some book
    → book.id < n
find-below n id [] book h found = cc
find-below n id (b ∷ bs) book h found = elim (Bool-cases (b.id == id)) [
  | inl here ↦ ground (arith, here, found, h.0)
  | inr on ↦ find-below n id bs book h.1 (ground (arith, on, found))
]

new_below :
    (now : ℕ) (user : User) (book : Book) (db : Database)
    → book.id < db.next_book
    → (new_borrowing now user book db).book_id < db.next_book
unfolding new_borrowing
new_below now user book db h = h

create_or_raise-IsStocked :
    (now : ℕ) (user : User) (book : Book) (db : Database)
    → find_book book.id db ≡ some book
    → IsStocked db
    → (errors : List String) → borrow_errors db user book ≡ errors
    → IsStocked (create_or_raise errors now user book db).1
unfolding create_or_raise insert
create_or_raise-IsStocked now user book db here h (m ∷ ms) e = h
create_or_raise-IsStocked now user book db here h [] e = record {
  covered = λ id other found.
      let both = count-append (active_on id) db.borrowings (new_borrowing now user book db ∷ []) in
      let before = h.covered id other found in
      let left = passes_left db user book e in
      elim (Bool-cases (book.id == id)) [
        | inl same ↦
            let is : book.id ≡ id = same_id book.id id same in
            let mine : some book ≡ some other = sym here ∙ (ap (λ k. find_book k db) is ∙ found) in
            ground (arith, both, new_active now user book db id, same, mine, is, left)
        | inr apart ↦ ground (arith, both, new_active now user book db id, apart, before)
      ];
  fresh = h.fresh;
  fresh_lent =
      All-append (λ b. b.book_id < db.next_book) db.borrowings (new_borrowing now user book db ∷ [])
        h.fresh_lent
        (
          new_below now user book db (find-below db.next_book book.id db.books book h.fresh here),
          tt,
        );
}

pub create_borrowing-IsStocked :
    (now : ℕ) (user : User) (id : ℕ) (db : Database)
    → IsStocked db
    → IsStocked (create_borrowing now user id db).1
unfolding create_borrowing
create_borrowing-IsStocked now user id db h = elim (Option-cases (find_book id db)) [
  | inl missing ↦ rw (missing, create_borrowing) h
  | inr (book, found) ↦
      let same = same_id book.id id (find-some (λ b. b.id == id) db.books book found).1 in
      rw (create_found now user id db book found) (
        create_or_raise-IsStocked now user book db (ap (λ k. find_book k db) same ∙ found) h
          (borrow_errors db user book) refl)
]

-- Borrowings are changed or removed, and none becomes active.
pub map-IsStocked :
    (f : Borrowing → Borrowing) (db : Database)
    → ((id : ℕ) (b : Borrowing) → active_on id (f b) ≡ true → active_on id b ≡ true)
    → ((b : Borrowing) → (f b).book_id ≡ b.book_id)
    → IsStocked db
    → IsStocked (record db { borrowings = map f db.borrowings })
map-IsStocked f db less same h =
    fewer-IsStocked db _ refl refl (λ id. count-map_le (active_on id) f (less id) db.borrowings)
      (All-map (λ b. b.book_id < db.next_book) (λ b. b.book_id < db.next_book) f
        (λ b k. rw (same b) k) db.borrowings h.fresh_lent)
      h

pub keep-IsStocked :
    (q : Borrowing → Bool) (db : Database)
    → IsStocked db
    → IsStocked (record db { borrowings = keep q db.borrowings })
keep-IsStocked q db h =
    fewer-IsStocked db _ refl refl (λ id. count-keep_le (active_on id) q db.borrowings)
      (All-keep (λ b. b.book_id < db.next_book) (λ b. b.book_id < db.next_book) q (λ b pass k. k)
        db.borrowings h.fresh_lent)
      h

pub give_back_active :
    (blank : String → Bool) (now row id : ℕ) (comment : Option String) (b : Borrowing)
    → active_on id (if b.id == row then give_back blank now comment b else b) ≡ true
    → active_on id b ≡ true
unfolding give_back
give_back_active blank now row id comment b h = ground (arith, h)

pub mark_active :
    (today id : ℕ) (b : Borrowing) → active_on id (mark today b) ≡ true → active_on id b ≡ true
mark_active today id b h = ground (arith, h)

unlent : (n : ℕ) (bs : List Borrowing) → All (λ b. b.book_id < n) bs → count (active_on n) bs ≡ 0
unlent n [] h = refl
unlent n (b ∷ bs) h = ground (arith, h.0, unlent n bs h.1)

find-grown :
    (n : ℕ) (id : ℕ) (bs : List Book) (b book : Book)
    → b.id ≡ n
    → find (λ o. o.id == id) (bs ++ b ∷ []) ≡ some book
    → (find (λ o. o.id == id) bs ≡ some book) ⊎ (id ≡ n)
find-grown n id [] b book e found = elim (Bool-cases (b.id == id)) [
  | inl here ↦ inr (ground (arith, here, e))
  | inr apart ↦ inl (ground (arith, apart, found))
]
find-grown n id (o ∷ bs) b book e found = elim (Bool-cases (o.id == id)) [
  | inl here ↦ inl (ground (arith, here, found))
  | inr apart ↦ elim (find-grown n id bs b book e (ground (arith, apart, found))) [
    | inl old ↦ inl (ground (arith, apart, old))
    | inr new ↦ inr new
  ]
]

pub save_book-IsStocked :
    (p : BookParams) (db : Database)
    → IsStocked db
    → (errors : List (String × Messages)) → IsStocked (save_book errors p db).1
unfolding save_book new_book
save_book-IsStocked p db h (e ∷ es) = h
save_book-IsStocked p db h [] =
    if_both (IsStockedAfter {A = Book}) _ _ _
      (record {
        covered = λ id book found.
            elim (find-grown db.next_book id db.books (new_book p db) book refl found) [
              | inl old ↦ h.covered id book old
              | inr new ↦
                  let nobody = unlent db.next_book db.borrowings h.fresh_lent in
                  ground (arith, new, ap (λ k. active_count k db) new ∙ nobody)
            ];
        fresh =
            All-append (λ b. b.id < db.next_book + 1) db.books (new_book p db ∷ [])
              (All-imp (λ b. b.id < db.next_book) (λ b. b.id < db.next_book + 1)
                (λ b k. omega (arith, k)) db.books h.fresh)
              (omega arith, tt);
        fresh_lent =
            All-imp (λ b. b.book_id < db.next_book) (λ b. b.book_id < db.next_book + 1)
              (λ b k. omega (arith, k)) db.borrowings h.fresh_lent;
      })
      h
