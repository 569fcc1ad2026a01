-- ===== src/Backend/Integrity.antt =====
-- What every request keeps true of the tables.
use ror_books_test.Prelude.{
  ℕ, ◌≤◌, ◌≡◌, refl, ◌==◌, String, Option-cases, Bool, true, false, Bool-cases, List, [], ◌∷◌, ◌++◌,
  map, any, count, All, All-append, count-append, count-none, find-some, count-map_le, All-map,
  arith, inl, inr,
}
use ror_books_test.Api.{User}
use ror_books_test.Backend.Tables.{Book, Borrowing, Database, find_book}
use ror_books_test.Backend.Eligible.{create_found, no_errors_free}
use ror_books_test.Backend.Lending.{
  active_for, new_borrowing, insert, create_or_raise, borrow_errors, create_borrowing,
}

abbrev pub is_user : List User → ℕ → Bool
is_user users id = any (λ u. u.id == id) users

abbrev pub is_book : List Book → ℕ → Bool
is_book books id = any (λ b. b.id == id) books

-- The member and the book of a borrowing are there.
abbrev pub IsKnown : List User → List Book → Borrowing → Type 0
IsKnown users books b = (is_user users b.user_id ≡ true) × (is_book books b.book_id ≡ true)

-- Nobody has two active borrowings of one book, and no borrowing is left without its member or its
-- book.
pub record IsSound (db : Database) : Type 0 where
  pub single : (user book : ℕ) → count (active_for user book) db.borrowings ≤ 1
  pub known : All (IsKnown db.users db.books) db.borrowings

-- A change of the borrowings that neither adds a row nor makes one active.
pub map-IsSound :
    (f : Borrowing → Borrowing) (db : Database)
    → ((user book : ℕ) (b : Borrowing)
        → active_for user book (f b) ≡ true
        → active_for user book b ≡ true)
    → ((b : Borrowing) → (f b).user_id ≡ b.user_id)
    → ((b : Borrowing) → (f b).book_id ≡ b.book_id)
    → IsSound db
    → IsSound (record db { borrowings = map f db.borrowings })
map-IsSound f db less user_of book_of h = record {
  single = λ user book.
      let fewer = count-map_le (active_for user book) f (less user book) db.borrowings in
      omega (arith, fewer, h.single user book);
  known =
      All-map (IsKnown db.users db.books) (IsKnown db.users db.books) f
        (λ b k. rw (user_of b, book_of b) k) db.borrowings h.known;
}

new_row :
    (user book u k : ℕ) (row : Borrowing) (bs : List Borrowing)
    → row.user_id ≡ user
    → row.book_id ≡ book
    → any (active_for user book) bs ≡ false
    → count (active_for u k) bs ≤ 1
    → count (active_for u k) (bs ++ row ∷ []) ≤ 1
new_row user book u k row bs hu hk free single =
    let both = count-append (active_for u k) bs (row ∷ []) in
    let unheld = count-none (active_for user book) bs free in
    elim (Bool-cases (active_for u k row)) [
      | inl mine ↦
          let same_user : user ≡ u = ground (arith, mine, hu) in
          let same_book : book ≡ k = ground (arith, mine, hk) in
          ground (arith, both, mine, rw (same_user, same_book) at unheld)
      | inr other ↦ ground (arith, both, other, single)
    ]

new_ids :
    (now : ℕ) (user : User) (book : Book) (db : Database)
    → ((new_borrowing now user book db).user_id ≡ user.id)
      × ((new_borrowing now user book db).book_id ≡ book.id)
unfolding new_borrowing
new_ids now user book db = (refl, refl)

create_or_raise-IsSound :
    (now : ℕ) (user : User) (book : Book) (db : Database)
    → is_user db.users user.id ≡ true
    → is_book db.books book.id ≡ true
    → IsSound db
    → (errors : List String) → borrow_errors db user book ≡ errors
    → IsSound (create_or_raise errors now user book db).1
unfolding create_or_raise insert
create_or_raise-IsSound now user book db there shelved h (m ∷ ms) e = h
create_or_raise-IsSound now user book db there shelved h [] e = record {
  single = λ u k.
      new_row user.id book.id u k (new_borrowing now user book db) db.borrowings
        (new_ids now user book db).0 (new_ids now user book db).1 (no_errors_free db user book e)
        (h.single u k);
  known =
      All-append (IsKnown db.users db.books) db.borrowings (new_borrowing now user book db ∷ [])
        h.known
        ((rw (new_ids now user book db).0 there, rw (new_ids now user book db).1 shelved), tt);
}

pub same_id : (a b : ℕ) → (a == b) ≡ true → a ≡ b
same_id a b h = ground (arith, h)

pub create_borrowing-IsSound :
    (now : ℕ) (user : User) (id : ℕ) (db : Database)
    → is_user db.users user.id ≡ true
    → IsSound db
    → IsSound (create_borrowing now user id db).1
unfolding create_borrowing
create_borrowing-IsSound now user id db there h = elim (Option-cases (find_book id db)) [
  | inl missing ↦ rw (missing, create_borrowing) h
  | inr (book, found) ↦
      let (shelved, same) = find-some (λ b. b.id == id) db.books book found in
      rw (create_found now user id db book found) (
        create_or_raise-IsSound now user book db there (rw (same_id book.id id same) shelved) h
          (borrow_errors db user book) refl)
]
