-- ===== src/Backend/Overlap/Bound.antt =====
-- How far overlapping requests can go beyond the copies of a book.
use ror_books_test.Prelude.{
  ℕ, ◌+◌, ◌/◌, ◌≤◌, ◌<◌, ◌≡◌, refl, sym, ◌∙◌, ap, ◌==◌, String, Option, some, Option-cases, Bool,
  true, ◌&&◌, Bool-cases, List, [], ◌∷◌, ◌++◌, map, count, count-append, count-map_le, count-none,
  find, find-some, length, arith, inl, inr, if◌then◌else◌,
}
use ror_books_test.Api.{User}
use ror_books_test.Dates.{day_ms}
use ror_books_test.Backend.Tables.{
  Book, Borrowing, Database, Response, find_book, find_borrowing, is_librarian,
}
use ror_books_test.Backend.Lending.{
  active_on, active_for, active_count, borrow_errors, new_borrowing, insert, give_back, return_book,
  mark, mark_overdue_books,
}
use ror_books_test.Backend.Eligible.{no_errors_free}
use ror_books_test.Backend.Integrity.{same_id}
use ror_books_test.Backend.Late.{mark_overdue_books_lem}
use ror_books_test.Backend.Upkeep.{if_both, give_back_inactive, mark_inactive}
use ror_books_test.Backend.Stock.{passes_left, give_back_active, mark_active, new_active}
use ror_books_test.Backend.Overlap.{
  Passed, System, Step, validate, store, give, check, Reach, rest, later,
}

abbrev for_book : ℕ → Passed → Bool
for_book id r = r.book.id == id

abbrev for_user : ℕ → ℕ → Passed → Bool
for_user user_id id r = r.user.id == user_id && r.book.id == id

-- Rows and waiting requests together.
record Inv (n : ℕ) (s : System) : Type 0 where
  copies :
      (id : ℕ) (book : Book)
      → find_book id s.db ≡ some book
      → active_count id s.db + count (for_book id) s.waiting < book.total_copies + n
  holders :
      (user_id id : ℕ)
      → count (active_for user_id id) s.db.borrowings + count (for_user user_id id) s.waiting ≤ n

count-split :
    {A : Type 0} (p : A → Bool) (xs : List A) (x : A) (ys : List A)
    → count p (xs ++ x ∷ ys) ≡ count p (xs ++ ys) + count p (x ∷ [])
count-split p [] x ys = ground arith
count-split p (z ∷ xs) x ys = ground (arith, count-split p xs x ys)

count_le : {A : Type 0} (p : A → Bool) (xs : List A) → count p xs ≤ length xs
count_le p [] = omega arith
count_le p (x ∷ xs) = ground (arith, count_le p xs)

new_held :
    (now : ℕ) (user : User) (book : Book) (db : Database) (user_id id : ℕ)
    → count (active_for user_id id) (new_borrowing now user book db ∷ [])
      ≡ count (for_user user_id id) (record { user = user; book = book } ∷ [])
unfolding new_borrowing
new_held now user book db user_id id = ground arith

found_id :
    (id : ℕ) (bs : List Book) (book : Book) → find (λ b. b.id == id) bs ≡ some book → book.id ≡ id
found_id id bs book found = ground (arith, (find-some (λ b. b.id == id) bs book found).1)

-- A change of the borrowings alone, after which nobody has an active one more.
record IsFewer (db after : Database) : Type 0 where
  same : after.books ≡ db.books
  copies : (id : ℕ) → active_count id after ≤ active_count id db
  held :
      (user_id id : ℕ)
      → count (active_for user_id id) after.borrowings ≤ count (active_for user_id id) db.borrowings

nothing : (db : Database) → IsFewer db db
nothing db = record { same = refl; copies = λ id. omega arith; held = λ user_id id. omega arith }

map-IsFewer :
    (f : Borrowing → Borrowing) (db : Database)
    → ((id : ℕ) (b : Borrowing) → active_on id (f b) ≡ true → active_on id b ≡ true)
    → ((u id : ℕ) (b : Borrowing) → active_for u id (f b) ≡ true → active_for u id b ≡ true)
    → IsFewer db (record db { borrowings = map f db.borrowings })
map-IsFewer f db less less_held = record {
  same = refl;
  copies = λ id. count-map_le (active_on id) f (less id) db.borrowings;
  held = λ u id. count-map_le (active_for u id) f (less_held u id) db.borrowings;
}

return_book-IsFewer :
    (blank : String → Bool) (now : ℕ) (user : User) (id : ℕ) (comment : Option String)
    (db : Database)
    → IsFewer db (return_book blank now user id comment db).1
unfolding return_book
return_book-IsFewer blank now user id comment db = elim (Option-cases (find_borrowing id db)) [
  | inl missing ↦ rw (missing, return_book) (nothing db)
  | inr (row, found) ↦
      rw (found, return_book)
        (if_both (λ (r : Response Borrowing × Database). IsFewer db r.1) (is_librarian user) _ _
          (map-IsFewer (λ b. if b.id == id then give_back blank now comment b else b) db
            (λ k b. give_back_active blank now id k comment b)
            (λ u k b. give_back_inactive blank now id comment u k b))
          (nothing db))
]

mark_overdue_books-IsFewer : (now : ℕ) (db : Database) → IsFewer db (mark_overdue_books now db).1
mark_overdue_books-IsFewer now db =
    let today = now / day_ms in
    rw (mark_overdue_books_lem now db).1
      (map-IsFewer (mark today) db (mark_active today) (mark_inactive today))

fewer-Inv :
    (n : ℕ) (s : System) (after : Database)
    → IsFewer s.db after
    → Inv n s
    → Inv n (record s { db = after })
fewer-Inv n s after fewer inv = record {
  copies = λ id book found.
      let before =
        inv.copies id book (ap (λ bs. find (λ b. b.id == id) bs) (sym fewer.same) ∙ found) in
      omega (arith, before, fewer.copies id);
  holders = λ u id. omega (arith, inv.holders u id, fewer.held u id);
}

validate-Inv :
    (n : ℕ) (s : System) (user : User) (id : ℕ) (book : Book)
    → length s.waiting < n
    → find_book id s.db ≡ some book
    → borrow_errors s.db user book ≡ []
    → Inv n s
    → Inv n (record s { waiting = record { user = user; book = book } ∷ s.waiting })
validate-Inv n s user id book room found passes inv = record {
  copies = λ k other there.
      let left = passes_left s.db user book passes in
      let few = count_le (for_book k) s.waiting in
      let old = inv.copies k other there in
      elim (Bool-cases (book.id == k)) [
        | inl same ↦
            let is : id ≡ k = sym (found_id id s.db.books book found) ∙ same_id book.id k same in
            let mine : some book ≡ some other =
              sym found ∙ (ap (λ j. find_book j s.db) is ∙ there) in
            let counted = ap (λ j. active_count j s.db) (same_id book.id k same) in
            ground (arith, same, left, few, room, counted, mine)
        | inr apart ↦ ground (arith, apart, old)
      ];
  holders = λ u k.
      let free =
        count-none (active_for user.id book.id) s.db.borrowings
          (no_errors_free s.db user book passes) in
      let few = count_le (for_user u k) s.waiting in
      let old = inv.holders u k in
      elim (Bool-cases (user.id == u && book.id == k)) [
        | inl mine ↦
            let same_user : user.id ≡ u = ground (arith, mine) in
            let same_book : book.id ≡ k = ground (arith, mine) in
            let none_held = rw (same_user, same_book) at free in
            ground (arith, mine, few, room, none_held)
        | inr other ↦ ground (arith, other, old)
      ];
}

Step-Inv : {n : ℕ} {s t : System} → Step n s t → Inv n s → Inv n t
unfolding insert
Step-Inv {n} (validate {s} user id book room found passes) inv =
    validate-Inv n s user id book room found passes inv
Step-Inv {n} (store {db} before r after now) inv = record {
  copies = λ id book found.
      let rows =
        count-append (active_on id) db.borrowings (new_borrowing now r.user r.book db ∷ []) in
      let queue = count-split (for_book id) before r after in
      let new = new_active now r.user r.book db id in
      let old = inv.copies id book found in ground (arith, rows, queue, new, old);
  holders = λ u id.
      let rows =
        count-append (active_for u id) db.borrowings (new_borrowing now r.user r.book db ∷ []) in
      let queue = count-split (for_user u id) before r after in
      let new = new_held now r.user r.book db u id in
      let old = inv.holders u id in omega (arith, rows, queue, new, old);
}
Step-Inv {n} (give {s} blank now user id comment) inv =
    fewer-Inv n s _ (return_book-IsFewer blank now user id comment s.db) inv
Step-Inv {n} (check {s} now) inv = fewer-Inv n s _ (mark_overdue_books-IsFewer now s.db) inv

Reach-Inv :
    {n : ℕ} {db : Database} {s : System}
    → Inv n (record { db = db; waiting = [] })
    → Reach n db s
    → Inv n s
Reach-Inv start rest = start
Reach-Inv start (later r step) = Step-Inv step (Reach-Inv start r)

-- If at rest no book has more active borrowings than copies and nobody two of one book, then
-- however at most `n` requests to borrow overlap, between returns and overdue checks, a book has at
-- most `n` - 1 more active borrowings than copies, and nobody more than `n` of one book.
pub overlap_bound :
    (n : ℕ) (db : Database) (s : System)
    → 0 < n
    → ((id : ℕ) (book : Book)
        → find_book id db ≡ some book
        → active_count id db ≤ book.total_copies)
    → ((user_id id : ℕ) → count (active_for user_id id) db.borrowings ≤ 1)
    → Reach n db s
    → ((id : ℕ) (book : Book)
        → find_book id s.db ≡ some book
        → active_count id s.db + 1 ≤ book.total_copies + n)
      × ((user_id id : ℕ) → count (active_for user_id id) s.db.borrowings ≤ n)
overlap_bound n db s pos covered single r =
    let start : Inv n (record { db = db; waiting = [] }) = record {
      copies = λ id book found. omega (arith, covered id book found, pos);
      holders = λ u id. omega (arith, single u id, pos);
    } in
    let inv = Reach-Inv start r in
    (
      λ id book found. omega (arith, inv.copies id book found),
      λ u id. omega (arith, inv.holders u id),
    )
