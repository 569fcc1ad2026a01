-- ===== src/Backend/Race.antt =====
-- Two requests of one member for one book, one after the other and at once.
use ror_books_test.Prelude.{
  ℕ, ◌≡◌, refl, String, Bool, true, false, List, [], ◌∷◌, ◌++◌, any, any-append, count,
  count-append, count-none, arith,
}
use ror_books_test.Api.{User}
use ror_books_test.Dates.{is_at_most}
use ror_books_test.Backend.Tables.{Book, Database, rendered, record_invalid}
use ror_books_test.Backend.Lending.{
  borrow_errors, available_copies, create_or_raise, new_borrowing, insert, active_for, message_if,
  already_held, none_left,
}
use ror_books_test.Backend.Eligible.{no_errors_free}

two_added :
    {A : Type 0} (p : A → Bool) (xs : List A) (y z : A)
    → any p xs ≡ false
    → p y ≡ true
    → p z ≡ true
    → count p ((xs ++ y ∷ []) ++ z ∷ []) ≡ 2
two_added p xs y z nobody hy hz =
    rw
      (
        count-append p (xs ++ y ∷ []) (z ∷ []),
        count-append p xs (y ∷ []),
        count-none p xs nobody,
        hy,
        hz,
      )
      refl

new_is_active :
    (now : ℕ) (user : User) (book : Book) (db : Database)
    → active_for user.id book.id (new_borrowing now user book db) ≡ true
unfolding new_borrowing
new_is_active now user book db = ground arith

-- If both requests are validated before either is inserted, then both are accepted, and the member
-- has two active borrowings of the book.
pub both_accepted :
    (first second : ℕ) (db : Database) (user : User) (book : Book)
    → borrow_errors db user book ≡ []
    → let one = create_or_raise (borrow_errors db user book) first user book db in
      let two = create_or_raise (borrow_errors db user book) second user book one.1 in
      (one.0 ≡ rendered (new_borrowing first user book db))
      × (two.0 ≡ rendered (new_borrowing second user book one.1))
      × (count (active_for user.id book.id) two.1.borrowings ≡ 2)
unfolding create_or_raise insert
both_accepted first second db user book passes = rw passes (
  refl,
  refl,
  two_added (active_for user.id book.id) db.borrowings (new_borrowing first user book db)
      (new_borrowing second user book (insert (new_borrowing first user book db) db))
      (no_errors_free db user book passes) (new_is_active first user book db)
      (new_is_active second user book (insert (new_borrowing first user book db) db)),
)

held_message :
    (db : Database) (user : User) (book : Book)
    → any (active_for user.id book.id) db.borrowings ≡ true
    → (rest : List String) × (borrow_errors db user book ≡ already_held ∷ rest)
unfolding borrow_errors
held_message db user book held =
    (message_if (is_at_most (available_copies db book) 0) none_left, rw held refl)

-- One after the other, the second request is refused: nothing is stored, and the first of the
-- messages says that the member has the book already.
pub second_refused :
    (first second : ℕ) (db : Database) (user : User) (book : Book)
    → borrow_errors db user book ≡ []
    → let after = (create_or_raise (borrow_errors db user book) first user book db).1 in
      let two = create_or_raise (borrow_errors after user book) second user book after in
      (two.1 ≡ after) × ((rest : List String) × (two.0 ≡ record_invalid (already_held ∷ rest)))
unfolding create_or_raise insert
second_refused first second db user book passes =
    let after = insert (new_borrowing first user book db) db in
    let (rest, e) = held_message after user book (
      any-append (active_for user.id book.id) db.borrowings (new_borrowing first user book db)
        (new_is_active first user book db)) in
    rw passes (rw e (refl, (rest, refl)))
