-- ===== src/Backend/Eligible.antt =====
-- The column `can_borrow` against the validations of a new borrowing.
use ror_books_test.Prelude.{
  ℕ, ◌<◌, ◌≡◌, ◌↔◌, some, true, false, Bool-cases, List, [], ◌∷◌, String, any, arith,
}
use ror_books_test.Api.{User}
use ror_books_test.Backend.Tables.{
  Book, Database, is_member, is_librarian, find_book, is_rendered, record_invalid,
}
use ror_books_test.Backend.Lending.{
  create_borrowing, create_or_raise, can_borrow, borrow_errors, available_copies, active_count,
  active_for,
}

can_borrow-borrow_errors :
    (db : Database) (user : User) (book : Book)
    → is_member user ≡ true
    → (can_borrow (some user) db book ≡ true) ↔ (borrow_errors db user book ≡ [])
unfolding can_borrow borrow_errors available_copies
can_borrow-borrow_errors db user book member =
    let held = Bool-cases (any (active_for user.id book.id) db.borrowings) in
    ground (arith, member, held)

pub no_errors_free :
    (db : Database) (user : User) (book : Book)
    → borrow_errors db user book ≡ []
    → any (active_for user.id book.id) db.borrowings ≡ false
unfolding borrow_errors available_copies
no_errors_free db user book h = ground (arith, h)

created_iff :
    (errors : List String) (now : ℕ) (user : User) (book : Book) (db : Database)
    → (errors ≡ []) ↔ (is_rendered (create_or_raise errors now user book db).0 ≡ true)
unfolding create_or_raise record_invalid
created_iff [] now user book db = ground arith
created_iff (m ∷ ms) now user book db = ground arith

pub create_found :
    (now : ℕ) (user : User) (id : ℕ) (db : Database) (book : Book)
    → find_book id db ≡ some book
    → create_borrowing now user id db
      ≡ create_or_raise (borrow_errors db user book) now user book db
unfolding create_borrowing
create_found now user id db book found = rw (found, create_borrowing)

-- For a member, the column `can_borrow` of a book that is there is true exactly if a request to
-- borrow it is accepted.
pub can_borrow-create :
    (now : ℕ) (user : User) (id : ℕ) (db : Database) (book : Book)
    → is_member user ≡ true
    → find_book id db ≡ some book
    → (can_borrow (some user) db book ≡ true)
      ↔ (is_rendered (create_borrowing now user id db).0 ≡ true)
can_borrow-create now user id db book member found =
    let passes = can_borrow-borrow_errors db user book member in
    let created = created_iff (borrow_errors db user book) now user book db in
    rw (create_found now user id db book found)
      (λ h. created.0 (passes.0 h), λ h. passes.1 (created.1 h))

librarian_passes :
    (db : Database) (user : User) (book : Book)
    → is_librarian user ≡ true
    → any (active_for user.id book.id) db.borrowings ≡ false
    → active_count book.id db < book.total_copies
    → (can_borrow (some user) db book ≡ false) × (borrow_errors db user book ≡ [])
unfolding can_borrow borrow_errors available_copies
librarian_passes db user book librarian free left = ground (arith, librarian, free, left)

-- To a librarian no book is shown as one that can be borrowed; but the action does not ask for the
-- role, so that a request is accepted for any book with a copy left that the librarian does not hold.
pub librarian_borrows :
    (now : ℕ) (user : User) (id : ℕ) (db : Database) (book : Book)
    → is_librarian user ≡ true
    → find_book id db ≡ some book
    → any (active_for user.id book.id) db.borrowings ≡ false
    → active_count book.id db < book.total_copies
    → (can_borrow (some user) db book ≡ false)
      × (is_rendered (create_borrowing now user id db).0 ≡ true)
librarian_borrows now user id db book librarian found free left =
    let (hidden, passes) = librarian_passes db user book librarian free left in
    (
      hidden,
      rw (create_found now user id db book found)
          ((created_iff (borrow_errors db user book) now user book db).0 passes),
    )
