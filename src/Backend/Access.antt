-- ===== src/Backend/Access.antt =====
-- What the role of the user who sends a request allows.
use ror_books_test.Prelude.{
  ℕ, ◌≡◌, refl, ◌⊎◌, inl, inr, String, Option, Option-cases, Bool, false, List, [], ◌∷◌, ◌++◌,
}
use ror_books_test.Api.{User}
use ror_books_test.Backend.Tables.{
  Book, Borrowing, Database, Response, is_librarian, find_book, find_borrowing,
}
use ror_books_test.Backend.Lending.{
  create_borrowing, create_or_raise, borrow_errors, new_borrowing, insert, return_book,
  mark_overdue,
}
use ror_books_test.Backend.Catalogue.{create_book, update_book, destroy_book}
use ror_books_test.Backend.Membership.{
  Devise, MemberParams, create_member, update_member, destroy_member, update_account, assign_user,
  replace_user,
}
use ror_books_test.Backend.Requests.{
  Request, post_borrowing, post_return, post_mark_overdue, post_book, put_book, delete_book,
  post_member, put_member, delete_member, put_account, Rails, act,
}
use ror_books_test.Backend.Upkeep.{unless_both}

-- A new borrowing of the user's own, or none.
abbrev pub IsLent : User → Database → Database → Type 0
IsLent user db after =
    (after.borrowings ≡ db.borrowings)
    ⊎ ((row : Borrowing) × (after.borrowings ≡ db.borrowings ++ row ∷ []) × (row.user_id ≡ user.id))

-- Another row for the user's own, with the same role, or none.
abbrev pub IsEdited : User → Database → Database → Type 0
IsEdited user db after =
    (after.users ≡ db.users)
    ⊎ ((row : User) × (after.users ≡ (replace_user row db).users)
        × (row.id ≡ user.id)
        × (row.role ≡ user.role))

-- What a user without the librarian's role can change.
pub record IsOwnChange (user : User) (db after : Database) : Type 0 where
  pub books_stay : after.books ≡ db.books
  pub users_stay : IsEdited user db after
  pub lent : IsLent user db after

abbrev nothing : (user : User) (db : Database) → IsOwnChange user db db
nothing user db = record { books_stay = refl; users_stay = inl refl; lent = inl refl }

create_or_raise-IsOwnChange :
    (now : ℕ) (user : User) (book : Book) (db : Database) (errors : List String)
    → IsOwnChange user db (create_or_raise errors now user book db).1
unfolding create_or_raise insert new_borrowing
create_or_raise-IsOwnChange now user book db (m ∷ ms) = nothing user db
create_or_raise-IsOwnChange now user book db [] = record {
  books_stay = refl;
  users_stay = inl refl;
  lent = inr (new_borrowing now user book db, refl, refl);
}

create_borrowing-IsOwnChange :
    (now : ℕ) (user : User) (db : Database) (id : ℕ)
    → IsOwnChange user db (create_borrowing now user id db).1
unfolding create_borrowing
create_borrowing-IsOwnChange now user db id = elim (Option-cases (find_book id db)) [
  | inl missing ↦ rw (missing, create_borrowing) (nothing user db)
  | inr (book, found) ↦
      rw (found, create_borrowing)
        (create_or_raise-IsOwnChange now user book db (borrow_errors db user book))
]

update_account-IsOwnChange :
    (devise : Devise) (user : User) (p : MemberParams) (db : Database)
    → IsOwnChange user db (update_account devise user p db).1
unfolding update_account assign_user
update_account-IsOwnChange devise user p db =
    unless_both (λ (r : Response User × Database). IsOwnChange user db r.1) _ _ _ (nothing user db)
      record {
        books_stay = refl;
        users_stay = inr (assign_user p user, refl, refl, refl);
        lent = inl refl;
      }

return_book-IsOwnChange :
    (blank : String → Bool) (now : ℕ) (user : User) (id : ℕ) (comment : Option String)
    (db : Database)
    → is_librarian user ≡ false
    → IsOwnChange user db (return_book blank now user id comment db).1
unfolding return_book
return_book-IsOwnChange blank now user id comment db plain =
    elim (Option-cases (find_borrowing id db)) [
      | inl missing ↦ rw (missing, return_book) (nothing user db)
      | inr (row, found) ↦ rw (found, return_book, plain) (nothing user db)
    ]

-- A user who is no librarian changes no book, no user but its own row, which keeps its role, and no
-- borrowing; it can only add borrowings of its own.
pub act-IsOwnChange :
    (rails : Rails) (now : ℕ) (user : User) (request : Request) (db : Database)
    → is_librarian user ≡ false
    → IsOwnChange user db (act rails now user request db).1
unfolding act mark_overdue create_book update_book destroy_book create_member update_member
    destroy_member
act-IsOwnChange rails now user (post_borrowing book_id) db plain =
    create_borrowing-IsOwnChange now user db book_id
act-IsOwnChange rails now user (post_return id comment) db plain =
    return_book-IsOwnChange rails.blank now user id comment db plain
act-IsOwnChange rails now user post_mark_overdue db plain = rw plain (nothing user db)
act-IsOwnChange rails now user (post_book p) db plain = rw plain (nothing user db)
act-IsOwnChange rails now user (put_book id p) db plain = rw plain (nothing user db)
act-IsOwnChange rails now user (delete_book id) db plain = rw plain (nothing user db)
act-IsOwnChange rails now user (post_member p) db plain = rw plain (nothing user db)
act-IsOwnChange rails now user (put_member id p) db plain = rw plain (nothing user db)
act-IsOwnChange rails now user (delete_member id) db plain = rw plain (nothing user db)
act-IsOwnChange rails now user (put_account p) db plain =
    update_account-IsOwnChange rails.devise user p db
