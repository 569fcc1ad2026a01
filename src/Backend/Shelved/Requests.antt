-- ===== src/Backend/Shelved/Requests.antt =====
-- Every request against the table of books.
use ror_books_test.Prelude.{
  ℕ, refl, ◌==◌, String, Option, none, some, List, [], ◌∷◌, find, Option-cases, inl, inr,
}
use ror_books_test.Api.{User}
use ror_books_test.Backend.Tables.{
  Book, Borrowing, Database, is_librarian, find_book, find_borrowing, find_member,
}
use ror_books_test.Backend.Lending.{
  insert, create_or_raise, create_borrowing, return_book, Marking, mark_overdue, mark_overdue_books,
}
use ror_books_test.Backend.Catalogue.{new_book_errors, create_book, update_book, destroy_book}
use ror_books_test.Backend.Membership.{
  MemberParams, create_member, update_member, update_found_member, destroy_member,
  destroy_found_member, update_account,
}
use ror_books_test.Backend.Eligible.{create_found}
use ror_books_test.Backend.Late.{mark_overdue_books_lem}
use ror_books_test.Backend.Upkeep.{if_both, unless_both}
use ror_books_test.Backend.Requests.{
  Request, post_borrowing, post_return, post_mark_overdue, post_book, put_book, delete_book,
  post_member, put_member, delete_member, put_account, Rails, act, handle,
}
use ror_books_test.Backend.Reachable.{Call, serve}
use ror_books_test.Backend.Shelved.{IsShelved, IsShelvedAfter}
use ror_books_test.Backend.Shelved.Writes.{saved-IsShelved, updated-IsShelved, destroyed-IsShelved}

module _ (rails : Rails) (now : ℕ) where
  created-IsShelved :
      (user : User) (book : Book) (db : Database) (errors : List String)
      → IsShelved db.books db.next_book
      → IsShelvedAfter (create_or_raise errors now user book db)
  unfolding create_or_raise insert
  created-IsShelved user book db [] h = h
  created-IsShelved user book db (e ∷ es) h = h

  create_borrowing-IsShelved :
      (user : User) (id : ℕ) (db : Database)
      → IsShelved db.books db.next_book
      → IsShelvedAfter (create_borrowing now user id db)
  unfolding create_borrowing
  create_borrowing-IsShelved user id db h = elim (Option-cases (find_book id db)) [
    | inl missing ↦ rw (missing, create_borrowing) h
    | inr (book, found) ↦
        rw (create_found now user id db book found) (created-IsShelved user book db _ h)
  ]

  return_book-IsShelved :
      (user : User) (id : ℕ) (comment : Option String) (db : Database)
      → IsShelved db.books db.next_book
      → IsShelvedAfter (return_book rails.blank now user id comment db)
  unfolding return_book
  return_book-IsShelved user id comment db h = elim (Option-cases (find_borrowing id db)) [
    | inl missing ↦ rw (missing, return_book) h
    | inr (row, found) ↦
        rw (found, return_book)
          (if_both (IsShelvedAfter {A = Borrowing}) (is_librarian user) _ _ h h)
  ]

  marked-IsShelved :
      (db : Database)
      → IsShelved db.books db.next_book
      → let after = (mark_overdue_books now db).1 in IsShelved after.books after.next_book
  marked-IsShelved db h = rw (mark_overdue_books_lem now db).1 h

  member-IsShelved :
      (p : MemberParams) (db : Database) (found : Option User)
      → IsShelved db.books db.next_book
      → IsShelvedAfter (update_found_member rails.devise p found db)
  member-IsShelved p db none h = h
  member-IsShelved p db (some u) h = unless_both (IsShelvedAfter {A = User}) _ _ _ h h

  without_member-IsShelved :
      (db : Database) (found : Option User)
      → IsShelved db.books db.next_book
      → IsShelvedAfter (destroy_found_member found db)
  without_member-IsShelved db none h = h
  without_member-IsShelved db (some u) h = h

  act-IsShelved :
      (user : User) (request : Request) (db : Database)
      → IsShelved db.books db.next_book
      → let after = (act rails now user request db).1 in IsShelved after.books after.next_book
  unfolding act mark_overdue create_book update_book destroy_book create_member update_member
      destroy_member update_account
  act-IsShelved user (post_borrowing book_id) db h = create_borrowing-IsShelved user book_id db h
  act-IsShelved user (post_return id comment) db h = return_book-IsShelved user id comment db h
  act-IsShelved user post_mark_overdue db h =
      if_both (IsShelvedAfter {A = Marking}) (is_librarian user) _ _ (marked-IsShelved db h) h
  act-IsShelved user (post_book p) db h =
      if_both (IsShelvedAfter {A = Book}) (is_librarian user) _ _
        (saved-IsShelved rails.blank p db (new_book_errors rails.blank p db) refl h) h
  act-IsShelved user (put_book id p) db h =
      if_both (IsShelvedAfter {A = Book}) (is_librarian user) _ _
        (updated-IsShelved rails.blank id p db (find_book id db) refl h) h
  act-IsShelved user (delete_book id) db h =
      if_both (IsShelvedAfter {A = Unit {0}}) (is_librarian user) _ _
        (destroyed-IsShelved db (find_book id db) h) h
  act-IsShelved user (post_member p) db h =
      if_both (IsShelvedAfter {A = User}) (is_librarian user) _ _
        (unless_both (IsShelvedAfter {A = User}) _ _ _ h h) h
  act-IsShelved user (put_member id p) db h =
      if_both (IsShelvedAfter {A = User}) (is_librarian user) _ _
        (member-IsShelved p db (find_member id db) h) h
  act-IsShelved user (delete_member id) db h =
      if_both (IsShelvedAfter {A = Unit {0}}) (is_librarian user) _ _
        (without_member-IsShelved db (find_member id db) h) h
  act-IsShelved user (put_account p) db h = unless_both (IsShelvedAfter {A = User}) _ _ _ h h

module _ (rails : Rails) where
  handle-IsShelved :
      (now : ℕ) (session : Option ℕ) (request : Request) (db : Database)
      → IsShelved db.books db.next_book
      → let after = (handle rails now session request db).1 in IsShelved after.books after.next_book
  unfolding handle
  handle-IsShelved now none request db h = h
  handle-IsShelved now (some id) request db h =
      elim (Option-cases (find (λ u. u.id == id) db.users)) [
        | inl missing ↦ rw (missing, handle) h
        | inr (user, found) ↦ rw (found, handle) (act-IsShelved rails now user request db h)
      ]

  -- If every book is found by its id, the next id is above those in use and no two books have one
  -- ISBN, then so it is after any requests of any users.
  pub serve-IsShelved :
      (cs : List Call) (db : Database)
      → IsShelved db.books db.next_book
      → IsShelved (serve rails cs db).books (serve rails cs db).next_book
  unfolding serve
  serve-IsShelved [] db h = h
  serve-IsShelved (c ∷ cs) db h =
      serve-IsShelved cs (handle rails c.now c.session c.request db).1
        (handle-IsShelved c.now c.session c.request db h)
