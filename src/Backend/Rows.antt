-- ===== src/Backend/Rows.antt =====
-- What every request keeps true of each borrowing.
use ror_books_test.Prelude.{
  ℕ, ◌/◌, ◌==◌, String, Option, none, some, Option-cases, not, List, [], ◌∷◌, find, All, All-append,
  All-map, All-keep, inl, inr, if◌then◌else◌,
}
use ror_books_test.Api.{User, Messages}
use ror_books_test.Dates.{day_ms}
use ror_books_test.Backend.Tables.{
  Book, Borrowing, Database, Response, is_librarian, find_book, find_borrowing, find_member,
}
use ror_books_test.Backend.Lending.{
  borrow_errors, new_borrowing, insert, create_or_raise, create_borrowing, give_back, return_book,
  mark, Marking, mark_overdue, mark_overdue_books,
}
use ror_books_test.Backend.Catalogue.{
  BookParams, create_book, update_book, destroy_book, save_book, save_changed, update_found_book,
  destroy_found_book, new_book_errors, assign_book,
}
use ror_books_test.Backend.Membership.{
  MemberParams, create_member, update_member, update_found_member, destroy_member,
  destroy_found_member, update_account,
}
use ror_books_test.Backend.Eligible.{create_found}
use ror_books_test.Backend.Late.{mark_overdue_books_lem}
use ror_books_test.Backend.Upkeep.{if_both, unless_both}
use ror_books_test.Backend.Requests.{
  Request, post_borrowing, post_return, post_mark_overdue, post_book, put_book, delete_book,
  post_member, put_member, delete_member, put_account, Rails, act, handle,
}

-- A property of rows that new borrowings have, and that returns and overdue checks keep.
pub record IsKept (rails : Rails) (now : ℕ) (P : Borrowing → Type 0) : Type 0 where
  pub new_row : (user : User) (book : Book) (db : Database) → P (new_borrowing now user book db)
  pub given_back :
      (comment : Option String) (b : Borrowing) → P b → P (give_back rails.blank now comment b)
  pub marked : (b : Borrowing) → P b → P (mark (now / day_ms) b)

module _ (rails : Rails) (now : ℕ) (P : Borrowing → Type 0) (kept : IsKept rails now P) where
  abbrev Holds : {A : Type 0} → Response A × Database → Type 0
  Holds r = All P r.1.borrowings

  created_rows :
      (user : User) (book : Book) (db : Database) (errors : List String)
      → All P db.borrowings
      → Holds (create_or_raise errors now user book db)
  unfolding create_or_raise insert
  created_rows user book db [] h =
      All-append P db.borrowings (new_borrowing now user book db ∷ []) h
        (kept.new_row user book db, tt)
  created_rows user book db (e ∷ es) h = h

  create_rows :
      (user : User) (id : ℕ) (db : Database)
      → All P db.borrowings
      → Holds (create_borrowing now user id db)
  unfolding create_borrowing
  create_rows user id db h = elim (Option-cases (find_book id db)) [
    | inl missing ↦ rw (missing, create_borrowing) h
    | inr (book, found) ↦
        rw (create_found now user id db book found)
          (created_rows user book db (borrow_errors db user book) h)
  ]

  returned_row :
      (id : ℕ) (comment : Option String) (b : Borrowing)
      → P b
      → P (if b.id == id then give_back rails.blank now comment b else b)
  returned_row id comment b h = if_both P (b.id == id) _ _ (kept.given_back comment b h) h

  return_rows :
      (user : User) (id : ℕ) (comment : Option String) (db : Database)
      → All P db.borrowings
      → Holds (return_book rails.blank now user id comment db)
  unfolding return_book
  return_rows user id comment db h = elim (Option-cases (find_borrowing id db)) [
    | inl missing ↦ rw (missing, return_book) h
    | inr (row, found) ↦
        rw (found, return_book)
          (if_both (Holds {A = Borrowing}) (is_librarian user) _ _
            (All-map P P (λ b. if b.id == id then give_back rails.blank now comment b else b)
              (returned_row id comment) db.borrowings h)
            h)
  ]

  marked_rows :
      (db : Database) → All P db.borrowings → All P (mark_overdue_books now db).1.borrowings
  marked_rows db h =
      rw (mark_overdue_books_lem now db).1
        (All-map P P (mark (now / day_ms)) kept.marked db.borrowings h)

  saved_rows :
      (p : BookParams) (db : Database) (errors : List (String × Messages))
      → All P db.borrowings
      → Holds (save_book errors p db)
  unfolding save_book
  saved_rows p db [] h = if_both (Holds {A = Book}) _ _ _ h h
  saved_rows p db (e ∷ es) h = h

  changed_rows :
      (c : Book) (db : Database) (errors : List (String × Messages))
      → All P db.borrowings
      → Holds (save_changed errors c db)
  unfolding save_changed
  changed_rows c db [] h = if_both (Holds {A = Book}) _ _ _ h h
  changed_rows c db (e ∷ es) h = h

  updated_rows :
      (p : BookParams) (db : Database) (found : Option Book)
      → All P db.borrowings
      → Holds (update_found_book rails.blank p found db)
  updated_rows p db none h = h
  updated_rows p db (some b) h = changed_rows (assign_book p b) db _ h

  without_book :
      (db : Database) (found : Option Book)
      → All P db.borrowings
      → Holds (destroy_found_book found db)
  without_book db none h = h
  without_book db (some b) h =
      All-keep P P (λ o. not (o.book_id == b.id)) (λ o pass k. k) db.borrowings h

  without_member :
      (db : Database) (found : Option User)
      → All P db.borrowings
      → Holds (destroy_found_member found db)
  without_member db none h = h
  without_member db (some u) h =
      All-keep P P (λ o. not (o.user_id == u.id)) (λ o pass k. k) db.borrowings h

  member_rows :
      (p : MemberParams) (db : Database) (found : Option User)
      → All P db.borrowings
      → Holds (update_found_member rails.devise p found db)
  member_rows p db none h = h
  member_rows p db (some u) h = unless_both (Holds {A = User}) _ _ _ h h

  act_rows :
      (user : User) (request : Request) (db : Database)
      → All P db.borrowings
      → All P (act rails now user request db).1.borrowings
  unfolding act mark_overdue create_book update_book destroy_book create_member update_member
      destroy_member update_account
  act_rows user (post_borrowing book_id) db h = create_rows user book_id db h
  act_rows user (post_return id comment) db h = return_rows user id comment db h
  act_rows user post_mark_overdue db h =
      if_both (Holds {A = Marking}) (is_librarian user) _ _ (marked_rows db h) h
  act_rows user (post_book p) db h =
      if_both (Holds {A = Book}) (is_librarian user) _ _
        (saved_rows p db (new_book_errors rails.blank p db) h) h
  act_rows user (put_book id p) db h =
      if_both (Holds {A = Book}) (is_librarian user) _ _ (updated_rows p db (find_book id db) h) h
  act_rows user (delete_book id) db h =
      if_both (Holds {A = Unit {0}}) (is_librarian user) _ _ (without_book db (find_book id db) h) h
  act_rows user (post_member p) db h =
      if_both (Holds {A = User}) (is_librarian user) _ _ (unless_both (Holds {A = User}) _ _ _ h h)
        h
  act_rows user (put_member id p) db h =
      if_both (Holds {A = User}) (is_librarian user) _ _ (member_rows p db (find_member id db) h) h
  act_rows user (delete_member id) db h =
      if_both (Holds {A = Unit {0}}) (is_librarian user) _ _
        (without_member db (find_member id db) h) h
  act_rows user (put_account p) db h = unless_both (Holds {A = User}) _ _ _ h h

  pub handle_rows :
      (session : Option ℕ) (request : Request) (db : Database)
      → All P db.borrowings
      → All P (handle rails now session request db).1.borrowings
  unfolding handle
  handle_rows none request db h = h
  handle_rows (some id) request db h = elim (Option-cases (find (λ u. u.id == id) db.users)) [
    | inl missing ↦ rw (missing, handle) h
    | inr (user, found) ↦ rw (found, handle) (act_rows user request db h)
  ]
