-- ===== src/Backend/Capacity.antt =====
-- Every request keeps the lent copies of a book within its copies.
use ror_books_test.Prelude.{
  ℕ, ◌/◌, ◌≤◌, ◌≡◌, refl, ◌∙◌, ap, ◌==◌, String, Option, none, some, Option-cases, not, List, [],
  ◌∷◌, keep, find, find-some, inl, inr, if◌then◌else◌,
}
use ror_books_test.Api.{User, Messages}
use ror_books_test.Dates.{day_ms}
use ror_books_test.Backend.Tables.{
  Book, Borrowing, Database, Response, find_book, find_borrowing, find_member, is_librarian,
}
use ror_books_test.Backend.Lending.{
  give_back, mark, Marking, mark_overdue, mark_overdue_books, return_book,
}
use ror_books_test.Backend.Catalogue.{
  BookParams, assign_book, create_book, update_book, destroy_book, new_book_errors,
  changed_book_errors,
}
use ror_books_test.Backend.Membership.{
  MemberParams, create_member, update_member, update_found_member, destroy_member,
  destroy_found_member, update_account, unless_errors,
}
use ror_books_test.Backend.Late.{mark_overdue_books_lem}
use ror_books_test.Backend.Integrity.{same_id}
use ror_books_test.Backend.Upkeep.{if_both, unless_both, give_back_ids, mark_ids}
use ror_books_test.Backend.Stock.{
  IsStocked, IsStockedAfter, map-IsStocked, keep-IsStocked, create_borrowing-IsStocked,
  save_book-IsStocked, give_back_active, mark_active,
}
use ror_books_test.Backend.Shelves.{save_changed-IsStocked, destroy_found_book-IsStocked}
use ror_books_test.Backend.Requests.{
  Request, post_borrowing, post_return, post_mark_overdue, post_book, put_book, delete_book,
  post_member, put_member, delete_member, put_account, Rails, act, handle,
}
use ror_books_test.Backend.Reachable.{Call, serve}

-- The users are of no concern here.
users-IsStocked :
    (users : List User) (next : ℕ) (db : Database)
    → IsStocked db
    → IsStocked (record db { users = users; next_user = next })
users-IsStocked users next db h = record {
  covered = h.covered;
  fresh = h.fresh;
  fresh_lent = h.fresh_lent;
}

-- A change of a book's row that does not lower its number of copies; any other request.
abbrev pub IsKeeping : Request → Database → Type 0
IsKeeping (put_book id p) db =
    (b : Book) → find_book id db ≡ some b → b.total_copies ≤ (assign_book p b).total_copies
IsKeeping _ db = Unit

same_row : (p : BookParams) (b : Book) → (assign_book p b).id ≡ b.id
unfolding assign_book
same_row p b = refl

module _ (rails : Rails) (now : ℕ) where
  return_book-IsStocked :
      (user : User) (id : ℕ) (comment : Option String) (db : Database)
      → IsStocked db
      → IsStocked (return_book rails.blank now user id comment db).1
  unfolding return_book
  return_book-IsStocked user id comment db h = elim (Option-cases (find_borrowing id db)) [
    | inl missing ↦ rw (missing, return_book) h
    | inr (row, found) ↦
        rw (found, return_book)
          (if_both (IsStockedAfter {A = Borrowing}) (is_librarian user) _ _
            (map-IsStocked (λ b. if b.id == id then give_back rails.blank now comment b else b) db
              (λ k b. give_back_active rails.blank now id k comment b)
              (λ b. (give_back_ids rails.blank now id comment b).1) h)
            h)
  ]

  mark_overdue_books-IsStocked :
      (db : Database) → IsStocked db → IsStocked (mark_overdue_books now db).1
  mark_overdue_books-IsStocked db h =
      let today = now / day_ms in
      rw (mark_overdue_books_lem now db).1
        (map-IsStocked (mark today) db (mark_active today) (λ b. (mark_ids today b).1) h)

  update_book-IsStocked :
      (user : User) (id : ℕ) (p : BookParams) (db : Database)
      → IsKeeping (put_book id p) db
      → IsStocked db
      → IsStocked (update_book rails.blank user id p db).1
  unfolding update_book
  update_book-IsStocked user id p db more h = elim (Option-cases (find_book id db)) [
    | inl missing ↦
        rw (missing, update_book) (if_both (IsStockedAfter {A = Book}) (is_librarian user) _ _ h h)
    | inr (b, found) ↦
        let same = same_id b.id id (find-some (λ o. o.id == id) db.books b found).1 in
        rw (found, update_book)
          (if_both (IsStockedAfter {A = Book}) (is_librarian user) _ _
            (save_changed-IsStocked b (assign_book p b) db
              (ap (λ k. find_book k db) (same_row p b ∙ same) ∙ found) (more b found) h
              (changed_book_errors rails.blank p (assign_book p b) db))
            h)
  ]

  users_only :
      {A : Type 0} (errors : List (String × Messages)) (refusal success : Response A)
      (users : List User) (next : ℕ) (db : Database)
      → IsStocked db
      → IsStockedAfter (
          unless_errors errors
            (refusal, db)
            (success, record db { users = users; next_user = next }))
  users_only errors refusal success users next db h =
      unless_both (IsStockedAfter) errors _ _ h (users-IsStocked users next db h)

  update_found_member-IsStocked :
      (p : MemberParams) (db : Database)
      → IsStocked db
      → (found : Option User) → IsStocked (update_found_member rails.devise p found db).1
  update_found_member-IsStocked p db h none = h
  update_found_member-IsStocked p db h (some u) = users_only _ _ _ _ db.next_user db h

  destroy_found_member-IsStocked :
      (db : Database)
      → IsStocked db
      → (found : Option User) → IsStocked (destroy_found_member found db).1
  destroy_found_member-IsStocked db h none = h
  destroy_found_member-IsStocked db h (some u) =
      users-IsStocked (keep (λ o. not (o.id == u.id)) db.users) db.next_user _
        (keep-IsStocked (λ o. not (o.user_id == u.id)) db h)

  act-IsStocked :
      (user : User) (request : Request) (db : Database)
      → IsKeeping request db
      → IsStocked db
      → IsStocked (act rails now user request db).1
  unfolding act mark_overdue create_book destroy_book create_member update_member destroy_member
      update_account
  act-IsStocked user (post_borrowing book_id) db k h =
      create_borrowing-IsStocked now user book_id db h
  act-IsStocked user (post_return id comment) db k h = return_book-IsStocked user id comment db h
  act-IsStocked user post_mark_overdue db k h =
      if_both (IsStockedAfter {A = Marking}) (is_librarian user) _ _
        (mark_overdue_books-IsStocked db h) h
  act-IsStocked user (post_book p) db k h =
      if_both (IsStockedAfter {A = Book}) (is_librarian user) _ _
        (save_book-IsStocked p db h (new_book_errors rails.blank p db)) h
  act-IsStocked user (put_book id p) db k h = update_book-IsStocked user id p db k h
  act-IsStocked user (delete_book id) db k h =
      if_both (IsStockedAfter {A = Unit {0}}) (is_librarian user) _ _
        (destroy_found_book-IsStocked db h (find_book id db)) h
  act-IsStocked user (post_member p) db k h =
      if_both (IsStockedAfter {A = User}) (is_librarian user) _ _ (users_only _ _ _ _ _ db h) h
  act-IsStocked user (put_member id p) db k h =
      if_both (IsStockedAfter {A = User}) (is_librarian user) _ _
        (update_found_member-IsStocked p db h (find_member id db)) h
  act-IsStocked user (delete_member id) db k h =
      if_both (IsStockedAfter {A = Unit {0}}) (is_librarian user) _ _
        (destroy_found_member-IsStocked db h (find_member id db)) h
  act-IsStocked user (put_account p) db k h = users_only _ _ _ _ db.next_user db h

  handle-IsStocked :
      (session : Option ℕ) (request : Request) (db : Database)
      → IsKeeping request db
      → IsStocked db
      → IsStocked (handle rails now session request db).1
  unfolding handle
  handle-IsStocked none request db k h = h
  handle-IsStocked (some id) request db k h =
      elim (Option-cases (find (λ u. u.id == id) db.users)) [
        | inl missing ↦ rw (missing, handle) h
        | inr (user, found) ↦ rw (found, handle) (act-IsStocked user request db k h)
      ]

module _ (rails : Rails) where
  -- None of the requests lowers the number of copies of a book, as they come.
  unfoldable pub AllKeeping : List Call → Database → Type 0
  AllKeeping [] db = Unit
  AllKeeping (c ∷ cs) db =
      IsKeeping c.request db × AllKeeping cs (handle rails c.now c.session c.request db).1

  -- If no book has more active borrowings than copies, and the ids in use are below the next one,
  -- then so it is after any requests of any users, one after another, that lower no book's number
  -- of copies.
  pub serve-IsStocked :
      (cs : List Call) (db : Database)
      → AllKeeping cs db
      → IsStocked db
      → IsStocked (serve rails cs db)
  unfolding serve AllKeeping
  serve-IsStocked [] db k h = h
  serve-IsStocked (c ∷ cs) db k h =
      serve-IsStocked cs (handle rails c.now c.session c.request db).1 k.1
        (handle-IsStocked rails c.now c.session c.request db k.0 h)
