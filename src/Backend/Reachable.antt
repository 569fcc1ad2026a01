-- ===== src/Backend/Reachable.antt =====
-- Every request keeps the tables sound.
use ror_books_test.Prelude.{
  ℕ, ◌/◌, ◌≡◌, refl, ◌==◌, String, Option, none, some, Option-cases, true, List, [], ◌∷◌, find,
  find-some, any-append_left, inl, inr, if◌then◌else◌,
}
use ror_books_test.Api.{User}
use ror_books_test.Dates.{day_ms}
use ror_books_test.Backend.Tables.{
  Book, Borrowing, Database, is_librarian, find_book, find_member, find_borrowing,
}
use ror_books_test.Backend.Lending.{
  Marking, give_back, mark, return_book, mark_overdue, mark_overdue_books,
}
use ror_books_test.Backend.Catalogue.{create_book, update_book, destroy_book, new_book_errors}
use ror_books_test.Backend.Membership.{
  create_member, update_member, destroy_member, update_account, new_member, assign_user,
}
use ror_books_test.Backend.Late.{mark_overdue_books_lem}
use ror_books_test.Backend.Integrity.{
  IsSound, is_user, same_id, map-IsSound, create_borrowing-IsSound,
}
use ror_books_test.Backend.Requests.{
  Request, post_borrowing, post_return, post_mark_overdue, post_book, put_book, delete_book,
  post_member, put_member, delete_member, put_account, Rails, act, handle,
}
use ror_books_test.Backend.Upkeep.{
  IsSoundAfter, if_both, unless_both, tables-IsSound, save_book-IsSound, update_found_book-IsSound,
  destroy_found_book-IsSound, destroy_found_member-IsSound, replace_user-IsSound,
  update_found_member-IsSound, give_back_inactive, give_back_ids, mark_inactive, mark_ids,
}

mark_overdue_books-IsSound :
    (now : ℕ) (db : Database) → IsSound db → IsSound (mark_overdue_books now db).1
mark_overdue_books-IsSound now db h =
    let today = now / day_ms in
    rw (mark_overdue_books_lem now db).1 (
      map-IsSound (mark today) db (mark_inactive today) (λ b. (mark_ids today b).0)
        (λ b. (mark_ids today b).1) h)

module _ (rails : Rails) (now : ℕ) where
  return_book-IsSound :
      (user : User) (id : ℕ) (comment : Option String) (db : Database)
      → IsSound db
      → IsSound (return_book rails.blank now user id comment db).1
  unfolding return_book
  return_book-IsSound user id comment db h = elim (Option-cases (find_borrowing id db)) [
    | inl missing ↦ rw (missing, return_book) h
    | inr (row, found) ↦
        rw (found, return_book)
          (if_both (IsSoundAfter {A = Borrowing}) (is_librarian user) _ _
            (map-IsSound (λ b. if b.id == id then give_back rails.blank now comment b else b) db
              (give_back_inactive rails.blank now id comment)
              (λ b. (give_back_ids rails.blank now id comment b).0)
              (λ b. (give_back_ids rails.blank now id comment b).1) h)
            h)
  ]

  act-IsSound :
      (user : User) (request : Request) (db : Database)
      → is_user db.users user.id ≡ true
      → IsSound db
      → IsSound (act rails now user request db).1
  unfolding act mark_overdue create_book update_book destroy_book create_member update_member
      destroy_member update_account assign_user
  act-IsSound user (post_borrowing book_id) db there h =
      create_borrowing-IsSound now user book_id db there h
  act-IsSound user (post_return id comment) db there h = return_book-IsSound user id comment db h
  act-IsSound user post_mark_overdue db there h =
      if_both (IsSoundAfter {A = Marking}) (is_librarian user) _ _
        (mark_overdue_books-IsSound now db h) h
  act-IsSound user (post_book p) db there h =
      if_both (IsSoundAfter {A = Book}) (is_librarian user) _ _
        (save_book-IsSound rails.blank p db h (new_book_errors rails.blank p db)) h
  act-IsSound user (put_book id p) db there h =
      if_both (IsSoundAfter {A = Book}) (is_librarian user) _ _
        (update_found_book-IsSound rails.blank p db h (find_book id db)) h
  act-IsSound user (delete_book id) db there h =
      if_both (IsSoundAfter {A = Unit {0}}) (is_librarian user) _ _
        (destroy_found_book-IsSound db h (find_book id db)) h
  act-IsSound user (post_member p) db there h =
      if_both (IsSoundAfter {A = User}) (is_librarian user) _ _
        (unless_both (IsSoundAfter {A = User}) _ _ _ h (
          tables-IsSound db _ refl
            (λ id k. any-append_left (λ u. u.id == id) db.users (new_member p db ∷ []) k)
            (λ id k. k) h))
        h
  act-IsSound user (put_member id p) db there h =
      if_both (IsSoundAfter {A = User}) (is_librarian user) _ _
        (update_found_member-IsSound rails.devise p db h (find_member id db)) h
  act-IsSound user (delete_member id) db there h =
      if_both (IsSoundAfter {A = Unit {0}}) (is_librarian user) _ _
        (destroy_found_member-IsSound db h (find_member id db)) h
  act-IsSound user (put_account p) db there h =
      unless_both (IsSoundAfter {A = User}) _ _ _ h (replace_user-IsSound (assign_user p user) db h)

  handle-IsSound :
      (session : Option ℕ) (request : Request) (db : Database)
      → IsSound db
      → IsSound (handle rails now session request db).1
  unfolding handle
  handle-IsSound none request db h = h
  handle-IsSound (some id) request db h = elim (Option-cases (find (λ u. u.id == id) db.users)) [
    | inl missing ↦ rw (missing, handle) h
    | inr (user, found) ↦
        let (there, same) = find-some (λ u. u.id == id) db.users user found in
        rw (found, handle) (act-IsSound user request db (rw (same_id user.id id same) there) h)
  ]

-- A request with its time and its session.
pub record Call : Type 0 where
  pub now : ℕ
  pub session : Option ℕ
  pub request : Request

module _ (rails : Rails) where
  -- The tables after a list of requests, one after another.
  unfoldable pub serve : List Call → Database → Database
  serve [] db = db
  serve (c ∷ cs) db = serve cs (handle rails c.now c.session c.request db).1

  -- From tables that are sound, after any requests of any users to these controllers, one after another, still nobody
  -- has two active borrowings of one book, and every borrowing has its member and its book.
  pub serve-IsSound : (cs : List Call) (db : Database) → IsSound db → IsSound (serve cs db)
  unfolding serve
  serve-IsSound [] db h = h
  serve-IsSound (c ∷ cs) db h =
      serve-IsSound cs (handle rails c.now c.session c.request db).1
        (handle-IsSound rails c.now c.session c.request db h)
