-- ===== src/Backend/Roles.antt =====
-- No request to the controllers of app/controllers makes anybody a librarian; Devise has routes of its
-- own, which are outside.
use ror_books_test.Prelude.{
  ℕ, ◌≡◌, refl, ◌∙◌, inl, inr, ◌==◌, String, Option, none, some, Option-cases, Bool, true, false,
  not, ◌&&◌, List, [], ◌∷◌, any, find, find-some, any-grown, any-replaced, any-kept, found_fails,
  arith, if◌then◌else◌,
}
use ror_books_test.Api.{User, Messages}
use ror_books_test.Backend.Tables.{
  Book, Borrowing, Database, Response, is_librarian, is_member, find_book, find_member,
  find_borrowing,
}
use ror_books_test.Backend.Lending.{
  create_borrowing, create_or_raise, borrow_errors, insert, Marking, return_book, mark_overdue,
  mark_overdue_books,
}
use ror_books_test.Backend.Catalogue.{
  BookParams, create_book, update_book, destroy_book, save_book, save_changed, update_found_book,
  destroy_found_book, new_book_errors,
}
use ror_books_test.Backend.Membership.{
  MemberParams, create_member, update_member, destroy_member, update_account, assign_user,
  replace_user, new_member, update_found_member, destroy_found_member,
}
use ror_books_test.Backend.Late.{mark_overdue_books_lem}
use ror_books_test.Backend.Requests.{
  Request, post_borrowing, post_return, post_mark_overdue, post_book, put_book, delete_book,
  post_member, put_member, delete_member, put_account, Rails, act, handle,
}
use ror_books_test.Backend.Reachable.{Call, serve}
use ror_books_test.Backend.Upkeep.{if_both, unless_both}

abbrev pub is_librarian_of : ℕ → User → Bool
is_librarian_of id u = u.id == id && is_librarian u

-- Nobody with an id is a librarian.
abbrev pub IsNoLibrarian : ℕ → Database → Type 0
IsNoLibrarian id db = any (is_librarian_of id) db.users ≡ false

abbrev IsNoneAfter : {A : Type 0} → ℕ → Response A × Database → Type 0
IsNoneAfter id r = IsNoLibrarian id r.1

replaced_row :
    (id : ℕ) (row o : User)
    → is_librarian_of id row ≡ false
    → is_librarian_of id o ≡ false
    → is_librarian_of id (if o.id == row.id then row else o) ≡ false
replaced_row id row o h k = ground (arith, h, k)

replaced_none :
    (id : ℕ) (row : User) (db : Database)
    → is_librarian_of id row ≡ false
    → IsNoLibrarian id db
    → IsNoLibrarian id (replace_user row db)
replaced_none id row db h none_before =
    any-replaced (is_librarian_of id) (λ o. if o.id == row.id then row else o)
      (λ o k. replaced_row id row o h k) db.users none_before

assigned_role :
    (id : ℕ) (p : MemberParams) (u : User)
    → is_librarian_of id (assign_user p u) ≡ is_librarian_of id u
unfolding assign_user
assigned_role id p u = refl

member_row :
    (id k : ℕ) (u : User)
    → (if u.id == k then is_member u else false) ≡ true
    → is_librarian_of id u ≡ false
member_row id k u h = ground (arith, h)

new_row : (id : ℕ) (p : MemberParams) (db : Database) → is_librarian_of id (new_member p db) ≡ false
unfolding new_member
new_row id p db = ground arith

create_or_raise_none :
    (id now : ℕ) (user : User) (book : Book) (db : Database) (errors : List String)
    → IsNoLibrarian id db
    → IsNoLibrarian id (create_or_raise errors now user book db).1
unfolding create_or_raise insert
create_or_raise_none id now user book db [] h = h
create_or_raise_none id now user book db (m ∷ ms) h = h

module _ (rails : Rails) (now id : ℕ) (user : User) where
  create_borrowing_none :
      (book_id : ℕ) (db : Database)
      → IsNoLibrarian id db
      → IsNoLibrarian id (create_borrowing now user book_id db).1
  unfolding create_borrowing
  create_borrowing_none book_id db h = elim (Option-cases (find_book book_id db)) [
    | inl missing ↦ rw (missing, create_borrowing) h
    | inr (book, found) ↦
        rw (found, create_borrowing)
          (create_or_raise_none id now user book db (borrow_errors db user book) h)
  ]

  return_book_none :
      (row : ℕ) (comment : Option String) (db : Database)
      → IsNoLibrarian id db
      → IsNoLibrarian id (return_book rails.blank now user row comment db).1
  unfolding return_book
  return_book_none row comment db h = elim (Option-cases (find_borrowing row db)) [
    | inl missing ↦ rw (missing, return_book) h
    | inr (b, found) ↦
        rw (found, return_book)
          (if_both (IsNoneAfter {A = Borrowing} id) (is_librarian user) _ _ h h)
  ]

  mark_overdue_books_none :
      (db : Database) → IsNoLibrarian id db → IsNoLibrarian id (mark_overdue_books now db).1
  mark_overdue_books_none db h = rw (mark_overdue_books_lem now db).1 h

  save_book_none :
      (errors : List (String × Messages)) (p : BookParams) (db : Database)
      → IsNoLibrarian id db
      → IsNoLibrarian id (save_book errors p db).1
  unfolding save_book
  save_book_none [] p db h = if_both (IsNoneAfter {A = Book} id) _ _ _ h h
  save_book_none (e ∷ es) p db h = h

  save_changed_none :
      (errors : List (String × Messages)) (b : Book) (db : Database)
      → IsNoLibrarian id db
      → IsNoLibrarian id (save_changed errors b db).1
  unfolding save_changed
  save_changed_none [] b db h = if_both (IsNoneAfter {A = Book} id) _ _ _ h h
  save_changed_none (e ∷ es) b db h = h

  update_found_book_none :
      (p : BookParams) (found : Option Book) (db : Database)
      → IsNoLibrarian id db
      → IsNoLibrarian id (update_found_book rails.blank p found db).1
  update_found_book_none p none db h = h
  update_found_book_none p (some b) db h = save_changed_none _ _ db h

  destroy_found_book_none :
      (found : Option Book) (db : Database)
      → IsNoLibrarian id db
      → IsNoLibrarian id (destroy_found_book found db).1
  destroy_found_book_none none db h = h
  destroy_found_book_none (some b) db h = h

  update_member_none :
      (row : ℕ) (p : MemberParams) (db : Database)
      → IsNoLibrarian id db
      → IsNoLibrarian id (update_found_member rails.devise p (find_member row db) db).1
  update_member_none row p db h = elim (Option-cases (find_member row db)) [
    | inl missing ↦ rw missing h
    | inr (u, found) ↦
        let (_, plain) =
          find-some (λ u. if u.id == row then is_member u else false) db.users u found in
        rw found (
          unless_both (IsNoneAfter {A = User} id) _ _ _ h (
            replaced_none id (assign_user p u) db (assigned_role id p u ∙ member_row id row u plain)
              h))
  ]

  destroy_member_none :
      (found : Option User) (db : Database)
      → IsNoLibrarian id db
      → IsNoLibrarian id (destroy_found_member found db).1
  destroy_member_none none db h = h
  destroy_member_none (some u) db h =
      any-kept (is_librarian_of id) (λ o. not (o.id == u.id)) db.users h

  act_none :
      (request : Request) (db : Database)
      → is_librarian_of id user ≡ false
      → IsNoLibrarian id db
      → IsNoLibrarian id (act rails now user request db).1
  unfolding act mark_overdue create_book update_book destroy_book create_member update_member
      destroy_member update_account
  act_none (post_borrowing book_id) db plain h = create_borrowing_none book_id db h
  act_none (post_return row comment) db plain h = return_book_none row comment db h
  act_none post_mark_overdue db plain h =
      if_both (IsNoneAfter {A = Marking} id) (is_librarian user) _ _ (mark_overdue_books_none db h)
        h
  act_none (post_book p) db plain h =
      if_both (IsNoneAfter {A = Book} id) (is_librarian user) _ _
        (save_book_none (new_book_errors rails.blank p db) p db h) h
  act_none (put_book row p) db plain h =
      if_both (IsNoneAfter {A = Book} id) (is_librarian user) _ _
        (update_found_book_none p (find_book row db) db h) h
  act_none (delete_book row) db plain h =
      if_both (IsNoneAfter {A = Unit {0}} id) (is_librarian user) _ _
        (destroy_found_book_none (find_book row db) db h) h
  act_none (post_member p) db plain h =
      if_both (IsNoneAfter {A = User} id) (is_librarian user) _ _
        (unless_both (IsNoneAfter {A = User} id) _ _ _ h
          (any-grown (is_librarian_of id) db.users (new_member p db) h (new_row id p db)))
        h
  act_none (put_member row p) db plain h =
      if_both (IsNoneAfter {A = User} id) (is_librarian user) _ _ (update_member_none row p db h) h
  act_none (delete_member row) db plain h =
      if_both (IsNoneAfter {A = Unit {0}} id) (is_librarian user) _ _
        (destroy_member_none (find_member row db) db h) h
  act_none (put_account p) db plain h =
      unless_both (IsNoneAfter {A = User} id) _ _ _ h
        (replaced_none id (assign_user p user) db (assigned_role id p user ∙ plain) h)

module _ (rails : Rails) (id : ℕ) where
  handle_none :
      (now : ℕ) (session : Option ℕ) (request : Request) (db : Database)
      → IsNoLibrarian id db
      → IsNoLibrarian id (handle rails now session request db).1
  unfolding handle
  handle_none now none request db h = h
  handle_none now (some user_id) request db h =
      elim (Option-cases (find (λ u. u.id == user_id) db.users)) [
        | inl missing ↦ rw (missing, handle) h
        | inr (user, found) ↦
            rw (found, handle)
              (act_none rails now id user request db
                (found_fails (is_librarian_of id) (λ u. u.id == user_id) db.users user found h) h)
      ]

  -- If nobody with an id is a librarian, then after any requests of any users to these controllers
  -- still nobody with that id is.
  pub serve-IsNoLibrarian :
      (cs : List Call) (db : Database) → IsNoLibrarian id db → IsNoLibrarian id (serve rails cs db)
  unfolding serve
  serve-IsNoLibrarian [] db h = h
  serve-IsNoLibrarian (c ∷ cs) db h =
      serve-IsNoLibrarian cs (handle rails c.now c.session c.request db).1
        (handle_none c.now c.session c.request db h)
