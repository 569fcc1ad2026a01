-- ===== src/Backend/Upkeep.antt =====
-- Integrity through the requests that do not borrow.
use ror_books_test.Prelude.{
  ℕ, ◌≤◌, ◌≡◌, refl, ◌∙◌, ◌==◌, String, Option, none, some, Bool, true, false, not, List, [], ◌∷◌,
  count, keep, any-append_left, any-map, any-keep, count-keep_le, All-imp, All-keep, arith,
  if◌then◌else◌,
}
use ror_books_test.Api.{User, Messages}
use ror_books_test.Backend.Tables.{Response, Book, Borrowing, Database}
use ror_books_test.Backend.Lending.{active_for, give_back, mark}
use ror_books_test.Backend.Catalogue.{
  BookParams, save_book, save_changed, new_book, update_found_book, destroy_found_book,
}
use ror_books_test.Backend.Membership.{
  MemberParams, Devise, unless_errors, replace_user, update_found_member, destroy_found_member,
  assign_user,
}
use ror_books_test.Backend.Integrity.{IsSound, IsKnown, is_user, is_book}

-- What holds in both branches holds of a conditional.
pub if_both {ℓ κ} :
    {A : Type ℓ} (P : A → Type κ) (b : Bool) (x y : A) → P x → P y → P (if b then x else y)
if_both P true x y hx hy = hx
if_both P false x y hx hy = hy

pub unless_both {κ} :
    {A E : Type 0} (P : A → Type κ) (es : List E) (x y : A) → P x → P y → P (unless_errors es x y)
unless_both P [] x y hx hy = hy
unless_both P (e ∷ es) x y hx hy = hx

abbrev pub IsSoundAfter : {A : Type 0} → Response A × Database → Type 0
IsSoundAfter r = IsSound r.1

-- No user and no book goes.
pub tables-IsSound :
    (db after : Database)
    → after.borrowings ≡ db.borrowings
    → ((id : ℕ) → is_user db.users id ≡ true → is_user after.users id ≡ true)
    → ((id : ℕ) → is_book db.books id ≡ true → is_book after.books id ≡ true)
    → IsSound db
    → IsSound after
tables-IsSound db after same users books h = record {
  single = λ user book. rw same (h.single user book);
  known = rw same (
      All-imp (IsKnown db.users db.books) (IsKnown after.users after.books)
        (λ b k. (users b.user_id k.0, books b.book_id k.1)) db.borrowings h.known);
}

replace_id :
    {A : Type 0} (key : A → ℕ) (x : A) (id : ℕ) (o : A)
    → (key (if key o == key x then x else o) == id) ≡ (key o == id)
replace_id key x id o = ground arith

pub save_book-IsSound :
    (blank : String → Bool) (p : BookParams) (db : Database)
    → IsSound db
    → (errors : List (String × Messages)) → IsSound (save_book errors p db).1
unfolding save_book
save_book-IsSound blank p db h (e ∷ es) = h
save_book-IsSound blank p db h [] =
    if_both (IsSoundAfter {A = Book}) _ _ _
      (tables-IsSound db _ refl (λ id k. k)
        (λ id k. any-append_left (λ b. b.id == id) db.books (new_book p db ∷ []) k) h)
      h

save_changed-IsSound :
    (blank : String → Bool) (b : Book) (db : Database)
    → IsSound db
    → (errors : List (String × Messages)) → IsSound (save_changed errors b db).1
unfolding save_changed
save_changed-IsSound blank b db h (e ∷ es) = h
save_changed-IsSound blank b db h [] =
    if_both (IsSoundAfter {A = Book}) _ _ _
      (tables-IsSound db _ refl (λ id k. k)
        (λ id k.
          any-map (λ o. o.id == id) (λ o. if o.id == b.id then b else o)
            (replace_id (λ o. o.id) b id) db.books
          ∙ k)
        h)
      h

pub update_found_book-IsSound :
    (blank : String → Bool) (p : BookParams) (db : Database)
    → IsSound db
    → (found : Option Book) → IsSound (update_found_book blank p found db).1
update_found_book-IsSound blank p db h none = h
update_found_book-IsSound blank p db h (some b) = save_changed-IsSound blank _ db h _

count-keep_one :
    (q : Borrowing → Bool) (db : Database) (user book : ℕ)
    → IsSound db
    → count (active_for user book) (keep q db.borrowings) ≤ 1
count-keep_one q db user book h =
    let fewer = count-keep_le (active_for user book) q db.borrowings in
    omega (arith, fewer, h.single user book)

other_id : (a b k : ℕ) → not (a == b) ≡ true → (k == a) ≡ true → not (k == b) ≡ true
other_id a b k h e = ground (arith, h, e)

pub destroy_found_book-IsSound :
    (db : Database) → IsSound db → (found : Option Book) → IsSound (destroy_found_book found db).1
destroy_found_book-IsSound db h none = h
destroy_found_book-IsSound db h (some b) = record {
  single = λ user book. count-keep_one _ db user book h;
  known =
      All-keep (IsKnown db.users db.books)
        (IsKnown db.users (keep (λ o. not (o.id == b.id)) db.books)) (λ o. not (o.book_id == b.id))
        (λ o kept k. (
          k.0,
          any-keep (λ c. c.id == o.book_id) (λ c. not (c.id == b.id))
              (λ c e. other_id o.book_id b.id c.id kept e) db.books k.1,
        ))
        db.borrowings h.known;
}

pub destroy_found_member-IsSound :
    (db : Database) → IsSound db → (found : Option User) → IsSound (destroy_found_member found db).1
destroy_found_member-IsSound db h none = h
destroy_found_member-IsSound db h (some u) = record {
  single = λ user book. count-keep_one _ db user book h;
  known =
      All-keep (IsKnown db.users db.books)
        (IsKnown (keep (λ o. not (o.id == u.id)) db.users) db.books) (λ o. not (o.user_id == u.id))
        (λ o kept k. (
          any-keep (λ c. c.id == o.user_id) (λ c. not (c.id == u.id))
              (λ c e. other_id o.user_id u.id c.id kept e) db.users k.0,
          k.1,
        ))
        db.borrowings h.known;
}

pub replace_user-IsSound : (u : User) (db : Database) → IsSound db → IsSound (replace_user u db)
replace_user-IsSound u db h =
    tables-IsSound db (replace_user u db) refl
      (λ id k.
        any-map (λ o. o.id == id) (λ o. if o.id == u.id then u else o) (replace_id (λ o. o.id) u id)
          db.users
        ∙ k)
      (λ id k. k) h

pub update_found_member-IsSound :
    (devise : Devise) (p : MemberParams) (db : Database)
    → IsSound db
    → (found : Option User) → IsSound (update_found_member devise p found db).1
unfolding assign_user
update_found_member-IsSound devise p db h none = h
update_found_member-IsSound devise p db h (some u) =
    unless_both (IsSoundAfter {A = User}) _ _ _ h (replace_user-IsSound (assign_user p u) db h)

pub give_back_inactive :
    (blank : String → Bool) (now id : ℕ) (comment : Option String) (u k : ℕ) (b : Borrowing)
    → active_for u k (if b.id == id then give_back blank now comment b else b) ≡ true
    → active_for u k b ≡ true
unfolding give_back
give_back_inactive blank now id comment u k b h = ground (arith, h)

pub give_back_ids :
    (blank : String → Bool) (now id : ℕ) (comment : Option String) (b : Borrowing)
    → let after = if b.id == id then give_back blank now comment b else b in
      (after.user_id ≡ b.user_id) × (after.book_id ≡ b.book_id)
unfolding give_back
give_back_ids blank now id comment b = ground arith

pub mark_inactive :
    (today u k : ℕ) (b : Borrowing) → active_for u k (mark today b) ≡ true → active_for u k b ≡ true
mark_inactive today u k b h = ground (arith, h)

pub mark_ids :
    (today : ℕ) (b : Borrowing)
    → ((mark today b).user_id ≡ b.user_id) × ((mark today b).book_id ≡ b.book_id)
mark_ids today b = ground arith
