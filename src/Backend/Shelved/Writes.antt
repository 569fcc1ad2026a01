-- ===== src/Backend/Shelved/Writes.antt =====
-- The writes of books and the table of books.
use ror_books_test.Prelude.{
  ℕ, ◌≡◌, ◌<◌, refl, ◌==◌, String, str_eq, Option, none, some, Bool, true, false, not, List, [],
  ◌∷◌, ◌++◌, any, All, arith, if◌then◌else◌,
}
use ror_books_test.Api.{Messages}
use ror_books_test.Backend.Tables.{Book, Database, find_book}
use ror_books_test.Backend.Catalogue.{
  BookParams, new_book, save_book, save_changed, assign_book, new_book_errors, changed_book_errors,
  under, presence_errors, copies_errors, is_taken, update_found_book, destroy_found_book,
}
use ror_books_test.Backend.Upkeep.{if_both}
use ror_books_test.Backend.Seeds.Rows.{All-find, added-IsKeyed, replaced-IsKeyed}
use ror_books_test.Backend.Seeds.Unique.{is_used, added-IsUnique}
use ror_books_test.Backend.Shelved.{
  IsShelved, IsShelvedAfter, shelved-IsKeyed, changed_unique, kept-IsShelved,
}

left_nil : {A : Type 0} (xs ys : List A) → xs ++ ys ≡ [] → xs ≡ []
left_nil [] ys h = refl
left_nil (x ∷ xs) ys h = absurd (ground (arith, h))

right_nil : {A : Type 0} (xs ys : List A) → xs ++ ys ≡ [] → ys ≡ []
right_nil [] ys h = h
right_nil (x ∷ xs) ys h = absurd (ground (arith, h))

under-nil : (key : String) (ms : List String) → under key ms ≡ [] → ms ≡ []
under-nil key [] h = refl
under-nil key (m ∷ ms) h = absurd (ground (arith, h))

untaken : (b : Bool) (m : String) → (if b then m ∷ [] else []) ≡ [] → b ≡ false
untaken true m h = absurd (ground (arith, h))
untaken false m h = refl

apart_all :
    (isbn : String) (bs : List Book)
    → any (λ b. str_eq b.isbn isbn) bs ≡ false
    → All (λ b. str_eq b.isbn isbn ≡ false) bs
apart_all isbn [] h = tt
apart_all isbn (b ∷ bs) h = (ground (arith, h), apart_all isbn bs (ground (arith, h)))

-- The errors of a book, in their order, where there are none.
isbn_untaken :
    (ws xs ys us : List (String × Messages)) (ms : List String) (taken : Bool) (m : String)
    → ws ++ (xs ++ (ys ++ (under "isbn" (ms ++ (if taken then m ∷ [] else [])) ++ us))) ≡ []
    → (ms ≡ []) × (taken ≡ false)
isbn_untaken ws xs ys us ms taken m h =
    let both = ms ++ (if taken then m ∷ [] else []) in
    let mine =
      left_nil (under "isbn" both) us (right_nil ys _ (right_nil xs _ (right_nil ws _ h))) in
    let empty = under-nil "isbn" both mine in
    (left_nil ms _ empty, untaken taken m (right_nil ms _ empty))

module _ (blank : String → Bool) where
  present_apart :
      (o : Option String) (p : BookParams) (db : Database)
      → p.isbn ≡ o
      → (presence_errors blank p.isbn ≡ []) × (is_taken p.isbn db ≡ false)
      → All (λ b. str_eq b.isbn (new_book p db).isbn ≡ false) db.books
  unfolding new_book
  present_apart none p db sent (present, free) = absurd (ground (arith, rw sent at present))
  present_apart (some isbn) p db sent (present, free) =
      rw sent (apart_all isbn db.books (rw sent at free))

  new_isbn_apart :
      (p : BookParams) (db : Database)
      → new_book_errors blank p db ≡ []
      → All (λ b. str_eq b.isbn (new_book p db).isbn ≡ false) db.books
  unfolding new_book_errors
  new_isbn_apart p db h = present_apart p.isbn p db refl (
      isbn_untaken (under "title" (presence_errors blank p.title))
        (under "author" (presence_errors blank p.author))
        (under "genre" (presence_errors blank p.genre))
        (under "total_copies" (copies_errors p.total_copies)) (presence_errors blank p.isbn)
        (is_taken p.isbn db) "has already been taken" h)

  changed_isbn_free :
      (p : BookParams) (c : Book) (db : Database)
      → changed_book_errors blank p c db ≡ []
      → is_used db.books c.id c.isbn ≡ false
  unfolding changed_book_errors
  changed_isbn_free p c db h =
      (isbn_untaken (under "title" (presence_errors blank (some c.title)))
        (under "author" (presence_errors blank (some c.author)))
        (under "genre" (presence_errors blank (some c.genre)))
        (under "total_copies" (copies_errors p.total_copies)) (presence_errors blank (some c.isbn))
        (is_used db.books c.id c.isbn) "has already been taken" h).1

  pub saved-IsShelved :
      (p : BookParams) (db : Database) (errors : List (String × Messages))
      → new_book_errors blank p db ≡ errors
      → IsShelved db.books db.next_book
      → IsShelvedAfter (save_book errors p db)
  unfolding save_book new_book
  saved-IsShelved p db (e ∷ es) same h = h
  saved-IsShelved p db [] same h =
      let row = new_book p db in
      let keyed = added-IsKeyed db row refl (shelved-IsKeyed db h) in
      if_both (IsShelvedAfter {A = Book}) _ _ _
        (record {
          keyed = keyed.keyed;
          fresh = keyed.fresh;
          unique = added-IsUnique db.books row (new_isbn_apart p db same) h.unique;
        })
        h

  pub changed-IsShelved :
      (p : BookParams) (c : Book) (db : Database) (errors : List (String × Messages))
      → changed_book_errors blank p c db ≡ errors
      → c.id < db.next_book
      → IsShelved db.books db.next_book
      → IsShelvedAfter (save_changed errors c db)
  unfolding save_changed
  changed-IsShelved p c db (e ∷ es) same less h = h
  changed-IsShelved p c db [] same less h =
      let keyed = replaced-IsKeyed db c less (shelved-IsKeyed db h) in
      let free = changed_isbn_free p c db same in
      if_both (IsShelvedAfter {A = Book}) _ _ _
        (record {
          keyed = keyed.keyed;
          fresh = keyed.fresh;
          unique = changed_unique c db.books db.books free free h.unique;
        })
        h

  pub updated-IsShelved :
      (id : ℕ) (p : BookParams) (db : Database) (found : Option Book)
      → find_book id db ≡ found
      → IsShelved db.books db.next_book
      → IsShelvedAfter (update_found_book blank p found db)
  unfolding assign_book
  updated-IsShelved id p db none there h = h
  updated-IsShelved id p db (some b) there h =
      changed-IsShelved p (assign_book p b) db _ refl
        (All-find (λ o. o.id < db.next_book) (λ o. o.id == id) db.books b h.fresh there) h

pub destroyed-IsShelved :
    (db : Database) (found : Option Book)
    → IsShelved db.books db.next_book
    → IsShelvedAfter (destroy_found_book found db)
destroyed-IsShelved db none h = h
destroyed-IsShelved db (some b) h = kept-IsShelved (λ o. not (o.id == b.id)) db.books db.next_book h
