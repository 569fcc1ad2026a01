-- ===== src/Joint/BookForms.antt =====
-- The checks of the librarian's form against the validations of the server.
use ror_books_test.Prelude.{
  ◌/◌, ◌^◌, ◌≤◌, ◌≡◌, ◌↔◌, refl, String, Option, none, some, Bool, true, false, Bool-cases, [],
  arith, is_blank,
}
use ror_books_test.Api.{User}
use ror_books_test.Forms.{BookForm, Number, nan, infinity, decimal, book_errors, has_errors}
use ror_books_test.Forms.Validation.{IsFilled, IsCount, book_errors-nil_iff}
use ror_books_test.Backend.{
  Database, is_rendered, is_librarian, BookParams, Copies, sent, copies_sent, copies_errors,
  copies_value, max_integer, is_whole, is_taken, new_book_errors, save_book, create_book, new_book,
}

-- A finite number of whole copies that fits the column.
abbrev pub IsStorable : Option Number → Type 0
IsStorable (some (decimal negative digits scale)) =
    (is_whole digits scale ≡ true) × (digits / 10 ^ scale ≤ max_integer)
IsStorable _ = ⊥

module _ (blank : String → Bool) where
  -- Active Support finds a text of the form blank only if the form does.
  abbrev pub IsAgreed : Option String → Type 0
  IsAgreed none = Unit
  IsAgreed (some text) = is_blank text ≡ false → blank text ≡ false

  filled :
      (o : Option String)
      → IsFilled o
      → IsAgreed o
      → (text : String) × (o ≡ some text) × (blank text ≡ false)
  filled none h agreed = absurd h
  filled (some text) h agreed = (text, refl, agreed h)

module _ (blank : String → Bool) (user : User) (db : Database) where
  saved :
      (title author genre isbn : String) (copies : Copies)
      → is_librarian user ≡ true
      → blank title ≡ false
      → blank author ≡ false
      → blank genre ≡ false
      → blank isbn ≡ false
      → let p : BookParams = record {
        title = some title;
        author = some author;
        genre = some genre;
        isbn = some isbn;
        total_copies = copies;
      } in
        (is_rendered (create_book blank user p db).0 ≡ true) ↔ (
          (copies_errors copies ≡ [])
          × (copies_value copies ≤ max_integer)
          × (is_taken (some isbn) db ≡ false))
  unfolding create_book save_book new_book_errors new_book
  saved title author genre isbn copies librarian t a g i =
      ground (arith, librarian, t, a, g, i, Bool-cases (is_taken (some isbn) db))

copies_lem :
    (o : Option Number)
    → IsCount o
    → ((copies_errors (copies_sent o) ≡ []) × (copies_value (copies_sent o) ≤ max_integer))
      ↔ IsStorable o
unfolding copies_errors
copies_lem none h = absurd h
copies_lem (some nan) h = absurd h
copies_lem (some (infinity negative)) h = ground arith
copies_lem (some (decimal negative digits scale)) h = ground (arith, h)

module _ (blank : String → Bool) (user : User) (db : Database) where
  -- A form that passes the page's checks is saved for a librarian exactly if its number of copies
  -- is finite, whole and at most 2147483647, and no book has its ISBN; where Active Support finds
  -- none of the four texts blank that the page does not.
  pub complete_saved_iff :
      (f : BookForm)
      → is_librarian user ≡ true
      → has_errors (book_errors f) ≡ false
      → IsAgreed blank f.title
      → IsAgreed blank f.author
      → IsAgreed blank f.genre
      → IsAgreed blank f.isbn
      → (is_rendered (create_book blank user (sent f) db).0 ≡ true)
        ↔ (IsStorable f.total_copies × (is_taken f.isbn db ≡ false))
  complete_saved_iff f librarian passes ta aa ga ia =
      let v = (book_errors-nil_iff f).0 passes in
      let (title, et, t) = filled blank f.title v.title ta in
      let (author, ea, a) = filled blank f.author v.author aa in
      let (genre, eg, g) = filled blank f.genre v.genre ga in
      let (isbn, ei, i) = filled blank f.isbn v.isbn ia in
      let copies = copies_lem f.total_copies v.copies in
      let core =
        saved blank user db title author genre isbn (copies_sent f.total_copies) librarian t a g
          i in
      rw (et, ea, eg, ei)
        (
          λ h. let (e, le, free) = core.0 h in (copies.0 (e, le), free),
          λ h. let (e, le) = copies.1 h.0 in core.1 (e, le, h.1),
        )
