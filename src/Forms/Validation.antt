-- ===== src/Forms/Validation.antt =====
-- What the checks accept, described without them.
use mathlib.Core.List.{append-nil}
use ror_books_test.Prelude.{
  ◌++◌, ◌≡◌, ◌↔◌, ◌⊎◌, refl, String, Option, none, some, Bool, true, false, not, [], ◌∷◌, arith,
  is_blank, ◌&&◌, ◌||◌, ◌==◌, truthy-trim, is_blank_of_falsy, str_eq, if◌then◌else◌,
}
use ror_books_test.Api.{Errors}
use ror_books_test.Forms.Fields.{
  note, note_copies, error_at, Number, nan, infinity, decimal, is_missing, BookForm, book_errors,
  MemberForm, new_member_errors, has_errors,
}

-- A field that holds a character other than white space.
abbrev pub IsFilled : Option String → Type 0
IsFilled none = ⊥
IsFilled (some text) = is_blank text ≡ false

-- A number that is at least 0.
abbrev pub IsCount : Option Number → Type 0
IsCount none = ⊥
IsCount (some nan) = ⊥
IsCount (some (infinity negative)) = negative ≡ false
IsCount (some (decimal negative digits scale)) = (negative ≡ false) ⊎ (digits ≡ 0)

pub record IsComplete (f : BookForm) : Type 0 where
  pub title : IsFilled f.title
  pub author : IsFilled f.author
  pub genre : IsFilled f.genre
  pub isbn : IsFilled f.isbn
  pub copies : IsCount f.total_copies

is_missing_iff : (o : Option String) → (is_missing o ≡ false) ↔ IsFilled o
is_missing_iff none = ground arith
is_missing_iff (some text) = ground (arith, truthy-trim text, is_blank_of_falsy text)

has_errors-note :
    (b : Bool) (key message : String) (errs : Errors)
    → has_errors (note b key message errs) ≡ (b || has_errors errs)
has_errors-note true key message [] = refl
has_errors-note true key message (e ∷ errs) = refl
has_errors-note false key message errs = refl

note_iff :
    (o : Option String) (key message : String) (errs : Errors)
    → (has_errors (note (is_missing o) key message errs) ≡ false)
      ↔ (IsFilled o × (has_errors errs ≡ false))
note_iff o key message errs =
    ground (arith, is_missing_iff o, has_errors-note (is_missing o) key message errs)

note_copies_iff :
    (o : Option Number) (errs : Errors)
    → (has_errors (note_copies o errs) ≡ false) ↔ (IsCount o × (has_errors errs ≡ false))
note_copies_iff none errs =
    ground (arith, has_errors-note true "total_copies" "Copies must be a number" errs)
note_copies_iff (some nan) errs =
    ground (arith, has_errors-note true "total_copies" "Copies must be a number" errs)
note_copies_iff (some (infinity negative)) errs =
    ground (arith, has_errors-note negative "total_copies" "Copies must be 0 or more" errs)
note_copies_iff (some (decimal negative digits scale)) errs = ground (
  arith,
  has_errors-note (negative && not (digits == 0)) "total_copies" "Copies must be 0 or more" errs,
)

-- A book form passes the checks exactly if each of its four texts holds something besides white
-- space and its number of copies is a number that is not negative.
pub book_errors-nil_iff : (f : BookForm) → (has_errors (book_errors f) ≡ false) ↔ IsComplete f
unfolding book_errors
book_errors-nil_iff f = (
  λ h.
      let (copies, d) = (note_copies_iff f.total_copies _).0 h in
      let (isbn, c) = (note_iff f.isbn _ _ _).0 d in
      let (genre, b) = (note_iff f.genre _ _ _).0 c in
      let (author, a) = (note_iff f.author _ _ _).0 b in
      let (title, _) = (note_iff f.title _ _ _).0 a in
      record { title = title; author = author; genre = genre; isbn = isbn; copies = copies },
  λ v.
      let a = (note_iff f.title "title" "Title is required" []).1 (v.title, refl) in
      let b = (note_iff f.author "author" "Author is required" _).1 (v.author, a) in
      let c = (note_iff f.genre "genre" "Genre is required" _).1 (v.genre, b) in
      let d = (note_iff f.isbn "isbn" "ISBN is required" _).1 (v.isbn, c) in
      (note_copies_iff f.total_copies _).1 (v.copies, d),
)

-- The form for a new member passes the checks exactly if it has an email and a password.
pub new_member_errors-nil_iff :
    (f : MemberForm)
    → (has_errors (new_member_errors f) ≡ false) ↔ (IsFilled f.email × IsFilled f.password)
unfolding new_member_errors
new_member_errors-nil_iff f = ground (
  arith,
  note_iff f.email "email" "Email is required" [],
  note_iff f.password "password" "Temp password is required"
      (note (is_missing f.email) "email" "Email is required" []),
)

-- The text beside a field that is missing.
abbrev pub beside : Bool → String → Option String
beside b message = if b then some message else none

note_copies_lem :
    (o : Option Number) (errs : Errors) → note_copies o errs ≡ errs ++ note_copies o []
note_copies_lem none errs = refl
note_copies_lem (some n) errs = ground (arith, append-nil errs)

-- The errors of a book form, by which of its four texts are missing.
abbrev errors_of : Bool → Bool → Bool → Bool → Option Number → Errors
errors_of a b c d copies =
    note d "isbn" "ISBN is required" (
      note c "genre" "Genre is required"
        (note b "author" "Author is required" (note a "title" "Title is required" [])))
    ++ note_copies copies []

-- The check of the copies says nothing beside another field.
copies-error_at :
    (key : String) (o : Option Number)
    → str_eq "total_copies" key ≡ false
    → error_at key (note_copies o []) ≡ none
copies-error_at key none h = rw h
copies-error_at key (some n) h = ground arith

module _ (a b c d : Bool) (o : Option Number) where
  errors_of-title : error_at "title" (errors_of a b c d o) ≡ beside a "Title is required"
  errors_of-title = ground (arith, copies-error_at "title" o refl)

  errors_of-author : error_at "author" (errors_of a b c d o) ≡ beside b "Author is required"
  errors_of-author = ground (arith, copies-error_at "author" o refl)

  errors_of-genre : error_at "genre" (errors_of a b c d o) ≡ beside c "Genre is required"
  errors_of-genre = ground (arith, copies-error_at "genre" o refl)

  errors_of-isbn : error_at "isbn" (errors_of a b c d o) ≡ beside d "ISBN is required"
  errors_of-isbn = ground (arith, copies-error_at "isbn" o refl)

  errors_of-copies :
      error_at "total_copies" (errors_of a b c d o) ≡ error_at "total_copies" (note_copies o [])
  errors_of-copies = ground arith

-- Each text stands beside its own field, and stands there exactly if that field is missing; the
-- number of copies has one of two texts, or none.
pub book_errors-error_at :
    (f : BookForm)
    → (error_at "title" (book_errors f) ≡ beside (is_missing f.title) "Title is required")
      × (error_at "author" (book_errors f) ≡ beside (is_missing f.author) "Author is required")
      × (error_at "genre" (book_errors f) ≡ beside (is_missing f.genre) "Genre is required")
      × (error_at "isbn" (book_errors f) ≡ beside (is_missing f.isbn) "ISBN is required")
      × (error_at "total_copies" (book_errors f)
          ≡ error_at "total_copies" (note_copies f.total_copies []))
unfolding book_errors
book_errors-error_at f =
    let o = f.total_copies in
    let (a, b, c, d) : Bool × Bool × Bool × Bool =
      (is_missing f.title, is_missing f.author, is_missing f.genre, is_missing f.isbn) in
    rw (note_copies_lem f.total_copies) (
      errors_of-title a b c d o,
      errors_of-author a b c d o,
      errors_of-genre a b c d o,
      errors_of-isbn a b c d o,
      errors_of-copies a b c d o,
    )
