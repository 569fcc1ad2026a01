-- ===== src/Forms/Fields.antt =====
-- The fields of the book and member forms, and their checks. A field of a `Partial<…>` that is not
-- there is `none`.
use ror_books_test.Prelude.{
  ℕ, String, Option, none, some, [], ◌∷◌, ◌++◌, Bool, true, false, not, ◌&&◌, ◌||◌, truthy, trim,
  ◌==◌, str_eq, if◌then◌else◌,
}
use ror_books_test.Api.{Errors}

-- A JavaScript number: NaN, an infinity, or ±digits / 10^scale.
pub data Number : Type 0 where
  nan : Number
  infinity : (negative : Bool) → Number
  decimal : (negative : Bool) (digits scale : ℕ) → Number

-- `Number.isNaN(n)`
abbrev pub is_nan : Number → Bool
is_nan nan = true
is_nan (infinity negative) = false
is_nan (decimal negative digits scale) = false

-- `n < 0`, which neither NaN nor -0 is.
abbrev pub is_below_zero : Number → Bool
is_below_zero nan = false
is_below_zero (infinity negative) = negative
is_below_zero (decimal negative digits scale) = negative && not (digits == 0)

-- A whole number that is not negative.
abbrev pub whole : ℕ → Number
whole n = decimal false n 0

-- `!text || !text.trim()`
abbrev pub is_missing : Option String → Bool
is_missing none = true
is_missing (some text) = not (truthy text) || not (truthy (trim text))

-- `if (failed) errs[key] = message`, where `key` is not yet there.
abbrev pub note : Bool → String → String → Errors → Errors
note true key message errs = errs ++ (key, some message) ∷ []
note false key message errs = errs

-- `Partial<Book>`
pub record BookForm : Type 0 where
  pub id : Option ℕ
  pub title : Option String
  pub author : Option String
  pub genre : Option String
  pub isbn : Option String
  pub total_copies : Option Number

-- The two branches of the check of `total_copies`.
abbrev pub note_copies : Option Number → Errors → Errors
note_copies none errs = note true "total_copies" "Copies must be a number" errs
note_copies (some n) errs =
    if is_nan n
    then note true "total_copies" "Copies must be a number" errs
    else note (is_below_zero n) "total_copies" "Copies must be 0 or more" errs

-- The errors that "Create" and "Save" collect for a book.
unfoldable pub book_errors : BookForm → Errors
book_errors f =
    let a = note (is_missing f.title) "title" "Title is required" [] in
    let b = note (is_missing f.author) "author" "Author is required" a in
    let c = note (is_missing f.genre) "genre" "Genre is required" b in
    let d = note (is_missing f.isbn) "isbn" "ISBN is required" c in note_copies f.total_copies d

-- `Partial<Member> & { password?: string }`
pub record MemberForm : Type 0 where
  pub id : Option ℕ
  pub email : Option String
  pub first_name : Option String
  pub last_name : Option String
  pub password : Option String

-- The errors that "Create" collects for a member.
unfoldable pub new_member_errors : MemberForm → Errors
new_member_errors f =
    let a = note (is_missing f.email) "email" "Email is required" [] in
    note (is_missing f.password) "password" "Temp password is required" a

-- The errors that "Save" collects in a member's row.
unfoldable pub member_errors : MemberForm → Errors
member_errors f = note (is_missing f.email) "email" "Email is required" []

-- `Object.keys(errs).length > 0`
abbrev pub has_errors : Errors → Bool
has_errors [] = false
has_errors (e ∷ es) = true

-- `errors[key]`, `none` for undefined.
abbrev pub error_at : String → Errors → Option String
error_at key [] = none
error_at key ((k, message) ∷ rest) = if str_eq k key then message else error_at key rest
