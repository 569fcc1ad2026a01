-- ===== src/Backend/Tables.antt =====
-- The tables of db/schema.rb and the answers of the controllers. The passwords, which Devise keeps,
-- and the two time stamps of each row are left out.
use ror_books_test.Prelude.{
  ℕ, ◌==◌, String, Option, none, some, Bool, true, false, List, find, if◌then◌else◌,
}
use ror_books_test.Api.{User, librarian, member, ErrorBody, many, Messages, Reply, ok, failed}
use ror_books_test.Dates.{Status}

pub record Book : Type 0 where
  pub id : ℕ
  pub title : String
  pub author : String
  pub genre : String
  pub isbn : String
  pub total_copies : ℕ

-- `due_date` is the number of a day, the two times are milliseconds.
pub record Borrowing : Type 0 where
  pub id : ℕ
  pub user_id : ℕ
  pub book_id : ℕ
  pub borrowed_at : ℕ
  pub due_date : ℕ
  pub returned_at : Option ℕ
  pub status : Status
  pub return_comment : Option String

-- The rows, and the next number of each sequence of ids.
pub record Database : Type 0 where
  pub books : List Book
  pub users : List User
  pub borrowings : List Borrowing
  pub next_book : ℕ
  pub next_user : ℕ
  pub next_borrowing : ℕ

-- What an action renders: a body, or a status from 400 on with a body of errors.
pub data Response (A : Type 0) : Type 0 where
  rendered : A → Response A
  refused : ℕ → ErrorBody → Response A

abbrev pub is_rendered : {A : Type 0} → Response A → Bool
is_rendered (rendered a) = true
is_rendered (refused status body) = false

abbrev pub error_body : String → ErrorBody
error_body text = record { error = some text; details = none; errors = none }

abbrev pub forbidden : {A : Type 0} → Response A
forbidden = refused 403 (error_body "Forbidden")

-- `rescue_from ActiveRecord::RecordNotFound`
abbrev pub not_found : {A : Type 0} → Response A
not_found = refused 404 (error_body "Not Found")

-- `rescue_from ActiveRecord::RecordInvalid`
unfoldable pub record_invalid : {A : Type 0} → List String → Response A
record_invalid full_messages = refused 422 (record {
  error = some "Unprocessable Entity";
  details = some (many full_messages);
  errors = none;
})

-- `render json: { errors: row.errors }`
unfoldable pub field_errors : {A : Type 0} → List (String × Messages) → Response A
field_errors errors = refused 422 (record { error = none; details = none; errors = some errors })

-- What the client's `catch` or `await` gets; axios words the message.
unfoldable pub receive : {A : Type 0} → (ℕ → String) → Response A → Reply A
receive axios_message (rendered a) = ok a
receive axios_message (refused status body) =
    failed (record { is_axios = true; body = some body; message = axios_message status })

-- `current_user.librarian?` and `current_user.member?`
abbrev pub is_librarian : User → Bool
is_librarian user = elim user.role [ librarian ↦ true | member ↦ false ]

abbrev pub is_member : User → Bool
is_member user = elim user.role [ librarian ↦ false | member ↦ true ]

-- `Model.find(id)`, `none` for `RecordNotFound`.
abbrev pub find_book : ℕ → Database → Option Book
find_book id db = find (λ b. b.id == id) db.books

abbrev pub find_borrowing : ℕ → Database → Option Borrowing
find_borrowing id db = find (λ b. b.id == id) db.borrowings

-- `User.member.find(id)`
abbrev pub find_member : ℕ → Database → Option User
find_member id db = find (λ u. if u.id == id then is_member u else false) db.users
