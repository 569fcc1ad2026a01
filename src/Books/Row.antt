-- ===== src/Books/Row.antt =====
-- `EditBookInline`: the two buttons of a row and its form.
use ror_books_test.Prelude.{
  ℕ, String, Option, none, some, Bool, true, false, List, [], ◌∷◌, ◌++◌, if◌then◌else◌,
}
use ror_books_test.Api.{Reply, ok, failed, Failure, Errors, map_errors, response_errors}
use ror_books_test.Forms.{BookForm, book_errors, has_errors}
use ror_books_test.Books.Defs.{Book}

pub record Editor : Type 0 where
  pub book : Book
  pub editing : Bool
  pub form : BookForm
  pub loading : Bool
  pub errors : Errors
  pub alerts : List String

-- The form that holds a book.
unfoldable pub form_of : Book → BookForm
form_of b = record {
  id = some b.id;
  title = some b.title;
  author = some b.author;
  genre = some b.genre;
  isbn = some b.isbn;
  total_copies = some b.total_copies;
}

unfoldable pub new_editor : Book → Editor
new_editor b = record {
  book = b;
  editing = false;
  form = form_of b;
  loading = false;
  errors = [];
  alerts = [];
}

-- "Edit"
unfoldable pub edit_clicked : Editor → Editor
edit_clicked e = record e { form = form_of e.book; editing = true }

unfoldable pub close_editor : Editor → Editor
close_editor e = record e { editing = false }

unfoldable pub edit_form : BookForm → Editor → Editor
edit_form form e = record e { form = form }

-- What a row asks of the server.
pub data Request : Type 0 where
  put_book : ℕ → BookForm → Request
  delete_book : ℕ → Request

-- A click on "Save", which does nothing while the row loads; then `onSave` up to its request.
unfoldable pub save_clicked : Editor → Editor × Option Request
save_clicked e =
    let errs = book_errors e.form in
    let checked = record e { errors = errs } in
    if e.loading
    then (e, none)
    else if has_errors errs
    then (checked, none)
    else (record checked { loading = true }, some (put_book e.book.id e.form))

abbrev save_failed : Option Errors → Editor → Editor
save_failed none e = record e { alerts = e.alerts ++ "Failed to save" ∷ [] }
save_failed (some errs) e = record e { errors = errs }

-- `onSave` from the answer on, with the book that is handed to `onChange`.
unfoldable pub save_answered : Reply (Option Book) → Editor → Editor × Option Book
save_answered (ok (some book)) e =
    (record e { editing = false; errors = []; loading = false }, some book)
save_answered (ok none) e = (
  record e { alerts = e.alerts ++ "Failed to save book: Invalid response" ∷ []; loading = false },
  none,
)
save_answered (failed f) e =
    let mapped : Option Errors = elim (response_errors f) [
      | none ↦ none
      | some errs ↦ some (map_errors errs)
    ] in
    let shown = save_failed mapped e in (record shown { loading = false }, none)

-- A click on "Delete", with the answer to `confirm`; `onRemove` up to its request.
unfoldable pub remove_clicked : Bool → Editor → Editor × Option Request
remove_clicked confirmed e =
    if e.loading
    then (e, none)
    else if confirmed
    then (record e { loading = true }, some (delete_book e.book.id))
    else (e, none)

-- `onRemove` from the answer on: the id that is handed to `onDelete`, or the error that is thrown.
unfoldable pub remove_answered : Reply (Unit {0}) → Editor → Editor × Option ℕ × Option Failure
remove_answered (ok _) e = (record e { loading = false }, some e.book.id, none)
remove_answered (failed f) e = (record e { loading = false }, none, some f)
