-- ===== src/Backend/Catalogue.antt =====
-- The actions of app/controllers/books_controller.rb that write, and the validations of a book.
use ror_books_test.Prelude.{
  ℕ, ◌+◌, ◌/◌, ◌%◌, ◌^◌, ◌==◌, leb, String, str_eq, Option, none, some, Bool, true, false, not,
  ◌&&◌, List, [], ◌∷◌, ◌++◌, map, any, keep, if◌then◌else◌,
}
use ror_books_test.Api.{User, Messages, listed}
use ror_books_test.Forms.{BookForm, Number, nan, infinity, decimal}
use ror_books_test.Backend.Tables.{
  Book, Database, Response, rendered, refused, forbidden, not_found, field_errors, is_librarian,
  find_book,
}

-- A number of copies in the body of a request: not sent, `null`, or ±digits / 10^scale.
pub data Copies : Type 0 where
  absent null : Copies
  number : (negative : Bool) (digits scale : ℕ) → Copies

-- `params.require(:book).permit(…)`, with `none` for a text that is not sent.
pub record BookParams : Type 0 where
  pub title : Option String
  pub author : Option String
  pub genre : Option String
  pub isbn : Option String
  pub total_copies : Copies

-- `JSON.stringify` drops what is undefined, and writes `null` for what is no finite number.
abbrev pub copies_sent : Option Number → Copies
copies_sent none = absent
copies_sent (some nan) = null
copies_sent (some (infinity negative)) = null
copies_sent (some (decimal negative digits scale)) = number negative digits scale

abbrev pub sent : BookForm → BookParams
sent f = record {
  title = f.title;
  author = f.author;
  genre = f.genre;
  isbn = f.isbn;
  total_copies = copies_sent f.total_copies;
}

abbrev pub is_whole : ℕ → ℕ → Bool
is_whole digits scale = digits % 10 ^ scale == 0

-- The validation of `total_copies`; a new row has the column's default, 1.
unfoldable pub copies_errors : Copies → List String
copies_errors absent = []
copies_errors null = "is not a number" ∷ []
copies_errors (number negative digits scale) =
    if not (is_whole digits scale)
    then "must be an integer" ∷ []
    else if negative && not (digits == 0)
    then "must be greater than or equal to 0" ∷ []
    else []

-- The largest integer of the column.
abbrev pub max_integer : ℕ
max_integer = 2147483647

-- `ActiveModel::RangeError`, which nobody rescues; its body is up to Rails.
abbrev out_of_range : {A : Type 0} → Response A
out_of_range = refused 500 (record { error = none; details = none; errors = none })

abbrev pub copies_value : Copies → ℕ
copies_value absent = 1
copies_value null = 0
copies_value (number negative digits scale) = digits / 10 ^ scale

-- Whether a row has the ISBN.
abbrev pub is_taken : Option String → Database → Bool
is_taken none db = false
is_taken (some isbn) db = any (λ b. str_eq b.isbn isbn) db.books

abbrev pub under : String → List String → List (String × Messages)
under key [] = []
under key (m ∷ ms) = (key, listed (m ∷ ms)) ∷ []

abbrev text_of : Option String → String
text_of none = ""
text_of (some text) = text

unfoldable pub new_book : BookParams → Database → Book
new_book p db = record {
  id = db.next_book;
  title = text_of p.title;
  author = text_of p.author;
  genre = text_of p.genre;
  isbn = text_of p.isbn;
  total_copies = copies_value p.total_copies;
}

-- `book.save`, by the errors: a number above the column's range is an error that nobody rescues.
unfoldable pub save_book :
    List (String × Messages) → BookParams → Database → Response Book × Database
unfolding new_book field_errors
save_book (e ∷ es) p db = (field_errors (e ∷ es), db)
save_book [] p db =
    let row = new_book p db in
    if leb row.total_copies max_integer
    then (rendered row, record db { books = db.books ++ row ∷ []; next_book = db.next_book + 1 })
    else (out_of_range, db)

-- What a row holds after the assignment of the fields that are sent.
abbrev assigned : Option String → String → String
assigned none old = old
assigned (some text) old = text

unfoldable pub assign_book : BookParams → Book → Book
assign_book p b = record b {
  title = assigned p.title b.title;
  author = assigned p.author b.author;
  genre = assigned p.genre b.genre;
  isbn = assigned p.isbn b.isbn;
  total_copies = elim p.total_copies [
    | absent ↦ b.total_copies
    | null ↦ b.total_copies
    | number negative digits scale ↦ digits / 10 ^ scale
  ];
}

unfoldable pub save_changed : List (String × Messages) → Book → Database → Response Book × Database
unfolding field_errors
save_changed (e ∷ es) b db = (field_errors (e ∷ es), db)
save_changed [] b db =
    if leb b.total_copies max_integer
    then (rendered b, record db { books = map (λ o. if o.id == b.id then b else o) db.books })
    else (out_of_range, db)

module _ (blank : String → Bool) where
  abbrev pub is_blank_param : Option String → Bool
  is_blank_param none = true
  is_blank_param (some text) = blank text

  abbrev pub presence_errors : Option String → List String
  presence_errors o = if is_blank_param o then "can't be blank" ∷ [] else []

  -- `book.errors` of a new row.
  unfoldable pub new_book_errors : BookParams → Database → List (String × Messages)
  unfolding copies_errors
  new_book_errors p db =
      under "title" (presence_errors p.title)
      ++ (under "author" (presence_errors p.author)
          ++ (under "genre" (presence_errors p.genre)
              ++ (under "isbn" (
                    presence_errors p.isbn
                    ++ (if is_taken p.isbn db then "has already been taken" ∷ [] else []))
                  ++ under "total_copies" (copies_errors p.total_copies))))

  -- `BooksController#create`
  unfoldable pub create_book : User → BookParams → Database → Response Book × Database
  unfolding save_book new_book_errors
  create_book user p db =
      if is_librarian user then save_book (new_book_errors p db) p db else (forbidden, db)

  -- `@book.errors` of a row after the assignment; another row must not have its ISBN.
  unfoldable pub changed_book_errors : BookParams → Book → Database → List (String × Messages)
  unfolding copies_errors
  changed_book_errors p b db =
      under "title" (presence_errors (some b.title))
      ++ (under "author" (presence_errors (some b.author))
          ++ (under "genre" (presence_errors (some b.genre))
              ++ (under "isbn" (
                    presence_errors (some b.isbn)
                    ++ (if any (λ o. not (o.id == b.id) && str_eq o.isbn b.isbn) db.books
                        then "has already been taken" ∷ []
                        else []))
                  ++ under "total_copies" (copies_errors p.total_copies))))

  abbrev pub update_found_book : BookParams → Option Book → Database → Response Book × Database
  update_found_book p none db = (not_found, db)
  update_found_book p (some b) db =
      let changed = assign_book p b in save_changed (changed_book_errors p changed db) changed db

  -- `BooksController#update`
  unfoldable pub update_book : User → ℕ → BookParams → Database → Response Book × Database
  unfolding save_changed changed_book_errors assign_book
  update_book user id p db =
      if is_librarian user then update_found_book p (find_book id db) db else (forbidden, db)

abbrev pub destroy_found_book : Option Book → Database → Response (Unit {0}) × Database
destroy_found_book none db = (not_found, db)
destroy_found_book (some b) db = (
  rendered tt,
  record db {
    books = keep (λ o. not (o.id == b.id)) db.books;
    borrowings = keep (λ o. not (o.book_id == b.id)) db.borrowings;
  },
)

-- `BooksController#destroy`, with the borrowings of the book (`dependent: :destroy`).
unfoldable pub destroy_book : User → ℕ → Database → Response (Unit {0}) × Database
destroy_book user id db =
    if is_librarian user then destroy_found_book (find_book id db) db else (forbidden, db)
