-- ===== src/Joint/Buttons.antt =====
-- The borrow buttons of frontend/src/pages/member/Books.tsx with the rows that `BooksController#index`
-- and `show` render.
use ror_books_test.Prelude.{
  ℕ, ◌≡◌, ◌↔◌, String, List, [], ◌∷◌, map, All, All-keep, Option, some, true, arith,
}
use ror_books_test.Api.{User}
use ror_books_test.MemberPages.{actions_cell, borrow_button, not_available}
use ror_books_test.MemberPages as Pages
use ror_books_test.Backend.{
  Book, Database, is_member, find_book, create_borrowing, is_rendered, BookJson, book_json,
  books_index, Queries, book_found,
}
use ror_books_test.Backend.Pages.{All-page_rows}
use ror_books_test.Backend.Eligible.{can_borrow-create}

-- What the page reads of a rendered book.
abbrev pub book_of : BookJson → Pages.Book
book_of row = record {
  id = row.book.id;
  title = row.book.title;
  author = row.book.author;
  genre = row.book.genre;
  isbn = row.book.isbn;
  can_borrow = row.can_borrow;
}

cell_iff : (b : Pages.Book) → (actions_cell b ≡ borrow_button b.id) ↔ (b.can_borrow ≡ true)
unfolding actions_cell
cell_iff b = ground arith

-- The cell of a rendered book offers a borrowing exactly if it is accepted.
abbrev pub IsOffered : ℕ → User → Database → BookJson → Type 0
IsOffered now user db row =
    (actions_cell (book_of row) ≡ borrow_button row.book.id)
    ↔ (is_rendered (create_borrowing now user row.book.id db).0 ≡ true)

pub actions_cell-create :
    (now : ℕ) (user : User) (db : Database) (book : Book)
    → is_member user ≡ true
    → find_book book.id db ≡ some book
    → IsOffered now user db (book_json (some user) db book)
unfolding book_json
actions_cell-create now user db book member found =
    let cell = cell_iff (book_of (book_json (some user) db book)) in
    let accepted = can_borrow-create now user book.id db book member found in
    (λ h. accepted.0 (cell.0 h), λ h. cell.1 (accepted.1 h))

module _ (now : ℕ) (user : User) (db : Database) (member : is_member user ≡ true) where
  map-IsOffered :
      (bs : List Book)
      → All (λ b. find_book b.id db ≡ some b) bs
      → All (IsOffered now user db) (map (book_json (some user) db) bs)
  map-IsOffered [] h = tt
  map-IsOffered (b ∷ bs) h = (actions_cell-create now user db b member h.0, map-IsOffered bs h.1)

-- Every row that the list of books shows to a member, on any page and for any search, has a borrow
-- button exactly if a request to borrow the book is accepted, as long as the tables stay as they
-- are; where each book is found by its id, and the database hands out rows of the table only.
pub books_index-IsOffered :
    (rb : Queries) (arrange : List Book → List Book) (now : ℕ) (user : User) (q : Option String)
    (page : ℕ) (db : Database)
    → ((P : Book → Type 0) (bs : List Book) → All P bs → All P (arrange bs))
    → All (λ b. find_book b.id db ≡ some b) db.books
    → is_member user ≡ true
    → All (IsOffered now user db) (books_index rb arrange user q page db)
unfolding books_index
books_index-IsOffered rb arrange now user q page db only keyed member =
    let IsKeyed : Book → Type 0 = λ b. find_book b.id db ≡ some b in
    let searched = All-keep IsKeyed IsKeyed (book_found rb q) (λ b pass k. k) db.books keyed in
    let arranged = only IsKeyed _ searched in
    map-IsOffered now user db member _ (All-page_rows page _ IsKeyed arranged)
