-- ===== src/Joint/Offers.antt =====
-- The borrow buttons that frontend/src/pages/member/Books.tsx renders from the answer of
-- `BooksController#index`.
use ror_books_test.Prelude.{
  ℕ, ◌≡◌, refl, ◌∙◌, String, Option, some, Bool, true, List, [], ◌∷◌, map, keep, All, arith,
}
use ror_books_test.Api.{User}
use ror_books_test.Paging.{Search}
use ror_books_test.MemberPages.{actions_cell}
use ror_books_test.Backend.{
  Book, Database, is_member, find_book, create_borrowing, is_rendered, BookJson, books_index,
  Queries,
}
use ror_books_test.Joint.Buttons.{book_of, IsOffered, books_index-IsOffered}
use ror_books_test.Markup.Nodes.{gather, borrows}
use ror_books_test.Markup.MemberBooks.{books_page}
use ror_books_test.Markup.MemberBooks.Offers.{books_page-borrows}

-- Whether a request to borrow the book of a row is accepted.
abbrev pub is_accepted : ℕ → User → Database → BookJson → Bool
is_accepted now user db row = is_rendered (create_borrowing now user row.book.id db).0

offered_rows :
    (now : ℕ) (user : User) (db : Database) (rows : List BookJson)
    → All (IsOffered now user db) rows
    → map (λ b. b.id) (keep (λ b. b.can_borrow) (map book_of rows))
      ≡ map (λ row. row.book.id) (keep (is_accepted now user db) rows)
unfolding actions_cell
offered_rows now user db [] h = refl
offered_rows now user db (row ∷ rows) h = ground (arith, h.0, offered_rows now user db rows h.1)

-- The borrow buttons on the rendered page of books, whichever page of whichever search the server has
-- answered for a member, are those for the books whose request to borrow is accepted as long as the
-- tables stay as they are, in the order of the answer; where each book is found by its id, and the
-- database hands out rows of the table only.
pub books_page-books_index :
    (rb : Queries) (arrange : List Book → List Book) (now : ℕ) (user : User) (q : Option String)
    (page : ℕ) (db : Database) (s : Search)
    → ((P : Book → Type 0) (bs : List Book) → All P bs → All P (arrange bs))
    → All (λ b. find_book b.id db ≡ some b) db.books
    → is_member user ≡ true
    → let rows = books_index rb arrange user q page db in
      gather borrows (books_page s (map book_of rows))
      ≡ map (λ row. row.book.id) (keep (is_accepted now user db) rows)
books_page-books_index rb arrange now user q page db s only keyed member =
    let rows = books_index rb arrange user q page db in
    books_page-borrows s (map book_of rows)
    ∙ offered_rows now user db rows
        (books_index-IsOffered rb arrange now user q page db only keyed member)
