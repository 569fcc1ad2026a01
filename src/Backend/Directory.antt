-- ===== src/Backend/Directory.antt =====
-- The lists of app/controllers/books_controller.rb and app/controllers/members_controller.rb, and
-- their single rows. In which order the database hands the rows of a table out is an argument: the
-- books are asked for without an order, and the members by a time that is not kept here.
use ror_books_test.Prelude.{
  ℕ, String, Option, none, some, Bool, ◌&&◌, List, map, keep, if◌then◌else◌,
}
use ror_books_test.Api.{User}
use ror_books_test.Backend.Tables.{
  Book, Database, Response, rendered, forbidden, not_found, is_librarian, is_member, find_book,
  find_member,
}
use ror_books_test.Backend.Lending.{can_borrow}
use ror_books_test.Backend.Listing.{page_rows}
use ror_books_test.Backend.Search.{Queries, text_or_empty, book_found, user_found}

-- A rendered book: the columns, and `can_borrow`.
pub record BookJson : Type 0 where
  pub book : Book
  pub can_borrow : Bool

unfoldable pub book_json : Option User → Database → Book → BookJson
book_json user db b = record { book = b; can_borrow = can_borrow user db b }

module _ (rb : Queries) where
  -- `BooksController#index`
  unfoldable pub books_index :
      (List Book → List Book) → User → Option String → ℕ → Database → List BookJson
  unfolding book_found page_rows book_json
  books_index arrange user q page db =
      map (book_json (some user) db) (page_rows page (arrange (keep (book_found rb q) db.books)))

  -- `BooksController#show`
  unfoldable pub show_book : User → ℕ → Database → Response BookJson
  unfolding book_json
  show_book user id db = elim (find_book id db) [
    | none ↦ not_found
    | some b ↦ rendered (book_json (some user) db b)
  ]

  -- The members that the list is cut from.
  abbrev pub is_found_member : Option String → User → Bool
  is_found_member q u = is_member u && user_found rb (rb.strip (text_or_empty q)) u

  -- `MembersController#index`
  unfoldable pub members_index :
      (List User → List User) → User → Option String → ℕ → Database → Response (List User)
  unfolding user_found page_rows
  members_index arrange user q page db =
      if is_librarian user
      then rendered (page_rows page (arrange (keep (is_found_member q) db.users)))
      else forbidden

  -- `MembersController#show`
  unfoldable pub show_member : User → ℕ → Database → Response User
  show_member user id db =
      if is_librarian user
      then elim (find_member id db) [ none ↦ not_found | some u ↦ rendered u ]
      else forbidden
