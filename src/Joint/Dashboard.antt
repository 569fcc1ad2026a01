-- ===== src/Joint/Dashboard.antt =====
-- The borrow buttons that frontend/src/pages/member/Dashboard.tsx renders from the answers of
-- `DashboardsController#member` and, for its search, of `BooksController#index`.
use ror_books_test.Prelude.{
  ℕ, ◌≡◌, refl, ◌∙◌, String, Option, some, Bool, true, List, [], ◌∷◌, ◌++◌, map, keep, All,
  All-take, take, arith, truthy,
}
use ror_books_test.Prelude.Sorting.{All-sort_by}
use ror_books_test.Api.{User}
use ror_books_test.Dates.{Zone}
use ror_books_test.MemberPages.{actions_cell}
use ror_books_test.QuickSearch.{Box, shown}
use ror_books_test.Dashboards.{TopBook, BookResult, MemberData}
use ror_books_test.Backend as Server
use ror_books_test.Backend.{
  Book, Database, is_member, find_book, create_borrowing, is_rendered, BookJson, book_json,
  books_index, Queries, top_books, ranked_books, more_borrowed, borrowings_count, can_borrow,
}
use ror_books_test.Backend.Eligible.{can_borrow-create}
use ror_books_test.Joint.Buttons.{IsOffered, books_index-IsOffered}
use ror_books_test.Joint.Offers.{is_accepted}
use ror_books_test.Markup.Nodes.{gather, borrows}
use ror_books_test.Markup.MemberDashboard.{member_dashboard}
use ror_books_test.Markup.MemberDashboard.Offers.{member_dashboard-IsOffering}

-- What the page reads of an entry of `top_books`, and of a rendered book.
abbrev pub top_of : Server.TopBook → TopBook
top_of t = record {
  id = t.book.id;
  title = t.book.title;
  author = t.book.author;
  genre = some t.book.genre;
  borrowings_count = t.borrowings_count;
  can_borrow = t.can_borrow;
}

abbrev pub result_of : BookJson → BookResult
result_of row = record {
  id = row.book.id;
  title = row.book.title;
  author = row.book.author;
  can_borrow = row.can_borrow;
}

abbrev pub is_top_accepted : ℕ → User → Database → Server.TopBook → Bool
is_top_accepted now user db t = is_rendered (create_borrowing now user t.book.id db).0

-- The page's data with the top books that the server renders.
abbrev pub with_tops : List Server.TopBook → MemberData → MemberData
with_tops tops d = record d { top_books = map top_of tops }

-- The search box with the results that the server renders.
abbrev pub with_results : List BookJson → Box BookResult → Box BookResult
with_results rows b = record b { results = map result_of rows }

-- What the results on the screen of a box are.
found_rows :
    (rows : List BookJson) (b : Box BookResult)
    → truthy b.q ≡ true
    → shown (with_results rows b) ≡ some (map result_of rows)
unfolding shown
found_rows rows b h = rw h refl

offered_results :
    (now : ℕ) (user : User) (db : Database) (rows : List BookJson)
    → All (IsOffered now user db) rows
    → map (λ b. b.id) (keep (λ b. b.can_borrow) (map result_of rows))
      ≡ map (λ row. row.book.id) (keep (is_accepted now user db) rows)
unfolding actions_cell
offered_results now user db [] h = refl
offered_results now user db (row ∷ rows) h =
    ground (arith, h.0, offered_results now user db rows h.1)

module _ (now : ℕ) (user : User) (db : Database) (member : is_member user ≡ true) where
  abbrev IsKeyed : Book → Type 0
  IsKeyed b = find_book b.id db ≡ some b

  abbrev entry : Book → Server.TopBook
  entry b = record {
    book = b;
    borrowings_count = borrowings_count db b;
    can_borrow = can_borrow (some user) db b;
  }

  offered_tops :
      (bs : List Book)
      → All IsKeyed bs
      → map (λ b. b.id) (keep (λ b. b.can_borrow) (map top_of (map entry bs)))
        ≡ map (λ t. t.book.id) (keep (is_top_accepted now user db) (map entry bs))
  offered_tops [] h = refl
  offered_tops (b ∷ bs) h =
      ground (arith, can_borrow-create now user b.id db b member h.0, offered_tops bs h.1)

  -- The borrow buttons on the rendered dashboard of a member, with a text in the search box and the
  -- answers of the server to it and to the dashboard, are those for the books found and then for
  -- the top books whose request to borrow is accepted as long as the tables stay as they are, in the
  -- order of the answers; where each book is found by its id, and the database hands out rows of
  -- the table only.
  pub member_dashboard-served :
      (rb : Queries) (arrange : List Book → List Book) (q : Option String) (page : ℕ) (z : Zone)
      (d : MemberData) (box : Box BookResult)
      → ((P : Book → Type 0) (bs : List Book) → All P bs → All P (arrange bs))
      → All (λ b. find_book b.id db ≡ some b) db.books
      → truthy box.q ≡ true
      → let rows = books_index rb arrange user q page db in
        let tops = top_books arrange user db in
        gather borrows (member_dashboard z now (some (with_tops tops d)) (with_results rows box))
        ≡ map (λ row. row.book.id) (keep (is_accepted now user db) rows)
          ++ map (λ t. t.book.id) (keep (is_top_accepted now user db) tops)
  unfolding top_books ranked_books
  member_dashboard-served rb arrange q page z d box only keyed typed =
      let rows = books_index rb arrange user q page db in
      let tops = top_books arrange user db in
      let ranked =
        All-sort_by (more_borrowed db) IsKeyed (arrange db.books) (only IsKeyed db.books keyed) in
      let page_ =
        (member_dashboard-IsOffering z now (with_tops tops d) (with_results rows box)).0 in
      let offered = books_index-IsOffered rb arrange now user q page db only keyed member in
      page_
      ∙ (rw
          (
            found_rows rows box typed,
            offered_results now user db rows offered,
            offered_tops (take 5 (ranked_books arrange db)) (All-take IsKeyed 5 _ ranked),
          )
          refl)
