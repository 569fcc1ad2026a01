-- ===== src/Backend/Tops.antt =====
-- The lists of app/controllers/dashboards_controller.rb. `arrange` is the order in which the database
-- hands out rows that the query does not order, and so the order among equals; the times of creation
-- are not kept, and the order by them is an argument as well.
use ror_books_test.Prelude.{
  ℕ, ◌==◌, ◌≡◌, ◌∙◌, leb, String, str_eq, some, Bool, List, [], ◌∷◌, map, any, count, take, arith,
  if◌then◌else◌,
}
use ror_books_test.Prelude.Sorting.{sort_by, IsSorted, count-sort_by, sort_by-IsSorted}
use ror_books_test.Api.{User}
use ror_books_test.Backend.Tables.{Book, Borrowing, Database}
use ror_books_test.Backend.Lending.{can_borrow}
use ror_books_test.Backend.Figures.{borrowings_of}

-- `COUNT(borrowings.id)` of a book, whatever the status.
abbrev pub borrowings_count : Database → Book → ℕ
borrowings_count db b = count (λ o. o.book_id == b.id) db.borrowings

-- `order(COUNT(borrowings.id) DESC)`
abbrev pub more_borrowed : Database → Book → Book → Bool
more_borrowed db a b = leb (borrowings_count db b) (borrowings_count db a)

unfoldable pub ranked_books : (List Book → List Book) → Database → List Book
unfolding sort_by
ranked_books arrange db = sort_by (more_borrowed db) (arrange db.books)

-- An entry of `top_books`.
pub record TopBook : Type 0 where
  pub book : Book
  pub borrowings_count : ℕ
  pub can_borrow : Bool

unfoldable pub top_books : (List Book → List Book) → User → Database → List TopBook
unfolding ranked_books
top_books arrange user db =
    map
      (λ b. record {
        book = b;
        borrowings_count = borrowings_count db b;
        can_borrow = can_borrow (some user) db b;
      })
      (take 5 (ranked_books arrange db))

-- The genres of the rows, each once.
abbrev distinct_from : List String → List String → List String
distinct_from seen [] = []
distinct_from seen (g ∷ gs) =
    let with_g = distinct_from (g ∷ seen) gs in
    let without_g = distinct_from seen gs in if any (str_eq g) seen then without_g else with_g

abbrev pub genre_count : Database → String → ℕ
genre_count db g = count (λ b. str_eq b.genre g) db.books

-- `Book.group(:genre).order('count_all desc').limit(5).count`
unfoldable pub top_genres : (List String → List String) → Database → List (String × ℕ)
unfolding sort_by
top_genres arrange db =
    map (λ g. (g, genre_count db g))
      (take 5 (
        sort_by (λ a b. leb (genre_count db b) (genre_count db a))
          (arrange (distinct_from [] (map (λ b. b.genre) db.books)))))

-- `Borrowing.order(created_at: :desc).limit(5)`, by an argument that orders by that time.
unfoldable pub recent_borrowings : (List Borrowing → List Borrowing) → Database → List Borrowing
recent_borrowings newest_first db = take 5 (newest_first db.borrowings)

-- `current_user.borrowings.order(created_at: :desc).limit(20)`
unfoldable pub history : (List Borrowing → List Borrowing) → User → Database → List Borrowing
history newest_first user db = take 20 (newest_first (borrowings_of user db))

-- The top books are cut from a list of all the books in which nobody stands behind a book that was
-- borrowed less, whatever the database does among equals.
pub ranked_books-IsSorted :
    (arrange : List Book → List Book) (db : Database)
    → ((q : Book → Bool) (bs : List Book) → count q (arrange bs) ≡ count q bs)
    → IsSorted (more_borrowed db) (ranked_books arrange db)
      × ((q : Book → Bool) → count q (ranked_books arrange db) ≡ count q db.books)
unfolding ranked_books
ranked_books-IsSorted arrange db same = (
  sort_by-IsSorted (more_borrowed db) (λ a b h. ground (arith, h))
      (λ a b c h k. ground (arith, h, k)) (arrange db.books),
  λ q. count-sort_by (more_borrowed db) q (arrange db.books) ∙ same q db.books,
)
