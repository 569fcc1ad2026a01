-- ===== src/Backend/Listed.antt =====
-- Which borrowings a user is shown, and in which order.
pub mod Asked
use ror_books_test.Prelude.{
  ◌≤◌, ◌≡◌, refl, ◌∙◌, Bool, true, false, ◌&&◌, List, [], ◌∷◌, keep, count, All, All-kept, length,
  arith,
}
use ror_books_test.Prelude.Sorting.{IsSorted, count-sort_by, All-sort_by, sort_by-IsSorted}
use ror_books_test.Api.{User}
use ror_books_test.Backend.Tables.{Borrowing, Database, is_librarian}
use ror_books_test.Backend.Pages.{All-page_rows, length-page_rows_le}
use ror_books_test.Backend.Search.{Queries}
use ror_books_test.Backend.Index.{
  IndexParams, Ordering, row_le, ordering_of, is_listed, listed_rows, index,
}

row_le_total : (o : Ordering) (a b : Borrowing) → row_le o a b ≡ false → row_le o b a ≡ true
unfolding row_le
row_le_total o a b h = ground (arith, h)

row_le_trans :
    (o : Ordering) (a b c : Borrowing)
    → row_le o a b ≡ true
    → row_le o b c ≡ true
    → row_le o a c ≡ true
unfolding row_le
row_le_trans o a b c h k = ground (arith, h, k)

count-keep :
    (p q : Borrowing → Bool) (bs : List Borrowing)
    → count q (keep p bs) ≡ count (λ b. p b && q b) bs
count-keep p q [] = refl
count-keep p q (b ∷ bs) = ground (arith, count-keep p q bs)

module _ (rb : Queries) (user : User) (p : IndexParams) (db : Database) where
  is_listed-own :
      (b : Borrowing)
      → is_librarian user ≡ false
      → is_listed rb user p db b ≡ true
      → b.user_id ≡ user.id
  unfolding is_listed
  is_listed-own b plain h = ground (arith, plain, h)

  rows-own :
      (bs : List Borrowing)
      → is_librarian user ≡ false
      → All (λ b. is_listed rb user p db b ≡ true) bs
      → All (λ b. b.user_id ≡ user.id) bs
  rows-own [] plain h = tt
  rows-own (b ∷ bs) plain h = (is_listed-own b plain h.0, rows-own bs plain h.1)

  -- Whatever a member asks for, the answer holds borrowings of that member alone, at most 25.
  pub index-own :
      is_librarian user ≡ false
      → All (λ b. b.user_id ≡ user.id) (index rb user p db) × (length (index rb user p db) ≤ 25)
  unfolding index listed_rows
  index-own plain =
      let kept = All-kept (is_listed rb user p db) db.borrowings in
      let own = rows-own (keep (is_listed rb user p db) db.borrowings) plain kept in
      let sorted =
        All-sort_by (row_le (ordering_of rb p)) (λ b. b.user_id ≡ user.id)
          (keep (is_listed rb user p db) db.borrowings) own in
      (
        All-page_rows p.page _ (λ b. b.user_id ≡ user.id) sorted,
        length-page_rows_le p.page (listed_rows rb user p db),
      )

  -- The rows that pass the filters, sorted.
  pub rows_lem :
      IsSorted (row_le (ordering_of rb p)) (listed_rows rb user p db)
      × ((q : Borrowing → Bool)
          → count q (listed_rows rb user p db)
            ≡ count (λ b. is_listed rb user p db b && q b) db.borrowings)
  unfolding listed_rows
  rows_lem = (
    sort_by-IsSorted (row_le (ordering_of rb p)) (row_le_total (ordering_of rb p))
        (row_le_trans (ordering_of rb p)) (keep (is_listed rb user p db) db.borrowings),
    λ q.
        count-sort_by (row_le (ordering_of rb p)) q (keep (is_listed rb user p db) db.borrowings)
        ∙ count-keep (is_listed rb user p db) q db.borrowings,
  )
