-- ===== src/Paging/Bounds.antt =====
-- Page numbers stay in range, and the two buttons undo one another.
use ror_books_test.Prelude.{
  ◌-◌, max, List, [], ◌∷◌, length, ℕ, ◌+◌, ◌≤◌, ◌≡◌, ◌↔◌, ◌≢◌, none, arith,
}
use ror_books_test.Paging.Buttons.{page_size, pager, click_prev, click_next}

-- Whatever the table holds, a click never leads below page 1, and moves by at most one page.
pub click-bounds :
    (rows p : ℕ)
    → 1 ≤ p
    → (1 ≤ click_prev rows p)
      × (click_prev rows p ≤ p)
      × (p ≤ click_next rows p)
      × (click_next rows p ≤ p + 1)
unfolding click_prev click_next
click-bounds rows p h = ground arith

-- From any page, "Next" on a full table leads to the page after it, from where "Prev" leads back,
-- however many rows were found there: a page that turns out empty can be left.
pub prev-next :
    (rows p : ℕ)
    → 1 ≤ p
    → (click_next page_size p ≡ p + 1) × (click_prev rows (click_next page_size p) ≡ p)
unfolding click_prev click_next
prev-next rows p h = ground arith

-- "Next" works exactly when the pager stands and the table has at least a page of rows.
pub click_next-moves :
    (rows p : ℕ)
    → 1 ≤ p
    → (click_next rows p ≡ p + 1) ↔ ((pager p rows ≢ none) × (page_size ≤ rows))
unfolding click_next
click_next-moves rows p h = ground arith

-- The page after a click on "Prev" over each of some tables.
pub prev_over : List ℕ → ℕ → ℕ
prev_over [] p = p
prev_over (rows ∷ tables) p = prev_over tables (click_prev rows p)

prev_step : (rows p : ℕ) → 1 ≤ p → (1 ≤ click_prev rows p) × (click_prev rows p ≤ max 1 (p - 1))
unfolding click_prev
prev_step rows p h = ground (arith, h)

-- From any page, whatever the tables on the way hold, as many clicks on "Prev" as there are pages
-- before it lead to page 1, and further clicks stay there.
pub prev_over-one :
    (tables : List ℕ) (p : ℕ) → 1 ≤ p → p ≤ length tables + 1 → prev_over tables p ≡ 1
unfolding prev_over
prev_over-one [] p h enough = omega (arith, h, enough)
prev_over-one (rows ∷ tables) p h enough =
    let (low, down) = prev_step rows p h in
    prev_over-one tables (click_prev rows p) low (omega (arith, low, down, enough))
