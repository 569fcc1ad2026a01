-- ===== src/Backend/Pages.antt =====
-- What holds of a page of a list.
use ror_books_test.Prelude.{
  ℕ, ◌-◌, ◌*◌, ◌≤◌, List, All, All-take, All-drop, drop, length, length-take_le,
}
use ror_books_test.Backend.Listing.{per_page, page_number, page_rows}

module _ {A : Type 0} (page : ℕ) (xs : List A) where
  abbrev rest : List A
  rest = drop ((page_number page - 1) * per_page) xs

  pub All-page_rows : (P : A → Type 0) → All P xs → All P (page_rows page xs)
  unfolding page_rows
  All-page_rows P h = All-take P per_page rest (All-drop P ((page_number page - 1) * per_page) xs h)

  pub length-page_rows_le : length (page_rows page xs) ≤ 25
  unfolding page_rows
  length-page_rows_le = length-take_le per_page rest
