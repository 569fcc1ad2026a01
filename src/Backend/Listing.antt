-- ===== src/Backend/Listing.antt =====
-- The pages of a list: `limit(25).offset((page - 1) * 25)` with the parameter `page`, which is 1
-- where it is not sent, is no number or is not above 0.
use ror_books_test.Prelude.{ℕ, ◌-◌, ◌*◌, ◌==◌, List, take, drop, if◌then◌else◌}

abbrev pub per_page : ℕ
per_page = 25

-- `page = 1 if page <= 0`
abbrev pub page_number : ℕ → ℕ
page_number page = if page == 0 then 1 else page

unfoldable pub page_rows : {A : Type 0} → ℕ → List A → List A
page_rows page rows = take per_page (drop ((page_number page - 1) * per_page) rows)
