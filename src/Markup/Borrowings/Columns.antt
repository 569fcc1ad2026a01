-- ===== src/Markup/Borrowings/Columns.antt =====
-- The rows of the two tables against their headers.
use ror_books_test.Prelude.{ℕ, ◌≡◌, refl, Option, Bool-cases, map, inl, inr}
use ror_books_test.Api.{User}
use ror_books_test.Dashboards.{is_librarian}
use ror_books_test.Borrowings.{Filters, Borrowing}
use ror_books_test.MemberPages as Member
use ror_books_test.Markup.Tables.{total}
use ror_books_test.Markup.Borrowings.Filters.{borrowed_head, due_head, book_cells}
use ror_books_test.Markup.Borrowings.Desk.{heads, cells, return_cell, member_heads, member_cells}

-- In both roles every row of the librarian's page has a cell under each header, with the width of
-- the header, and the headers share out the whole width of the table.
pub cells-heads :
    (user : Option User) (f : Filters) (now : ℕ) (it : Borrowing)
    → (map (λ c. c.width) (cells user now it) ≡ map (λ c. c.width) (heads user f))
      × (total (heads user f) ≡ 100)
unfolding cells heads total borrowed_head due_head book_cells return_cell
cells-heads user f now it = elim (Bool-cases (is_librarian user)) [
  | inl e ↦ rw e (refl, refl)
  | inr e ↦ rw e (refl, refl)
]

-- So has every row of the member's page, whose headers leave 8 percent of the width.
pub member_cells-member_heads :
    (f : Filters) (now : ℕ) (it : Member.Borrowing)
    → (map (λ c. c.width) (member_cells now it) ≡ map (λ c. c.width) (member_heads f))
      × (total (member_heads f) ≡ 92)
unfolding member_cells member_heads total borrowed_head due_head book_cells
member_cells-member_heads f now it = (refl, refl)
