-- ===== src/Backend/Figures.antt =====
-- The figures of app/controllers/dashboards_controller.rb.
use ror_books_test.Prelude.{
  ℕ, ◌+◌, ◌/◌, ◌==◌, leb, Bool, true, false, ◌&&◌, ◌||◌, List, count, keep, length, if◌then◌else◌,
}
use ror_books_test.Api.{User}
use ror_books_test.Dates.{day_ms, Status, borrowed, returned, overdue}
use ror_books_test.Backend.Tables.{
  Borrowing, Database, Response, rendered, forbidden, is_librarian, is_member,
}
use ror_books_test.Backend.Lending.{is_borrowed}

abbrev pub is_overdue : Status → Bool
is_overdue overdue = true
is_overdue borrowed = false
is_overdue returned = false

-- `where(due_date: today..(today + 3.days), status: :borrowed)`
abbrev pub is_due_soon : ℕ → Borrowing → Bool
is_due_soon today b = is_borrowed b.status && (leb today b.due_date && leb b.due_date (today + 3))

pub record LibrarianFigures : Type 0 where
  pub total_books : ℕ
  pub currently_borrowed : ℕ
  pub due_today : ℕ
  pub overdue_books_count : ℕ

-- `data` of `librarian`
unfoldable pub librarian_counts : ℕ → Database → LibrarianFigures
librarian_counts now db = record {
  total_books = length db.books;
  currently_borrowed = count (λ b. is_borrowed b.status) db.borrowings;
  due_today = count (is_due_soon (now / day_ms)) db.borrowings;
  overdue_books_count = count (λ b. is_overdue b.status) db.borrowings;
}

-- `DashboardsController#librarian`
unfoldable pub librarian_figures : ℕ → User → Database → Response LibrarianFigures
unfolding librarian_counts
librarian_figures now user db =
    if is_librarian user then rendered (librarian_counts now db) else forbidden

pub record MemberFigures : Type 0 where
  pub current_borrowings : List Borrowing
  pub overdue_count : ℕ
  pub due_soon_count : ℕ

-- `current_user.borrowings`
abbrev pub borrowings_of : User → Database → List Borrowing
borrowings_of user db = keep (λ b. b.user_id == user.id) db.borrowings

abbrev pub is_current : Borrowing → Bool
is_current b = is_borrowed b.status || is_overdue b.status

-- `data` of `member`
unfoldable pub member_counts : ℕ → User → Database → MemberFigures
member_counts now user db =
    let own = borrowings_of user db in
    record {
      current_borrowings = keep is_current own;
      overdue_count = count (λ b. is_overdue b.status) own;
      due_soon_count = count (is_due_soon (now / day_ms)) own;
    }

-- `DashboardsController#member`
unfoldable pub member_figures : ℕ → User → Database → Response MemberFigures
unfolding member_counts
member_figures now user db =
    if is_member user then rendered (member_counts now user db) else forbidden
