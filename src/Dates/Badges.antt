-- ===== src/Dates/Badges.antt =====
-- The badges: `dueBadge` and the row colours of the member's dashboard, and the status cell of the
-- two borrowing pages, which read the same.
use ror_books_test.Prelude.{ℕ, Bool, true, false, not, ◌&&◌, leb, ◌==◌, if◌then◌else◌}
use ror_books_test.Dates.Days.{ℤ, pos, negsuc, ceil_days, Zone, midnight}

-- Tests of a whole number against a natural one.
abbrev pub is_below_zero : ℤ → Bool
is_below_zero (pos n) = false
is_below_zero (negsuc n) = true

abbrev pub is_at_most : ℤ → ℕ → Bool
is_at_most (pos n) m = leb n m
is_at_most (negsuc n) m = true

-- A number that a test has shown not to be negative.
abbrev pub size : ℤ → ℕ
size (pos n) = n
size (negsuc n) = 0

-- The status of a borrowing.
pub data Status : Type 0 where
  borrowed returned overdue : Status

-- The badge of a status cell: "Due soon (nd)" on a warning, and the three plain ones.
pub data StatusBadge : Type 0 where
  due_soon : ℕ → StatusBadge
  plain : Status → StatusBadge

-- The status cell of the librarian's and of the member's borrowing page.
unfoldable pub status_cell : Status → ℕ → ℕ → StatusBadge
unfolding ceil_days
status_cell borrowed due now =
    let days_until_due = ceil_days due now in
    if is_at_most days_until_due 3 && not (is_below_zero days_until_due)
    then due_soon (size days_until_due)
    else plain borrowed
status_cell returned due now = plain returned
status_cell overdue due now = plain overdue

-- The badge of `dueBadge`.
pub data DueBadge : Type 0 where
  overdue_since due_today : DueBadge
  due_in : ℕ → DueBadge
  due_on : DueBadge

abbrev pub badge_of_days : ℤ → DueBadge
badge_of_days diff_days =
    if is_below_zero diff_days
    then overdue_since
    else if size diff_days == 0
    then due_today
    else if is_at_most diff_days 3
    then due_in (size diff_days)
    else due_on

unfoldable pub due_badge : Zone → ℕ → ℕ → DueBadge
due_badge z due now = badge_of_days (ceil_days (midnight z due) (midnight z now))

-- The colour of a row of current borrowings.
pub data Highlight : Type 0 where
  red amber none : Highlight

abbrev pub colour_of_days : ℤ → Highlight
colour_of_days diff_days =
    if is_below_zero diff_days then red else if is_at_most diff_days 3 then amber else none

unfoldable pub row_highlight : ℕ → ℕ → Highlight
row_highlight due now = colour_of_days (ceil_days due now)
