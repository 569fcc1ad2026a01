-- ===== src/Joint/DueDates.antt =====
-- The date that frontend/src/components/BorrowButton.tsx announces, and the due date that
-- app/models/borrowing.rb stores.
use ror_books_test.Prelude.{ℕ, ◌+◌, ◌/◌, ◌≡◌, ◌↔◌, arith}
use ror_books_test.Api.{User}
use ror_books_test.Dates.{Zone, utc, local_day, day_ms}
use ror_books_test.Backend.{Book, Database, new_borrowing}

-- The local day that `dueDateText` formats, when the button is mounted at an instant.
unfoldable pub announced_day : Zone → ℕ → ℕ
announced_day z mounted = local_day z mounted + 14

-- The button announces the day that is stored exactly if the local day on which it was mounted has
-- the number of the day in UTC on which the request is served.
pub announced_iff :
    (z : Zone) (mounted now : ℕ) (user : User) (book : Book) (db : Database)
    → (announced_day z mounted ≡ (new_borrowing now user book db).due_date)
      ↔ (local_day z mounted ≡ now / day_ms)
unfolding announced_day new_borrowing
announced_iff z mounted now user book db = ground arith

-- A button that was mounted the day before, in UTC, announces a day too early; and one that a member
-- east of Greenwich opens on the next local day announces a day too late.
pub announced_apart :
    (z : Zone) (mounted now : ℕ) (user : User) (book : Book) (db : Database)
    → ((mounted / day_ms + 1 ≡ now / day_ms)
        → announced_day utc mounted + 1 ≡ (new_borrowing now user book db).due_date)
      × ((local_day z mounted ≡ now / day_ms + 1)
          → announced_day z mounted ≡ (new_borrowing now user book db).due_date + 1)
unfolding announced_day new_borrowing
announced_apart z mounted now user book db = (λ h. omega (arith, h), λ h. omega (arith, h))
