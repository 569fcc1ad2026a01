-- ===== src/Dashboards/Tiles.antt =====
-- The rows of the member's dashboard.
use ror_books_test.Prelude.{ℕ, ◌*◌, ◌≡◌, List, [], ◌∷◌, All, map}
use ror_books_test.Dates.{utc, day_ms}
use ror_books_test.Dates.Laws.{colour_of, row_highlight-due_badge}
use ror_books_test.Dashboards.Member.{Item, row_of}

-- A due date without a time of day: midnight UTC.
abbrev pub IsDate : Item → Type 0
IsDate item = (date : ℕ) × (item.due_date ≡ date * day_ms)

-- In UTC, if the due dates are dates without a time, every row of current borrowings has the colour
-- that goes with its badge, at every time of the day.
pub rows-colour_of :
    (now : ℕ) (items : List Item)
    → All IsDate items
    → All (λ row. row.highlight ≡ colour_of row.badge) (map (row_of utc now) items)
unfolding row_of
rows-colour_of now [] h = tt
rows-colour_of now (item ∷ items) ((date, e), h) =
    (rw e (row_highlight-due_badge date now), rows-colour_of now items h)
