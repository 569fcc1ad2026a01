-- ===== src/Tests/Dialogs.antt =====
-- Due dates, the borrow button, the quick search and the dashboards.
use ror_books_test.Prelude.{
  ℕ, ◌≡◌, ◌+◌, ◌*◌, ◌-◌, ◌/◌, ltb, if◌then◌else◌, inl, refl, none, some, List, [], ◌∷◌, arith,
}
use ror_books_test.Api.{ok, failed}
use ror_books_test.Dates.{day_ms, Zone, behind, due_badge, overdue_since, local_day}
use ror_books_test.Dates.Laws.{BadgeOf, due_badge-BadgeOf, due_day_west}
use ror_books_test.BorrowButton.{Event, borrow, confirm, answer, escape}
use ror_books_test.BorrowButton.Once
use ror_books_test.Dashboards.{Item}
use ror_books_test.Tests.Data.{refusal}

-- Five hours behind UTC up to day 8, which has 23 hours, and four hours from then on.
abbrev new_york : Zone
new_york = record {
  day = λ t. if ltb t (9 * day_ms) then (t - 18000000) / day_ms else (t - 14400000) / day_ms;
  start = λ d. if ltb d 9 then d * day_ms + 18000000 else d * day_ms + 14400000;
}

due_badge-BadgeOf_example :
    BadgeOf
      (local_day new_york (11 * day_ms))
      (local_day new_york (8 * day_ms + 40000000))
      (due_badge new_york (11 * day_ms) (8 * day_ms + 40000000))
due_badge-BadgeOf_example =
    due_badge-BadgeOf new_york (11 * day_ms) (8 * day_ms + 40000000) 3600000 (omega arith)
      (inl (omega arith, refl))

due_day_west_example :
    due_badge (behind 18000000) (9 * day_ms) (9 * day_ms + 18000000) ≡ overdue_since
due_day_west_example =
    due_day_west 18000000 9 (9 * day_ms + 18000000) (omega arith) (omega arith) (omega arith)
      (omega arith)

abbrev pressed : List Event
pressed =
    borrow
    ∷ confirm
    ∷ confirm
    ∷ answer (failed refusal)
    ∷ confirm
    ∷ escape
    ∷ answer (ok tt)
    ∷ borrow
    ∷ []

abbrev borrowed_item : ℕ → ℕ → Item
borrowed_item id due_date = record {
  id = id;
  due_date = due_date;
  borrowed_at = none;
  created_at = none;
  status = none;
  title = some "Emma";
  author = some "Jane Austen";
}

abbrev current : List Item
current = borrowed_item 1 (9 * day_ms) ∷ borrowed_item 2 (12 * day_ms) ∷ []
