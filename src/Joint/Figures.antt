-- ===== src/Joint/Figures.antt =====
-- The alerts that the server counts for a member, against the badges that the member's page draws.
use ror_books_test.Prelude.{
  ℕ, ◌+◌, ◌*◌, ◌/◌, ◌≡◌, refl, ◌==◌, Bool, true, false, List, [], ◌∷◌, map, keep, count, ltb, leb,
  ◌&&◌, All, All-keep, All-map, arith,
}
use ror_books_test.Api.{User}
use ror_books_test.Dates.{
  day_ms, utc, DueBadge, overdue_since, due_today, due_in, due_on, local_day,
}
use ror_books_test.Dates.Laws.{BadgeOf, due_badge-BadgeOf, utc-IsMoved}
use ror_books_test.Dashboards.{Item, Row, row_of}
use ror_books_test.Backend.Clock.{IsPast}
use ror_books_test.Backend.Late.{mark_overdue_books_lem}
use ror_books_test.Backend.{
  Database, Borrowing, is_late, mark, mark_overdue_books, is_overdue, is_due_soon, is_current,
  borrowings_of, member_counts,
}

abbrev pub is_red : DueBadge → Bool
is_red overdue_since = true
is_red _ = false

-- Due today or in one to three days.
abbrev pub is_soon : DueBadge → Bool
is_soon due_today = true
is_soon (due_in n) = true
is_soon _ = false

red_badge : (today due : ℕ) (b : DueBadge) → BadgeOf due today b → is_red b ≡ ltb due today
red_badge today due overdue_since h = ground (arith, h)
red_badge today due due_today h = ground (arith, h)
red_badge today due (due_in n) h = ground (arith, h)
red_badge today due due_on h = ground (arith, h)

soon_badge :
    (today due : ℕ) (b : DueBadge)
    → BadgeOf due today b
    → is_soon b ≡ (leb today due && leb due (today + 3))
soon_badge today due overdue_since h = ground (arith, h)
soon_badge today due due_today h = ground (arith, h)
soon_badge today due (due_in n) h = ground (arith, h)
soon_badge today due due_on h = ground (arith, h)

-- The badge of a row, for a due date without a time.
badge_at :
    (now : ℕ) (item : Item) (date : ℕ)
    → item.due_date ≡ date * day_ms
    → BadgeOf date (now / day_ms) (row_of utc now item).badge
unfolding row_of
badge_at now item date e =
    let day : local_day utc (date * day_ms) ≡ date = omega arith in
    let today : local_day utc now ≡ now / day_ms = omega arith in
    rw e (
      rw (day, today) at
        (due_badge-BadgeOf utc (date * day_ms) now 0 (omega arith)
          (utc-IsMoved (local_day utc (date * day_ms)) (local_day utc now))))

-- `item` is how a borrowing is read from the answer.
module _ (item : Borrowing → Item)
    (dated : (b : Borrowing) → (item b).due_date ≡ b.due_date * day_ms) where
  abbrev pub rows : ℕ → List Borrowing → List Row
  rows now bs = map (λ b. row_of utc now (item b)) (keep is_current bs)

  red_rows :
      (now : ℕ) (bs : List Borrowing)
      → All (IsPast (now / day_ms)) bs
      → count (λ r. is_red r.badge) (rows now bs)
        ≡ count (λ b. is_overdue b.status) bs + count (is_late (now / day_ms)) bs
  red_rows now [] h = refl
  red_rows now (b ∷ bs) h =
      let badge =
        red_badge (now / day_ms) b.due_date _ (badge_at now (item b) b.due_date (dated b)) in
      ground (arith, h.0, badge, red_rows now bs h.1)

  soon_rows :
      (now : ℕ) (bs : List Borrowing)
      → All (IsPast (now / day_ms)) bs
      → count (λ r. is_soon r.badge) (rows now bs) ≡ count (is_due_soon (now / day_ms)) bs
  soon_rows now [] h = refl
  soon_rows now (b ∷ bs) h =
      let badge =
        soon_badge (now / day_ms) b.due_date _ (badge_at now (item b) b.due_date (dated b)) in
      ground (arith, h.0, badge, soon_rows now bs h.1)

  -- In UTC, if every borrowing that is marked overdue is past its due date, then the server counts
  -- as due soon exactly the rows whose badge says today or in one to three days, and as overdue the
  -- rows with a red badge but for those that no overdue check has marked yet.
  pub member_counts-row_of :
      (now : ℕ) (user : User) (db : Database)
      → All (IsPast (now / day_ms)) db.borrowings
      → let figures = member_counts now user db in
        let shown = map (λ b. row_of utc now (item b)) figures.current_borrowings in
        (count (λ r. is_soon r.badge) shown ≡ figures.due_soon_count)
        × (count (λ r. is_red r.badge) shown
            ≡ figures.overdue_count + count (is_late (now / day_ms)) (borrowings_of user db))
  unfolding member_counts
  member_counts-row_of now user db h =
      let own =
        All-keep (IsPast (now / day_ms)) (IsPast (now / day_ms)) (λ b. b.user_id == user.id)
          (λ b pass k. k) db.borrowings h in
      (soon_rows now (borrowings_of user db) own, red_rows now (borrowings_of user db) own)

mark-IsPast : (today : ℕ) (b : Borrowing) → IsPast today b → IsPast today (mark today b)
mark-IsPast today b h = ground (arith, h)

none_late :
    (today id : ℕ) (bs : List Borrowing)
    → count (is_late today) (keep (λ b. b.user_id == id) (map (mark today) bs)) ≡ 0
none_late today id [] = refl
none_late today id (b ∷ bs) = ground (arith, none_late today id bs)

module _ (item : Borrowing → Item)
    (dated : (b : Borrowing) → (item b).due_date ≡ b.due_date * day_ms) where
  -- Right after an overdue check both alerts are the numbers of rows with such a badge, for every
  -- member, in UTC, if every borrowing that was marked before is past its due date.
  pub mark_overdue_books-row_of :
      (now : ℕ) (user : User) (db : Database)
      → All (IsPast (now / day_ms)) db.borrowings
      → let figures = member_counts now user (mark_overdue_books now db).1 in
        let shown = map (λ b. row_of utc now (item b)) figures.current_borrowings in
        (count (λ r. is_soon r.badge) shown ≡ figures.due_soon_count)
        × (count (λ r. is_red r.badge) shown ≡ figures.overdue_count)
  unfolding member_counts
  mark_overdue_books-row_of now user db h =
      let today = now / day_ms in
      let stored = (mark_overdue_books_lem now db).1 in
      let after = record db { borrowings = map (mark today) db.borrowings } in
      let past =
        All-map (IsPast today) (IsPast today) (mark today) (mark-IsPast today) db.borrowings h in
      let (soon, red) = member_counts-row_of item dated now user after past in
      let no_more = none_late today user.id db.borrowings in
      rw stored (soon, ground (arith, red, no_more))
