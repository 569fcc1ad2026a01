-- ===== src/Dates/Laws.antt =====
-- What the badges say of a due date, in calendar days and in milliseconds.
use ror_books_test.Prelude.{
  ℕ, ◌+◌, ◌-◌, ◌*◌, ◌/◌, ◌≤◌, ◌<◌, ◌≡◌, ◌↔◌, ◌⊎◌, Bool-cases, inl, inr, true, false, ap, refl,
  arith, leb, if◌then◌else◌,
}
use ror_books_test.Dates.Days.{ℤ, pos, negate, day_ms, ceil_days, Zone, utc, behind, local_day}
use ror_books_test.Dates.Badges.{
  borrowed, due_soon, status_cell, DueBadge, badge_of_days, overdue_since, due_today, due_in,
  due_on, due_badge, Highlight, red, amber, none, colour_of_days, row_highlight,
}

-- A difference of days, as `ceil_days` gives it for two midnights.
abbrev days_between : ℕ → ℕ → ℤ
days_between a b = if leb b a then pos (a - b) else negate (b - a)

ceil_days-midnights : (a b : ℕ) → ceil_days (a * day_ms) (b * day_ms) ≡ days_between a b
unfolding ceil_days
ceil_days-midnights a b = ground arith

-- A borrowed book is shown as due soon exactly from three days before its due instant to the end of
-- the day after it; a book that is later than that is shown as plainly borrowed.
pub due_soon_iff :
    (due now n : ℕ)
    → (status_cell borrowed due now ≡ due_soon n)
      ↔ ((n ≤ 3) × (due ≤ now + n * day_ms) × (now + n * day_ms < due + day_ms))
unfolding status_cell
due_soon_iff due now n = ground arith

-- What a badge says of two calendar days.
abbrev pub BadgeOf : ℕ → ℕ → DueBadge → Type 0
BadgeOf due now overdue_since = due < now
BadgeOf due now due_today = due ≡ now
BadgeOf due now (due_in n) = (due ≡ now + n) × (1 ≤ n) × (n ≤ 3)
BadgeOf due now due_on = now + 3 < due

BadgeOf-days_between : (due now : ℕ) → BadgeOf due now (badge_of_days (days_between due now))
BadgeOf-days_between due now = ground arith

ceil_days-shortened :
    (x y n s : ℕ) → s < day_ms → (n ≡ 0 → s ≡ 0) → x + s ≡ y + n * day_ms → ceil_days x y ≡ pos n
unfolding ceil_days
ceil_days-shortened x y n s small whole h = ground arith

ceil_days-lengthened :
    (x y n s : ℕ) → s < day_ms → 1 ≤ n → x + n * day_ms + s ≡ y → ceil_days x y ≡ negate n
unfolding ceil_days
ceil_days-lengthened x y n s small some_ h = ground arith

-- Between the midnights of the due day and of today the clock is put forward by `s`, if the due day
-- is not past, or back by `s`, if it is; `s` is 0 if the clock is not changed.
abbrev pub IsMoved : Zone → (due today s : ℕ) → Type 0
IsMoved z due today s =
    ((today ≤ due) × (z.start due + s ≡ z.start today + (due - today) * day_ms))
    ⊎ ((due < today) × (z.start due + (today - due) * day_ms + s ≡ z.start today))

-- UTC has no summer time.
pub utc-IsMoved : (due today : ℕ) → IsMoved utc due today 0
utc-IsMoved due today = elim (Bool-cases (leb today due)) [
  | inl e ↦ let le : today ≤ due = ground (arith, e) in inl (le, omega (arith, le))
  | inr e ↦ let lt : due < today = ground (arith, e) in inr (lt, omega (arith, lt))
]

ceil_days-days_between :
    (z : Zone) (due today s : ℕ)
    → s < day_ms
    → IsMoved z due today s
    → ceil_days (z.start due) (z.start today) ≡ days_between due today
ceil_days-days_between z due today s small (inl (le, h)) =
    let whole : due - today ≡ 0 → s ≡ 0 = λ none_.
      let same : due ≡ today = omega (arith, le, none_) in
      let starts = ap z.start same in omega (arith, h, none_, starts) in
    let to_come : leb today due ≡ true = ground (arith, le) in
    rw to_come (ceil_days-shortened (z.start due) (z.start today) (due - today) s small whole h)
ceil_days-days_between z due today s small (inr (lt, h)) =
    let past : leb today due ≡ false = ground (arith, lt) in
    rw past (
      ceil_days-lengthened (z.start due) (z.start today) (today - due) s small (omega (arith, lt))
        h)

-- The badge is that of the distance between the two local calendar days, in any time zone and at any
-- time of the day, if between their midnights the clock is not changed, or is put forward and the
-- due day is not past, or is put back and the due day is past, by less than a day.
pub due_badge-BadgeOf :
    (z : Zone) (due now s : ℕ)
    → s < day_ms
    → IsMoved z (local_day z due) (local_day z now) s
    → BadgeOf (local_day z due) (local_day z now) (due_badge z due now)
unfolding due_badge
due_badge-BadgeOf z due now s small moved =
    rw (ceil_days-days_between z (local_day z due) (local_day z now) s small moved)
      (BadgeOf-days_between (local_day z due) (local_day z now))

-- Across a day of 25 hours, a book that is due tomorrow is shown as due in two days.
pub long_day :
    (z : Zone) (due now : ℕ)
    → z.start (local_day z due) ≡ z.start (local_day z now) + 25 * 3600000
    → due_badge z due now ≡ due_in 2
unfolding due_badge ceil_days
long_day z due now h = ground (arith, h)

-- Across a day of 23 hours, a book that was due yesterday is shown as due today.
pub short_day :
    (z : Zone) (due now : ℕ)
    → z.start (local_day z due) + 23 * 3600000 ≡ z.start (local_day z now)
    → due_badge z due now ≡ due_today
unfolding due_badge ceil_days
short_day z due now h = ground (arith, h)

BadgeOf-overdue : (due now : ℕ) (b : DueBadge) → due < now → BadgeOf due now b → b ≡ overdue_since
BadgeOf-overdue due now overdue_since lt h = refl
BadgeOf-overdue due now b lt h = absurd (omega arith)

-- On the day that a book is due by the calendar of a member west of Greenwich, the badge says that
-- it is overdue: a due date without a time is midnight UTC, which is the day before there.
pub due_day_west :
    (w date now : ℕ)
    → 0 < w
    → w < day_ms
    → 1 ≤ date
    → let z = behind w in local_day z now ≡ date → due_badge z (date * day_ms) now ≡ overdue_since
due_day_west w date now pos_w small pos_date today =
    let z = behind w in
    let before : local_day z (date * day_ms) < local_day z now = omega arith in
    BadgeOf-overdue (local_day z (date * day_ms)) (local_day z now)
      (due_badge z (date * day_ms) now) before
      (due_badge-BadgeOf z (date * day_ms) now 0 (omega arith)
        (inr (before, omega (arith, before))))

-- The colour that goes with a badge.
abbrev pub colour_of : DueBadge → Highlight
colour_of overdue_since = red
colour_of due_today = amber
colour_of (due_in n) = amber
colour_of due_on = none

colour_of-badge : (d : ℤ) → colour_of_days d ≡ colour_of (badge_of_days d)
colour_of-badge d = ground arith

ceil_days-midnight : (a t : ℕ) → ceil_days (a * day_ms) t ≡ days_between a (t / day_ms)
unfolding ceil_days
ceil_days-midnight a t = ground arith

-- In UTC, for a due date without a time, the colour of a row agrees with its badge at every time of
-- the day.
pub row_highlight-due_badge :
    (date now : ℕ)
    → row_highlight (date * day_ms) now ≡ colour_of (due_badge utc (date * day_ms) now)
unfolding row_highlight due_badge
row_highlight-due_badge date now =
    let day : local_day utc now ≡ now / day_ms = omega arith in
    let due_day : local_day utc (date * day_ms) ≡ date = omega arith in
    rw (ceil_days-midnight date now, ceil_days-midnights, day, due_day)
      (colour_of-badge (days_between date (now / day_ms)))
