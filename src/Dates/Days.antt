-- ===== src/Dates/Days.antt =====
-- Days between two instants. An instant is the milliseconds since the epoch, not before it. The
-- quotients that `Math.ceil` rounds are exact enough in floating point for any date.
use ror_books_test.Prelude.{ℕ, zero, suc, ◌+◌, ◌-◌, ◌*◌, ◌/◌, leb, if◌then◌else◌}

-- `negsuc n` is -(n + 1).
pub data ℤ : Type 0 where
  pos : ℕ → ℤ
  negsuc : ℕ → ℤ

-- 24 * 60 * 60 * 1000
abbrev pub day_ms : ℕ
day_ms = 86400000

abbrev pub negate : ℕ → ℤ
negate zero = pos 0
negate (suc n) = negsuc n

-- `Math.ceil((due - now) / day)`: up for a positive difference, towards 0 for a negative one.
unfoldable pub ceil_days : ℕ → ℕ → ℤ
ceil_days due now =
    if leb now due then pos ((due - now + (day_ms - 1)) / day_ms) else negate ((now - due) / day_ms)

-- A time zone, as the browser knows it: the number of the local calendar day of an instant, and the
-- instant at which a local day starts. Summer time makes a day of 23 or 25 hours.
pub record Zone : Type 0 where
  pub day : ℕ → ℕ
  pub start : ℕ → ℕ

abbrev pub utc : Zone
utc = record { day = λ t. t / day_ms; start = λ d. d * day_ms }

-- A zone that is always the same time behind UTC.
abbrev pub behind : ℕ → Zone
behind w = record { day = λ t. (t - w) / day_ms; start = λ d. d * day_ms + w }

abbrev pub local_day : Zone → ℕ → ℕ
local_day z t = z.day t

-- `new Date(t.getFullYear(), t.getMonth(), t.getDate())`
abbrev pub midnight : Zone → ℕ → ℕ
midnight z t = z.start (local_day z t)
