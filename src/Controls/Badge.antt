-- ===== src/Controls/Badge.antt =====
-- frontend/src/components/Badge.tsx, and the variants of the badges that the pages draw.
use ror_books_test.Prelude.{◌≡◌, ◌↔◌, ◌≤◌, ℕ, String, Option, none, some, [], ◌∷◌, join, arith}
use ror_books_test.Dates.{
  pos, negsuc, StatusBadge, due_soon, plain, borrowed, returned, overdue, DueBadge, overdue_since,
  due_today, due_in, due_on, badge_of_days,
}

pub data Variant : Type 0 where
  default success warning danger info : Variant

unfoldable pub variant_class : Variant → String
variant_class default = "bg-gray-100 text-gray-800"
variant_class success = "bg-green-100 text-green-800"
variant_class warning = "bg-yellow-100 text-yellow-800"
variant_class danger = "bg-red-100 text-red-800"
variant_class info = "bg-blue-100 text-blue-800"

abbrev or_default {ℓ} : {A : Type ℓ} → A → Option A → A
or_default x none = x
or_default x (some y) = y

unfoldable pub badge_class : Option Variant → Option String → String
unfolding join variant_class
badge_class variant class_name = join " " (
    "inline-flex items-center rounded-full px-2.5 py-0.5 text-xs font-medium"
    ∷ variant_class (or_default default variant)
    ∷ or_default "" class_name
    ∷ [])

-- The badges of a status cell.
unfoldable pub status_variant : StatusBadge → Variant
status_variant (due_soon n) = warning
status_variant (plain borrowed) = info
status_variant (plain returned) = success
status_variant (plain overdue) = danger

-- The badges of `dueBadge`.
unfoldable pub due_variant : DueBadge → Variant
due_variant overdue_since = danger
due_variant due_today = danger
due_variant (due_in n) = warning
due_variant due_on = success

-- A number of days that is not above zero is drawn as danger, up to 3 as a warning, and more as a
-- success.
pub due_variant-danger_iff :
    (n : ℕ)
    → (due_variant (badge_of_days (negsuc n)) ≡ danger)
      × ((due_variant (badge_of_days (pos n)) ≡ danger) ↔ (n ≡ 0))
      × ((due_variant (badge_of_days (pos n)) ≡ success) ↔ (4 ≤ n))
unfolding due_variant
due_variant-danger_iff n = ground arith
