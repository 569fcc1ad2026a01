-- ===== src/Prelude/Texts.antt =====
-- Texts as the frontend uses them: truthiness, `trim`, `join`, and text equality.
use Prim.Native.Nat.{ℕ}
use Prim.Native.Char.{Char, code}
use Prim.Native.String
use Prim.Native.String.{String}
use mathlib.Core.Path.{◌≡◌, refl}
use mathlib.Core.Bool.{Bool, true, false, not, ◌&&◌, ◌||◌}
use mathlib.Core.List.{List, [], ◌∷◌}
use native.Mathlib.Omega.{arith}
use ror_books_test.Prelude.Tests.{leb, ◌==◌, if◌then◌else◌}

-- A text in a JavaScript condition: every text but the empty one.
abbrev pub truthy : String → Bool
truthy String.[] = false
truthy (String.◌∷◌ c s) = true

-- The white space and line terminators that `String.prototype.trim` removes.
unfoldable pub is_space : ℕ → Bool
is_space c =
    (leb 9 c && leb c 13)
    || c == 32
    || c == 160
    || c == 0x1680
    || (leb 0x2000 c && leb c 0x200a)
    || c == 0x2028
    || c == 0x2029
    || c == 0x202f
    || c == 0x205f
    || c == 0x3000
    || c == 0xfeff

unfoldable pub trim_start : String → String
trim_start String.[] = String.[]
trim_start (String.◌∷◌ c s) = if is_space (code c) then trim_start s else String.◌∷◌ c s

-- `c` before a text whose end is trimmed: white space goes when nothing follows it.
abbrev close : Bool → Char → String → String
close true c String.[] = String.[]
close _ c s = String.◌∷◌ c s

unfoldable pub trim_end : String → String
trim_end String.[] = String.[]
trim_end (String.◌∷◌ c s) = close (is_space (code c)) c (trim_end s)

-- `s.trim()`
unfoldable pub trim : String → String
unfolding trim_start trim_end
trim s = trim_end (trim_start s)

-- `parts.join(sep)`
unfoldable pub join : String → List String → String
join sep [] = ""
join sep (s ∷ []) = s
join sep (s ∷ t ∷ rest) = String.◌++◌ s (String.◌++◌ sep (join sep (t ∷ rest)))

-- Nothing but white space.
unfoldable pub is_blank : String → Bool
is_blank String.[] = true
is_blank (String.◌∷◌ c s) = is_space (code c) && is_blank s

truthy-close : (b : Bool) (c : Char) (s : String) → truthy (close b c s) ≡ (not b || truthy s)
truthy-close true c String.[] = refl
truthy-close true c (String.◌∷◌ d s) = refl
truthy-close false c s = refl

truthy-trim_end : (s : String) → truthy (trim_end s) ≡ not (is_blank s)
unfolding trim_end is_blank
truthy-trim_end String.[] = refl
truthy-trim_end (String.◌∷◌ c s) =
    ground (arith, truthy-close (is_space (code c)) c (trim_end s), truthy-trim_end s)

is_blank-trim_start : (s : String) → is_blank (trim_start s) ≡ is_blank s
unfolding trim_start is_blank
is_blank-trim_start String.[] = refl
is_blank-trim_start (String.◌∷◌ c s) = ground (arith, is_blank-trim_start s)

-- A trimmed text is falsy exactly for texts of white space.
pub truthy-trim : (s : String) → truthy (trim s) ≡ not (is_blank s)
unfolding trim
truthy-trim s = ground (arith, truthy-trim_end (trim_start s), is_blank-trim_start s)

pub is_blank_of_falsy : (s : String) → truthy s ≡ false → is_blank s ≡ true
unfolding is_blank
is_blank_of_falsy String.[] h = refl
is_blank_of_falsy (String.◌∷◌ c s) h = ground arith
