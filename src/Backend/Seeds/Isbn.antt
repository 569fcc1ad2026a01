-- ===== src/Backend/Seeds/Isbn.antt =====
-- The ISBNs that the task makes up are different ones.
use Prim.Native.Char.{code}
use Prim.Native.String
use text.Mathlib.TextLemmas.{nil-append, cons-append}
use ror_books_test.Prelude.{
  ℕ, zero, suc, ◌≡◌, length, ◌<◌, ◌≤◌, ◌+◌, ◌*◌, ◌^◌, ◌/◌, ◌%◌, ◌-◌, refl, ap, ◌∙◌, String, str_eq,
  eq_iff, false, List, [], ◌∷◌, All, arith, Bool-cases, inl, inr,
}
use ror_books_test.Backend.Seeds.Again.{IsDistinct}
use ror_books_test.Backend.Seeds.{Listing, digit, padded, isbn_of, numbered}

-- The number that digits stand for, behind others.
value : ℕ → String → ℕ
value n String.[] = n
value n (String.◌∷◌ c s) = value (n * 10 + (code c - 48)) s

value-digit : (n d : ℕ) → d < 10 → value n (digit d) ≡ n * 10 + d
unfolding value
value-digit n zero less = refl
value-digit n (suc zero) less = refl
value-digit n (suc (suc zero)) less = refl
value-digit n (suc (suc (suc zero))) less = refl
value-digit n (suc (suc (suc (suc zero)))) less = refl
value-digit n (suc (suc (suc (suc (suc zero))))) less = refl
value-digit n (suc (suc (suc (suc (suc (suc zero)))))) less = refl
value-digit n (suc (suc (suc (suc (suc (suc (suc zero))))))) less = refl
value-digit n (suc (suc (suc (suc (suc (suc (suc (suc zero)))))))) less = refl
value-digit n (suc (suc (suc (suc (suc (suc (suc (suc (suc zero))))))))) less = refl
value-digit n (suc (suc (suc (suc (suc (suc (suc (suc (suc (suc d)))))))))) less =
    absurd (omega (arith, less))

value-append : (n : ℕ) (s t : String) → value n (String.◌++◌ s t) ≡ value (value n s) t
unfolding value
value-append n String.[] t = ap (value n) (nil-append t)
value-append n (String.◌∷◌ c s) t =
    rw (cons-append c s t) (value-append (n * 10 + (code c - 48)) s t)

value-padded : (width n : ℕ) → n < 10 ^ width → value 999 (padded width n) ≡ 999 * 10 ^ width + n
unfolding value
value-padded zero n less = omega (arith, less)
value-padded (suc width) n less =
    value-append 999 (padded width (n / 10)) (digit (n % 10))
    ∙ (ap (λ k. value k (digit (n % 10))) (value-padded width (n / 10) (omega (arith, less)))
        ∙ (value-digit (999 * 10 ^ width + n / 10) (n % 10) (omega arith) ∙ omega arith))

value-isbn_of : (n : ℕ) → n < 10 ^ 10 → value 0 (isbn_of n) ≡ 999 * 10 ^ 10 + n
unfolding value isbn_of
value-isbn_of n less = value-append 0 "999" (padded 10 n) ∙ value-padded 10 n less

-- Numbers of at most ten digits have different ISBNs.
isbn_of-apart : (m n : ℕ) → m < n → n < 10 ^ 10 → str_eq (isbn_of m) (isbn_of n) ≡ false
isbn_of-apart m n m_n less = elim (Bool-cases (str_eq (isbn_of m) (isbn_of n))) [
  | inl e ↦
      let same = ap (value 0) ((eq_iff (isbn_of m) (isbn_of n)).0 e) in
      let m_value = value-isbn_of m (omega (arith, m_n, less)) in
      let n_value = value-isbn_of n less in absurd (omega (arith, same, m_value, n_value, m_n))
  | inr e ↦ e
]

later_apart :
    (m index : ℕ) (ls : List Listing)
    → m ≤ index
    → index + length ls < 10 ^ 10
    → All (λ o. str_eq (isbn_of m) o.0 ≡ false) (numbered index ls)
later_apart m index [] less within = tt
later_apart m index (l ∷ ls) less within = (
  isbn_of-apart m (index + 1) (omega (arith, less)) (omega (arith, within)),
  later_apart m (index + 1) ls (omega (arith, less)) (omega (arith, within)),
)

-- No two entries have one ISBN, up to ten digits of them.
pub numbered-IsDistinct :
    (index : ℕ) (ls : List Listing) → index + length ls < 10 ^ 10 → IsDistinct (numbered index ls)
unfolding IsDistinct
numbered-IsDistinct index [] within = tt
numbered-IsDistinct index (l ∷ ls) within = (
  later_apart (index + 1) (index + 1) ls (omega arith) (omega (arith, within)),
  numbered-IsDistinct (index + 1) ls (omega (arith, within)),
)
