-- ===== src/Prelude/Queries.antt =====
-- How `any`, `count`, `find` and `All` go through `map`, `keep` and `++`.
use Prim.Native.Nat.{ℕ, zero, suc, ◌≤◌}
use mathlib.Core.Path.{◌≡◌, refl}
use mathlib.Core.Logic.{inl, inr}
use mathlib.Core.Bool.{Bool, true, false}
use mathlib.Core.Option.{some}
use mathlib.Core.List.{List, [], ◌∷◌, ◌++◌, map}
use native.Mathlib.Omega.{arith}
use ror_books_test.Prelude.Tests.{Bool-cases}
use ror_books_test.Prelude.Lists.{any, count, find, keep, All, take, drop, length}

module _ {ℓ} {A : Type ℓ} (p : A → Bool) where
  pub any-append_left : (xs ys : List A) → any p xs ≡ true → any p (xs ++ ys) ≡ true
  any-append_left [] ys h = cc
  any-append_left (x ∷ xs) ys h = ground (arith, h, any-append_left xs ys)

  pub any-map :
      (f : A → A) → ((x : A) → p (f x) ≡ p x) → (xs : List A) → any p (map f xs) ≡ any p xs
  any-map f same [] = refl
  any-map f same (x ∷ xs) = rw (any, same x, any-map f same xs)

  pub any-keep :
      (q : A → Bool)
      → ((x : A) → p x ≡ true → q x ≡ true)
      → (xs : List A) → any p xs ≡ true
      → any p (keep q xs) ≡ true
  any-keep q sub [] h = h
  any-keep q sub (x ∷ xs) h = ground (arith, h, sub x, any-keep q sub xs)

  pub find-some : (xs : List A) (x : A) → find p xs ≡ some x → (any p xs ≡ true) × (p x ≡ true)
  find-some [] x h = cc
  find-some (y ∷ ys) x h = ground (arith, h, find-some ys x)

  pub count-map_le :
      (f : A → A)
      → ((x : A) → p (f x) ≡ true → p x ≡ true)
      → (xs : List A) → count p (map f xs) ≤ count p xs
  count-map_le f sub [] = omega arith
  count-map_le f sub (x ∷ xs) = ground (arith, sub x, count-map_le f sub xs)

  pub count-keep_le : (q : A → Bool) (xs : List A) → count p (keep q xs) ≤ count p xs
  count-keep_le q [] = omega arith
  count-keep_le q (x ∷ xs) = ground (arith, count-keep_le q xs)

module _ {ℓ κ} {A : Type ℓ} (P Q : A → Type κ) where
  pub All-imp : ((x : A) → P x → Q x) → (xs : List A) → All P xs → All Q xs
  All-imp f [] h = tt
  All-imp f (x ∷ xs) h = (f x h.0, All-imp f xs h.1)

  pub All-map :
      (f : A → A) → ((x : A) → P x → Q (f x)) → (xs : List A) → All P xs → All Q (map f xs)
  All-map f keeps [] h = tt
  All-map f keeps (x ∷ xs) h = (keeps x h.0, All-map f keeps xs h.1)

  -- What is left satisfies what follows from passing the test.
  pub All-keep :
      (q : A → Bool)
      → ((x : A) → q x ≡ true → P x → Q x)
      → (xs : List A) → All P xs
      → All Q (keep q xs)
  All-keep q f [] h = tt
  All-keep q f (x ∷ xs) h = elim (Bool-cases (q x)) [
    | inl pass ↦ rw (keep, pass) (f x pass h.0, All-keep q f xs h.1)
    | inr out ↦ rw (keep, out) (All-keep q f xs h.1)
  ]

module _ {ℓ} {A : Type ℓ} (p : A → Bool) where
  pub any-grown :
      (xs : List A) (y : A) → any p xs ≡ false → p y ≡ false → any p (xs ++ y ∷ []) ≡ false
  any-grown [] y h k = ground (arith, k)
  any-grown (x ∷ xs) y h k = ground (arith, h, k, any-grown xs y)

  pub any-replaced :
      (f : A → A)
      → ((x : A) → p x ≡ false → p (f x) ≡ false)
      → (xs : List A) → any p xs ≡ false
      → any p (map f xs) ≡ false
  any-replaced f keeps [] h = refl
  any-replaced f keeps (x ∷ xs) h = ground (arith, h, keeps x, any-replaced f keeps xs)

  pub any-kept : (q : A → Bool) (xs : List A) → any p xs ≡ false → any p (keep q xs) ≡ false
  any-kept q [] h = refl
  any-kept q (x ∷ xs) h = ground (arith, h, any-kept q xs)

  pub found_fails :
      (q : A → Bool) (xs : List A) (x : A) → find q xs ≡ some x → any p xs ≡ false → p x ≡ false
  found_fails q [] x e h = cc
  found_fails q (y ∷ ys) x e h = ground (arith, e, h, found_fails q ys x)

  pub All-kept : (xs : List A) → All (λ x. p x ≡ true) (keep p xs)
  All-kept [] = tt
  All-kept (x ∷ xs) = elim (Bool-cases (p x)) [
    | inl pass ↦ rw (keep, pass) (pass, All-kept xs)
    | inr out ↦ rw (keep, out) (All-kept xs)
  ]

module _ {ℓ κ} {A : Type ℓ} (P : A → Type κ) where
  pub All-take : (n : ℕ) (xs : List A) → All P xs → All P (take n xs)
  All-take zero xs h = tt
  All-take (suc n) [] h = tt
  All-take (suc n) (x ∷ xs) h = (h.0, All-take n xs h.1)

  pub All-drop : (n : ℕ) (xs : List A) → All P xs → All P (drop n xs)
  All-drop zero xs h = h
  All-drop (suc n) [] h = h
  All-drop (suc n) (x ∷ xs) h = All-drop n xs h.1

pub length-take_le {ℓ} : {A : Type ℓ} (n : ℕ) (xs : List A) → length (take n xs) ≤ n
length-take_le zero xs = omega arith
length-take_le (suc n) [] = omega arith
length-take_le (suc n) (x ∷ xs) = omega (arith, length-take_le n xs)
