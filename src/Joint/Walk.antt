-- ===== src/Joint/Walk.antt =====
-- Turning the pages of a list from the first one on.
use ror_books_test.Prelude.{
  ℕ, zero, suc, ◌+◌, ◌-◌, ◌*◌, ◌/◌, ◌≤◌, ◌<◌, ◌≡◌, refl, ap, sym, ◌∙◌, ◌==◌, Option, none, some,
  Bool-cases, List, [], ◌∷◌, ◌++◌, length, take, drop, ltb, arith, inl, inr, if◌then◌else◌,
}
use ror_books_test.Paging.{page_size, click_next}
use ror_books_test.Backend.{per_page, page_rows}

last_page : (rows page : ℕ) → rows < page_size → click_next rows page ≡ page
unfolding click_next
last_page rows page h = ground (arith, h)

full_page : (page : ℕ) → click_next page_size page ≡ page + 1
unfolding click_next
full_page page = ground arith

module _ {A : Type 0} where
  take-drop : (n : ℕ) (xs : List A) → take n xs ++ drop n xs ≡ xs
  take-drop zero xs = refl
  take-drop (suc n) [] = refl
  take-drop (suc n) (x ∷ xs) = ap (λ rest. x ∷ rest) (take-drop n xs)

  drop-nil : (m : ℕ) → drop {A = A} m [] ≡ []
  drop-nil zero = refl
  drop-nil (suc m) = refl

  drop-drop : (m n : ℕ) (xs : List A) → drop m (drop n xs) ≡ drop (n + m) xs
  drop-drop m zero xs = let e : 0 + m ≡ m = omega arith in rw e refl
  drop-drop m (suc n) [] = let e : suc n + m ≡ suc (n + m) = omega arith in rw e (drop-nil m)
  drop-drop m (suc n) (x ∷ xs) =
      let e : suc n + m ≡ suc (n + m) = omega arith in rw e (drop-drop m n xs)

  length-drop : (n : ℕ) (xs : List A) → length (drop n xs) ≡ length xs - n
  length-drop zero xs = omega arith
  length-drop (suc n) [] = omega arith
  length-drop (suc n) (x ∷ xs) = ground (arith, length-drop n xs)

  length-take : (n : ℕ) (xs : List A) → n ≤ length xs → length (take n xs) ≡ n
  length-take zero xs h = refl
  length-take (suc n) [] h = absurd (omega (arith, h))
  length-take (suc n) (x ∷ xs) h = ground (arith, length-take n xs (omega (arith, h)))

  take_all : (n : ℕ) (xs : List A) → length xs < n → take n xs ≡ xs
  take_all zero xs h = absurd (omega (arith, h))
  take_all (suc n) [] h = refl
  take_all (suc n) (x ∷ xs) h = ap (λ rest. x ∷ rest) (take_all n xs (omega (arith, h)))

  prepend : List A → Option (List A) → Option (List A)
  prepend rows none = none
  prepend rows (some rest) = some (rows ++ rest)

  -- The rows that are seen from a page on, with a click on "Next" as long as it leads to another page;
  -- `none` if so many pages were not enough.
  pub walk : ℕ → ℕ → List A → Option (List A)
  walk zero page xs = none
  walk (suc pages) page xs =
      let rows = page_rows page xs in
      let next = click_next (length rows) page in
      let rest = walk pages next xs in if next == page then some rows else prepend rows rest

  -- What is not yet seen when a page is reached.
  abbrev left : ℕ → List A → List A
  left page xs = drop ((page - 1) * per_page) xs

  page_rows-left :
      (page : ℕ) (xs : List A) → 1 ≤ page → page_rows page xs ≡ take per_page (left page xs)
  unfolding page_rows
  page_rows-left page xs h = ground (arith, h)

  left-next :
      (page : ℕ) (xs : List A) → 1 ≤ page → left (page + 1) xs ≡ drop per_page (left page xs)
  left-next page xs h =
      let e : (page + 1 - 1) * per_page ≡ (page - 1) * per_page + per_page = omega (arith, h) in
      rw e (sym (drop-drop per_page ((page - 1) * per_page) xs))

  walk_last :
      (pages page : ℕ) (xs : List A)
      → 1 ≤ page
      → length (left page xs) < per_page
      → walk (suc pages) page xs ≡ some (left page xs)
  unfolding walk
  walk_last pages page xs h short =
      let whole : page_rows page xs ≡ left page xs =
        page_rows-left page xs h ∙ take_all per_page (left page xs) short in
      let stays = last_page (length (left page xs)) page short in rw (whole, stays) (ground arith)

  walk_full :
      (pages page : ℕ) (xs : List A)
      → 1 ≤ page
      → per_page ≤ length (left page xs)
      → walk (suc pages) page xs ≡ prepend (take per_page (left page xs)) (walk pages (page + 1) xs)
  unfolding walk
  walk_full pages page xs h long =
      let rows = length-take per_page (left page xs) long in
      rw (page_rows-left page xs h, rows, full_page page) (ground arith)

  walk_from :
      (pages page : ℕ) (xs : List A)
      → 1 ≤ page
      → length (left page xs) < pages * per_page
      → walk pages page xs ≡ some (left page xs)
  unfolding prepend
  walk_from zero page xs h enough = absurd (omega (arith, enough))
  walk_from (suc pages) page xs h enough =
      elim (Bool-cases (ltb (length (left page xs)) per_page)) [
        | inl short ↦ walk_last pages page xs h (ground (arith, short))
        | inr full ↦
            let long : per_page ≤ length (left page xs) = ground (arith, full) in
            let rest = length-drop per_page (left page xs) in
            let onward = left-next page xs h in
            let fewer : length (left (page + 1) xs) < pages * per_page =
              rw onward (omega (arith, rest, enough, long)) in
            rw
              (
                walk_full pages page xs h long,
                walk_from pages (page + 1) xs (omega arith) fewer,
                onward,
              )
              (ap some (take-drop per_page (left page xs)))
      ]

  -- Whatever the server lists, clicking "Next" from page 1 on comes to an end: as many pages as the
  -- list fills, and one more, are enough; and the pages on the way show every row of the list once,
  -- in its order.
  pub walk-some : (xs : List A) → walk (length xs / per_page + 1) 1 xs ≡ some xs
  walk-some xs = walk_from (length xs / per_page + 1) 1 xs (omega arith) (omega arith)
