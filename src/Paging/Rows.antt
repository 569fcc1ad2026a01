-- ===== src/Paging/Rows.antt =====
-- The changes that handlers make to the rows of a table, found by their id.
use ror_books_test.Prelude.{
  ℕ, ◌≡◌, ◌≢◌, refl, not, List, [], ◌∷◌, map, keep, All, arith, ◌==◌, if◌then◌else◌,
}

module _ {A : Type 0} (id_of : A → ℕ) where
  -- `prev.map((x) => (x.id === id ? row : x))`
  abbrev pub replace_row : ℕ → A → List A → List A
  replace_row id row = map (λ x. if id_of x == id then row else x)

  -- `prev.filter((x) => x.id !== id)`
  abbrev pub remove_row : ℕ → List A → List A
  remove_row id = keep (λ x. not (id_of x == id))

  -- A row that replaces those of its own id keeps the ids of the table and their order.
  pub map-replace_row :
      (row : A) (rows : List A) → map id_of (replace_row (id_of row) row rows) ≡ map id_of rows
  map-replace_row row [] = refl
  map-replace_row row (x ∷ rows) = ground (arith, map-replace_row row rows)

  -- After a removal no row with that id is left.
  pub All-remove_row : (id : ℕ) (rows : List A) → All (λ x. id_of x ≢ id) (remove_row id rows)
  All-remove_row id [] = tt
  All-remove_row id (x ∷ rows) = ground (arith, All-remove_row id rows)

  -- A removal leaves a table alone that has no row with that id.
  pub remove_row_absent :
      (id : ℕ) (rows : List A) → All (λ x. id_of x ≢ id) rows → remove_row id rows ≡ rows
  remove_row_absent id [] h = refl
  remove_row_absent id (x ∷ rows) h = ground (arith, remove_row_absent id rows h.1)
