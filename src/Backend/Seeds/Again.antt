-- ===== src/Backend/Seeds/Again.antt =====
-- A second run of the task.
use ror_books_test.Prelude.{
  ◌≡◌, refl, ap, String, str_eq, some, Bool, false, List, [], ◌∷◌, All, arith, Option-cases, inl,
  inr,
}
use mathlib.Core.Path.{subst}
use ror_books_test.Backend.Seeds.{Listing, Seeding, seed_one, seed_all}
use ror_books_test.Backend.Seeds.Rows.{other_text, IsKeyed}
use ror_books_test.Backend.Seeds.Rounds.{
  IsSeeded, db_of, Outcome-IsSeeded, other-IsSeeded, Outcome-IsKeyed, round_done,
}

-- No two entries have one ISBN.
unfoldable pub IsDistinct : List (String × Listing) → Type 0
IsDistinct [] = Unit
IsDistinct (e ∷ es) = All (λ o. str_eq e.0 o.0 ≡ false) es × IsDistinct es

module _ (blank : String → Bool) where
  -- An entry whose row says what it says is left alone.
  seed_one-seeded :
      (e : String × Listing) (s : Seeding) → IsSeeded s.db e → seed_one blank e s ≡ some s
  unfolding seed_one
  seed_one-seeded (isbn, l) s (b, found, same) = rw (found, same) refl

  later-IsSeeded :
      (es : List (String × Listing)) (s t : Seeding) (e : String × Listing)
      → All (λ o. str_eq e.0 o.0 ≡ false) es
      → IsKeyed s.db
      → IsSeeded s.db e
      → seed_all blank es s ≡ some t
      → IsSeeded t.db e
  unfolding seed_all db_of
  later-IsSeeded [] s t e apart keyed there done_ =
      subst (λ db. IsSeeded db e) (ap (db_of blank s) done_) there
  later-IsSeeded (o ∷ os) s t e apart keyed there done_ = elim (Option-cases (seed_one blank o s)) [
    | inl raised ↦ absurd (ground (arith, raised, done_))
    | inr (u, went) ↦
        let after = round_done blank o s u went in
        later-IsSeeded os u t e apart.1 (Outcome-IsKeyed blank o.0 o.1 s u.db after keyed)
          (other-IsSeeded blank o.0 o.1 s u.db e after keyed (other_text e.0 o.0 apart.0) there)
          (rw went at done_)
  ]

  pub all-IsSeeded :
      (es : List (String × Listing)) (s t : Seeding)
      → IsDistinct es
      → IsKeyed s.db
      → seed_all blank es s ≡ some t
      → All (IsSeeded t.db) es
  unfolding seed_all IsDistinct
  all-IsSeeded [] s t distinct keyed done_ = tt
  all-IsSeeded (e ∷ es) s t distinct keyed done_ = elim (Option-cases (seed_one blank e s)) [
    | inl raised ↦ absurd (ground (arith, raised, done_))
    | inr (u, went) ↦
        let after = round_done blank e s u went in
        let keyed_u = Outcome-IsKeyed blank e.0 e.1 s u.db after keyed in
        let rest : seed_all blank es u ≡ some t = rw went at done_ in
        (
          later-IsSeeded es u t e distinct.0 keyed_u (Outcome-IsSeeded blank e.0 e.1 s u.db after)
              rest,
          all-IsSeeded es u t distinct.1 keyed_u rest,
        )
  ]

  pub seed_all-seeded :
      (es : List (String × Listing)) (s : Seeding)
      → All (IsSeeded s.db) es
      → seed_all blank es s ≡ some s
  unfolding seed_all
  seed_all-seeded [] s h = refl
  seed_all-seeded (e ∷ es) s h = rw (seed_one-seeded e s h.0) (seed_all-seeded es s h.1)
