-- ===== src/Modal/Escape.antt =====
-- What the Escape key calls, after any renders.
use ror_books_test.Prelude.{
  ℕ, ◌+◌, ◌<◌, ◌≡◌, refl, sym, ap, ◌∙◌, Option, none, some, Bool, true, false, not, ◌&&◌, ◌==◌,
  List, [], ◌∷◌, ◌++◌, map, keep, All, Bool-cases, inl, inr, if◌then◌else◌, arith,
}
use mathlib.Core.List.{append-nil, map-append}
use ror_books_test.Modal.Defs.{
  Listener, Document, Dialog, same_bool, remove_listener, add_listener, cleanup, effect, mounted,
  rendered, unmounted, key_pressed, backdrop_clicked,
}

keep-pass :
    {A : Type 0} (p : A → Bool) (x : A) (xs : List A) → p x ≡ true → keep p (x ∷ xs) ≡ x ∷ keep p xs
keep-pass p x xs h = rw (keep, h) refl

-- The last of some values.
pub last : {A : Type 0} → A → List A → A
last x [] = x
last x (next ∷ xs) = last next xs

unchanged : (a b same : Bool) → same_bool a b && same ≡ true → (b ≡ a) × (same ≡ true)
unchanged true true same h = (refl, h)
unchanged false false same h = (refl, h)
unchanged true false same h = ground (arith, h)
unchanged false true same h = ground (arith, h)

module _ {H : Type 0} where
  -- Every listener is older than an identity.
  abbrev pub IsOlder : ℕ → List (Listener H) → Type 0
  IsOlder n ls = All (λ l. l.id < n) ls

  IsOlder-next : (n : ℕ) (ls : List (Listener H)) → IsOlder n ls → IsOlder (n + 1) ls
  IsOlder-next n [] h = tt
  IsOlder-next n (l ∷ ls) h = (omega (arith, h.0), IsOlder-next n ls h.1)

  keep-old :
      (n : ℕ) (c : H) (ls : List (Listener H))
      → IsOlder n ls
      → keep (λ l. not (l.id == n)) (ls ++ record { id = n; on_close = c } ∷ []) ≡ ls
  keep-old n c [] h = ground arith
  keep-old n c (l ∷ ls) h =
      let other : (l.id == n) ≡ false = ground (arith, h.0) in
      keep-pass (λ l. not (l.id == n)) l (ls ++ record { id = n; on_close = c } ∷ []) (ap not other)
      ∙ ap (λ rest. l ∷ rest) (keep-old n c ls h.1)

  -- The listeners of a document, with the dialog's own behind them.
  Stands : Option ℕ → Bool → H → List (Listener H) → List (Listener H) → Type 0
  Stands none is_open c base now = (is_open ≡ false) × (now ≡ base)
  Stands (some id) is_open c base now =
      (is_open ≡ true) × (now ≡ base ++ record { id = id; on_close = c } ∷ []) × IsOlder id base

  record Inv (base : List (Listener H)) (is_open : Bool) (c : H) (s : Document H × Dialog H)
      : Type 0 where
    is_open_now : s.1.is_open ≡ is_open
    close_is : s.1.on_close ≡ c
    older : IsOlder s.0.fresh base
    stands : Stands s.1.added s.1.is_open s.1.on_close base s.0.listeners

  cleanup-fresh : (a : Option ℕ) (doc : Document H) → (cleanup a doc).fresh ≡ doc.fresh
  unfolding cleanup remove_listener
  cleanup-fresh none doc = refl
  cleanup-fresh (some id) doc = refl

  cleanup-base :
      (a : Option ℕ) (is_open : Bool) (c : H) (base : List (Listener H)) (doc : Document H)
      → Stands a is_open c base doc.listeners
      → (cleanup a doc).listeners ≡ base
  unfolding cleanup remove_listener Stands
  cleanup-base none is_open c base doc h = h.1
  cleanup-base (some id) is_open c base doc h =
      ap (keep (λ l. not (l.id == id))) h.1 ∙ keep-old id c base h.2

  effect-Inv :
      (is_open : Bool) (c : H) (base : List (Listener H)) (doc : Document H)
      → doc.listeners ≡ base
      → IsOlder doc.fresh base
      → Inv base is_open c (effect is_open c doc)
  unfolding effect add_listener Stands
  effect-Inv false c base doc e h = record {
    is_open_now = refl;
    close_is = refl;
    older = h;
    stands = (refl, e);
  }
  effect-Inv true c base doc e h = record {
    is_open_now = refl;
    close_is = refl;
    older = IsOlder-next doc.fresh base h;
    stands = (refl, ap (λ ls. ls ++ record { id = doc.fresh; on_close = c } ∷ []) e, h);
  }

  -- The dialog after later renders, with the document.
  pub run : (H → H → Bool) → List (Bool × H) → Document H × Dialog H → Document H × Dialog H
  run same [] s = s
  run same ((is_open, c) ∷ rs) s = run same rs (rendered same is_open c s)

  rendered-Inv :
      (same : H → H → Bool) (base : List (Listener H)) (s : Document H × Dialog H)
      (was_open is_open : Bool) (before c : H)
      → ((a b : H) → same a b ≡ true → a ≡ b)
      → Inv base was_open before s
      → Inv base is_open c (rendered same is_open c s)
  unfolding rendered
  rendered-Inv same base s was_open is_open before c sound h =
      elim (Bool-cases (same_bool is_open s.1.is_open && same c s.1.on_close)) [
        | inl old ↦
            let (opens, closes) = unchanged is_open s.1.is_open (same c s.1.on_close) old in
            rw old record {
              is_open_now = opens;
              close_is = sym (sound c s.1.on_close closes);
              older = h.older;
              stands = h.stands;
            }
        | inr new ↦ rw new (
            effect-Inv is_open c base (cleanup s.1.added s.0)
              (cleanup-base s.1.added s.1.is_open s.1.on_close base s.0 h.stands)
              (rw cleanup-fresh h.older))
      ]

  run-Inv :
      (same : H → H → Bool) (base : List (Listener H)) (first : Bool × H) (rs : List (Bool × H))
      (s : Document H × Dialog H)
      → ((a b : H) → same a b ≡ true → a ≡ b)
      → Inv base first.0 first.1 s
      → let final = last first rs in Inv base final.0 final.1 (run same rs s)
  unfolding run last
  run-Inv same base first [] s sound h = h
  run-Inv same base first ((is_open, c) ∷ rs) s sound h =
      run-Inv same base (is_open, c) rs (rendered same is_open c s) sound
        (rendered-Inv same base s first.0 is_open first.1 c sound h)

  -- What the dialog calls when it is dismissed: `onClose` if it is open.
  abbrev pub calls : Bool → H → List H
  calls is_open c = if is_open then c ∷ [] else []

  pressed :
      (a : Option ℕ) (is_open : Bool) (c : H) (base now : List (Listener H))
      → Stands a is_open c base now
      → map (λ l. l.on_close) now ≡ map (λ l. l.on_close) base ++ calls is_open c
  unfolding Stands
  pressed none is_open c base now h = rw (h.0, h.1) (sym (append-nil _))
  pressed (some id) is_open c base now h = rw (h.0, h.1) (map-append (λ l. l.on_close) base _)

  -- In a document whose listeners have identities of their own, after any renders of a dialog
  -- whose `onClose`s are compared soundly, Escape calls what it called before the dialog was there
  -- and then the last `onClose` if the dialog is open, as a click on the backdrop does; and the
  -- listeners are the old ones again once the dialog is unmounted.
  pub escape-calls :
      (same : H → H → Bool)
      → ((a b : H) → same a b ≡ true → a ≡ b)
      → (doc : Document H) → IsOlder doc.fresh doc.listeners
      → (first : Bool × H) (rs : List (Bool × H))
      → let s = run same rs (mounted first.0 first.1 doc) in
        let final = last first rs in
        (key_pressed "Escape" s.0 ≡ key_pressed "Escape" doc ++ calls final.0 final.1)
        × (backdrop_clicked s.1 ≡ calls final.0 final.1)
        × ((unmounted s).listeners ≡ doc.listeners)
  unfolding mounted key_pressed backdrop_clicked unmounted
  escape-calls same sound doc old first rs =
      let s = run same rs (mounted first.0 first.1 doc) in
      let h =
        run-Inv same doc.listeners first rs (mounted first.0 first.1 doc) sound
          (effect-Inv first.0 first.1 doc.listeners doc refl old) in
      let same_calls : calls s.1.is_open s.1.on_close ≡ calls (last first rs).0 (last first rs).1 =
        rw (h.is_open_now, h.close_is) refl in
      (
        pressed s.1.added s.1.is_open s.1.on_close doc.listeners s.0.listeners h.stands
            ∙ ap (λ c. map (λ l. l.on_close) doc.listeners ++ c) same_calls,
        same_calls,
        cleanup-base s.1.added s.1.is_open s.1.on_close doc.listeners s.0 h.stands,
      )
