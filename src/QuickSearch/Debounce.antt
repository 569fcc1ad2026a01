-- ===== src/QuickSearch/Debounce.antt =====
-- Which texts are asked for.
use ror_books_test.Prelude.{
  ℕ, zero, suc, ◌≡◌, refl, ap, ◌∙◌, Option-cases, String, Option, none, some, true, false, List, [],
  ◌∷◌, ◌++◌, All, All-append, str_eq, truthy, arith, inl, inr,
}
use ror_books_test.Api.{Reply, ok, failed}
use ror_books_test.Paging.{without}
use ror_books_test.QuickSearch.Defs.{Box, empty, typed, timer_fired, answered}

pub data Event (A : Type 0) : Type 0 where
  type : String → Event A
  fire : Event A
  answer : ℕ → Reply (List A) → Event A

abbrev pub IsText : String → Type 0
IsText text = truthy text ≡ true

-- The timer that is set, if any, is for the text in the box.
abbrev pub IsCurrent : Option String → String → Type 0
IsCurrent none q = Unit
IsCurrent (some text) q = (text ≡ q) × IsText q

All-without : (i : ℕ) (texts : List String) → All IsText texts → All IsText (without i texts)
All-without i [] h = tt
All-without zero (t ∷ texts) h = h.1
All-without (suc i) (t ∷ texts) h = (h.0, All-without i texts h.1)

module _ {A : Type 0} where
  pub step : Event A → Box A → Box A
  step (type text) b = typed text b
  step fire b = timer_fired b
  step (answer i reply) b = answered i reply b

  pub run : List (Event A) → Box A → Box A
  run [] b = b
  run (e ∷ es) b = run es (step e b)

  record Inv (b : Box A) : Type 0 where
    for_box : IsCurrent b.timer b.q
    asked : All IsText b.in_flight

  typed-Inv : (text : String) (b : Box A) → Inv b → Inv (typed text b)
  unfolding typed
  typed-Inv text b h = ground arith

  timer_fired-Inv : (b : Box A) → Inv b → Inv (timer_fired b)
  unfolding timer_fired
  timer_fired-Inv b h = elim (Option-cases b.timer) [
    | inl unset ↦ ground arith
    | inr (text, set) ↦ ground (arith, All-append IsText b.in_flight (text ∷ []) h.asked)
  ]

  step-Inv : (e : Event A) (b : Box A) → Inv b → Inv (step e b)
  unfolding step answered
  step-Inv (type text) b h = typed-Inv text b h
  step-Inv fire b h = timer_fired-Inv b h
  step-Inv (answer i (ok items)) b h = record {
    for_box = h.for_box;
    asked = All-without i b.in_flight h.asked;
  }
  step-Inv (answer i (failed e)) b h = record {
    for_box = h.for_box;
    asked = All-without i b.in_flight h.asked;
  }

  run-Inv : (es : List (Event A)) (b : Box A) → Inv b → Inv (run es b)
  unfolding run
  run-Inv [] b h = h
  run-Inv (e ∷ es) b h = run-Inv es (step e b) (step-Inv e b h)

  -- After any typing, firing and answering, a timer that is set is for the text that now stands in
  -- the box, and neither it nor any request that is unanswered is for an empty text.
  pub timer-IsCurrent :
      (es : List (Event A))
      → let b : Box A = run es empty in IsCurrent b.timer b.q × All IsText b.in_flight
  timer-IsCurrent es =
      let start : Inv empty = record { for_box = tt; asked = tt } in
      let h = run-Inv es empty start in (h.for_box, h.asked)

  unfoldable pub type_all : List String → Box A → Box A
  type_all [] b = b
  type_all (text ∷ texts) b = type_all texts (typed text b)

  typed-in_flight : (text : String) (b : Box A) → (typed text b).in_flight ≡ b.in_flight
  unfolding typed
  typed-in_flight text b = ground arith

  type_all-in_flight :
      (texts : List String) (b : Box A) → (type_all texts b).in_flight ≡ b.in_flight
  unfolding type_all
  type_all-in_flight [] b = refl
  type_all-in_flight (text ∷ texts) b =
      type_all-in_flight texts (typed text b) ∙ typed-in_flight text b

  fired :
      (text : String) (b : Box A)
      → str_eq text b.q ≡ false
      → truthy text ≡ true
      → (timer_fired (typed text b)).in_flight ≡ b.in_flight ++ text ∷ []
  unfolding typed timer_fired
  fired text b new full = rw (new, full) refl

  -- However many texts are typed in a row, only the last one is asked for when the timer fires: it
  -- adds one request to those that were unanswered before.
  pub last_text_asked :
      (texts : List String) (text : String) (b : Box A)
      → str_eq text (type_all texts b).q ≡ false
      → truthy text ≡ true
      → (timer_fired (typed text (type_all texts b))).in_flight ≡ b.in_flight ++ text ∷ []
  last_text_asked texts text b new full =
      fired text (type_all texts b) new full ∙ ap (λ l. l ++ text ∷ []) (type_all-in_flight texts b)
