-- ===== src/QuickSearch/Shown.antt =====
-- Which results stand under the box.
use ror_books_test.Prelude.{
  eq_iff, ◌≡◌, refl, sym, ap, ◌∙◌, Option-cases, Bool-cases, String, none, some, true, List, [],
  ◌∷◌, ◌++◌, str_eq, truthy, arith, inl, inr, if◌then◌else◌,
}
use mathlib.Core.Bool.{true≢false}
use ror_books_test.Api.{ok}
use ror_books_test.Paging.Tracking.{Tracks, Tracks-end, Tracks-push, Tracks-answer}
use ror_books_test.QuickSearch.Defs.{Box, empty, typed, timer_fired, answered, shown}
use ror_books_test.QuickSearch.Debounce.{IsCurrent}

-- The events of a box whose answers come back in the order of the requests.
pub data Event : Type 0 where
  type : String → Event
  fire answer : Event

-- The text that was typed last.
pub text_after : String → List Event → String
text_after q [] = q
text_after q (type text ∷ es) = text_after text es
text_after q (fire ∷ es) = text_after q es
text_after q (answer ∷ es) = text_after q es

module _ {A : Type 0} (serve : String → List A) where
  -- The oldest request is answered, if there is one.
  answer_oldest : List String → Box A → Box A
  answer_oldest [] b = b
  answer_oldest (t ∷ ts) b = answered 0 (ok (serve t)) b

  step : Event → Box A → Box A
  step (type text) b = typed text b
  step fire b = timer_fired b
  step answer b = answer_oldest b.in_flight b

  pub run : List Event → Box A → Box A
  run [] b = b
  run (e ∷ es) b = run es (step e b)

  -- All requests in flight are answered, oldest first.
  pub drain : List String → Box A → Box A
  drain [] b = b
  drain (t ∷ ts) b = drain ts (answered 0 (ok (serve t)) b)

  record Inv (b : Box A) : Type 0 where
    current : IsCurrent b.timer b.q
    follows : b.timer ≡ none → truthy b.q ≡ true → Tracks serve b.in_flight b.q b.results

  typed-Inv : (text : String) (b : Box A) → Inv b → Inv (typed text b)
  unfolding typed
  typed-Inv text b h = elim (Bool-cases (str_eq text b.q)) [
    | inl old ↦ rw old h
    | inr new ↦ elim (Bool-cases (truthy text)) [
      | inl full ↦ rw (new, full) record { current = (refl, full); follows = λ unset. ground arith }
      | inr blank ↦
          rw (new, blank)
            record { current = tt; follows = λ unset full. absurd (true≢false (sym full ∙ blank)) }
    ]
  ]

  fired_unset : (b : Box A) → b.timer ≡ none → timer_fired b ≡ b
  unfolding timer_fired
  fired_unset b unset = ground arith

  fired_set :
      (text : String) (b : Box A)
      → b.timer ≡ some text
      → timer_fired b ≡ record b { timer = none; in_flight = b.in_flight ++ text ∷ [] }
  unfolding timer_fired
  fired_set text b set = ground arith

  current_text :
      (text : String) (b : Box A)
      → b.timer ≡ some text
      → IsCurrent b.timer b.q
      → (text ≡ b.q) × (truthy b.q ≡ true)
  current_text text b set h = rw set at h

  timer_fired-Inv : (b : Box A) → Inv b → Inv (timer_fired b)
  timer_fired-Inv b h = elim (Option-cases b.timer) [
    | inl unset ↦ rw (fired_unset b unset) h
    | inr (text, set) ↦
        let (same, full) = current_text text b set h.current in
        rw (fired_set text b set) record {
          current = tt;
          follows = λ unset full. Tracks-push serve b.in_flight text b.q b.results same;
        }
  ]

  oldest-Inv : (ts : List String) (b : Box A) → b.in_flight ≡ ts → Inv b → Inv (answer_oldest ts b)
  unfolding answer_oldest answered
  oldest-Inv [] b e h = h
  oldest-Inv (t ∷ ts) b e h = record {
    current = h.current;
    follows = λ fired full.
        rw e (Tracks-answer serve t ts b.q b.results (rw e at (h.follows fired full)));
  }

  step-Inv : (e : Event) (b : Box A) → Inv b → Inv (step e b)
  unfolding step
  step-Inv (type text) b h = typed-Inv text b h
  step-Inv fire b h = timer_fired-Inv b h
  step-Inv answer b h = oldest-Inv b.in_flight b refl h

  run-Inv : (es : List Event) (b : Box A) → Inv b → Inv (run es b)
  unfolding run
  run-Inv [] b h = h
  run-Inv (e ∷ es) b h = run-Inv es (step e b) (step-Inv e b h)

  drain-q : (ts : List String) (b : Box A) → (drain ts b).q ≡ b.q
  unfolding drain answered
  drain-q [] b = refl
  drain-q (t ∷ ts) b = drain-q ts (answered 0 (ok (serve t)) b)

  drain_lem :
      (ts : List String) (b : Box A)
      → Tracks serve ts b.q b.results
      → (drain ts b).results ≡ serve b.q
  unfolding drain answered
  drain_lem [] b h = Tracks-end serve b.q b.results h
  drain_lem (t ∷ ts) b h =
      drain_lem ts (answered 0 (ok (serve t)) b) (Tracks-answer serve t ts b.q b.results h)

  oldest-q : (ts : List String) (b : Box A) → (answer_oldest ts b).q ≡ b.q
  unfolding answer_oldest answered
  oldest-q [] b = refl
  oldest-q (t ∷ ts) b = refl

  timer_fired-q : (b : Box A) → ((timer_fired b).q ≡ b.q) × ((timer_fired b).timer ≡ none)
  unfolding timer_fired
  timer_fired-q b = ground arith

  typed-q : (text : String) (b : Box A) → (typed text b).q ≡ text
  unfolding typed
  typed-q text b = elim (Bool-cases (str_eq text b.q)) [
    | inl old ↦ rw old (sym ((eq_iff text b.q).0 old))
    | inr new ↦ rw new (ground arith)
  ]

  run-q : (es : List Event) (b : Box A) → (run es b).q ≡ text_after b.q es
  unfolding run step text_after
  run-q [] b = refl
  run-q (type text ∷ es) b = run-q es (typed text b) ∙ ap (λ q. text_after q es) (typed-q text b)
  run-q (fire ∷ es) b = run-q es (timer_fired b) ∙ ap (λ q. text_after q es) (timer_fired-q b).0
  run-q (answer ∷ es) b =
      run-q es (answer_oldest b.in_flight b) ∙ ap (λ q. text_after q es) (oldest-q b.in_flight b)

  shown_lem :
      (b : Box A)
      → Inv b
      → b.timer ≡ none
      → shown (drain b.in_flight b) ≡ (if truthy b.q then some (serve b.q) else none)
  unfolding shown
  shown_lem b h unset = elim (Bool-cases (truthy b.q)) [
    | inl full ↦
        rw (drain-q b.in_flight b, drain_lem b.in_flight b (h.follows unset full), full) refl
    | inr blank ↦ rw (drain-q b.in_flight b, blank) refl
  ]

  -- If no request is refused and answers come in the order of the requests, then after any typing,
  -- firing and answering, once the timer has fired and all requests are answered, what stands under
  -- the box is what the server finds for the text that was typed last, and nothing if that is
  -- empty.
  pub shown-drain :
      (es : List Event)
      → let b : Box A = timer_fired (run es empty) in
        let q = text_after "" es in
        shown (drain b.in_flight b) ≡ (if truthy q then some (serve q) else none)
  shown-drain es =
      let before : Box A = run es empty in
      let h =
        timer_fired-Inv before
          (run-Inv es empty record { current = tt; follows = λ unset full. ground arith }) in
      let text : (timer_fired before).q ≡ text_after "" es =
        (timer_fired-q before).0 ∙ run-q es empty in
      shown_lem (timer_fired before) h (timer_fired-q before).1
      ∙ ap (λ q. if truthy q then some (serve q) else none) text
