-- ===== src/QuickSearch/Defs.antt =====
-- The search box with its timer: `setTimeout` of 300 ms, cleared when the text changes. Time is not
-- modelled: a timer that is set may fire at any later point before it is cleared.
use ror_books_test.Prelude.{
  ℕ, String, Option, none, some, List, [], ◌∷◌, ◌++◌, str_eq, truthy, if◌then◌else◌,
}
use ror_books_test.Api.{Reply, ok, failed}
use ror_books_test.Paging.{without}

-- The text, the results, the text of the timer that is set, and the texts that were asked for and
-- are not answered.
pub record Box (A : Type 0) : Type 0 where
  pub q : String
  pub results : List A
  pub timer : Option String
  pub in_flight : List String

module _ {A : Type 0} where
  abbrev pub empty : Box A
  empty = record { q = ""; results = []; timer = none; in_flight = [] }

  -- The effect of a new text.
  abbrev search_effect : Box A → Box A
  search_effect b =
      if truthy b.q then record b { timer = some b.q } else record b { results = []; timer = none }

  -- `setQ(text)`; the effect and its cleanup run if that is a change.
  unfoldable pub typed : String → Box A → Box A
  typed text b = if str_eq text b.q then b else search_effect (record b { q = text })

  -- The timer fires and the request is sent.
  unfoldable pub timer_fired : Box A → Box A
  timer_fired b = elim b.timer [
    | none ↦ b
    | some text ↦ record b { timer = none; in_flight = b.in_flight ++ text ∷ [] }
  ]

  -- The request at place `i` is answered; a refusal is not caught.
  unfoldable pub answered : ℕ → Reply (List A) → Box A → Box A
  answered i (ok items) b = record b { results = items; in_flight = without i b.in_flight }
  answered i (failed e) b = record b { in_flight = without i b.in_flight }

  -- `{q && <ul>…</ul>}`
  unfoldable pub shown : Box A → Option (List A)
  shown b = if truthy b.q then some b.results else none
