-- ===== src/Auth/Effects.antt =====
-- An asynchronous handler as a state and exception monad. The world holds the context's state, the
-- states that were rendered (a handler awaits between two dispatches, so each is rendered), the
-- CSRF header of the axios instance, the requests sent, the router's path, and the state of the page
-- that stands in the outlet.
use ror_books_test.Prelude.{String, Option, List, [], ◌∷◌, ◌++◌}
use ror_books_test.Api.{Failure, Reply, ok, failed, Call}
use ror_books_test.Auth.Reducer.{State, Action, reducer}

pub record World (P : Type 0) : Type 0 where
  pub auth : State
  pub rendered : List State
  pub csrf_header : Option String
  pub sent : List Call
  pub location : String
  pub page : P

pub data Outcome (A : Type 0) : Type 0 where
  done : A → Outcome A
  thrown : Failure → Outcome A

abbrev pub M : Type 0 → Type 0 → Type 0
M P A = World P → Outcome A × World P

module _ {P A B : Type 0} where
  abbrev continue : Outcome A × World P → (A → M P B) → Outcome B × World P
  continue (done a, w) next = next a w
  continue (thrown e, w) next = (thrown e, w)

infixl 5 ◌>>=◌ ◌>>◌
abbrev pub ◌>>=◌ : {P A B : Type 0} → M P A → (A → M P B) → M P B
◌>>=◌ m next w = continue (m w) next

abbrev pub ◌>>◌ : {P A B : Type 0} → M P A → M P B → M P B
m >> next = m >>= λ _. next

module _ {P : Type 0} where
  abbrev pub pure : {A : Type 0} → A → M P A
  pure a w = (done a, w)

  abbrev resume : {A : Type 0} → Outcome A × World P → (Failure → M P A) → Outcome A × World P
  resume (done a, w) handler = (done a, w)
  resume (thrown e, w) handler = handler e w

  -- `try { body } catch (e) { handler }`
  abbrev pub try_catch : {A : Type 0} → M P A → (Failure → M P A) → M P A
  try_catch body handler w = resume (body w) handler

  abbrev settle : {A : Type 0} → Outcome A × World P → M P (Unit {0}) → Outcome A × World P
  settle (result, w) cleanup = continue (cleanup w) (λ _ w'. (result, w'))

  -- `try { body } finally { cleanup }`
  abbrev pub try_finally : {A : Type 0} → M P A → M P (Unit {0}) → M P A
  try_finally body cleanup w = settle (body w) cleanup

  abbrev answer : {A : Type 0} → Reply A → M P A
  answer (ok a) w = (done a, w)
  answer (failed e) w = (thrown e, w)

  -- `await api.…`: the request is recorded, and a refusal is thrown.
  abbrev pub request : {A : Type 0} → Call → (List Call → Reply A) → M P A
  request call reply w = answer (reply w.sent) (record w { sent = w.sent ++ call ∷ [] })

  abbrev pub modify : (World P → World P) → M P (Unit {0})
  modify f w = (done tt, f w)

  -- A setter of the page's own state.
  abbrev pub update_page : (P → P) → M P (Unit {0})
  update_page f w = (done tt, record w { page = f w.page })

  -- `navigate(to)`
  abbrev pub navigate : String → M P (Unit {0})
  navigate to w = (done tt, record w { location = to })

  abbrev pub read_page : M P P
  read_page w = (done w.page, w)

  unfoldable pub dispatch : Action → M P (Unit {0})
  dispatch action w =
      let after = reducer w.auth action in
      (done tt, record w { auth = after; rendered = w.rendered ++ after ∷ [] })
