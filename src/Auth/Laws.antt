-- ===== src/Auth/Laws.antt =====
-- What the reducer keeps true, whatever is dispatched.
use ror_books_test.Prelude.{◌≡◌, true, none, List, [], ◌∷◌, foldl, arith}
use ror_books_test.Auth.Reducer.{State, Action, loading, loaded, error, reducer, initial}

-- A request in flight shows no old error, and an error is shown only when nothing is in flight.
pub record IsConsistent (s : State) : Type 0 where
  pub no_error_while_loading : s.loading ≡ true → s.error ≡ none

reducer-IsConsistent : (s : State) (a : Action) → IsConsistent (reducer s a)
unfolding reducer
reducer-IsConsistent s loading = ground arith
reducer-IsConsistent s (loaded u) = ground arith
reducer-IsConsistent s (error text) = ground arith

foldl-IsConsistent :
    (s : State) (actions : List Action) → IsConsistent s → IsConsistent (foldl reducer s actions)
foldl-IsConsistent s [] h = h
foldl-IsConsistent s (a ∷ actions) h =
    foldl-IsConsistent (reducer s a) actions (reducer-IsConsistent s a)

-- After any sequence of dispatched actions, starting from the initial state, a context that is
-- loading carries no error message.
pub actions-IsConsistent : (actions : List Action) → IsConsistent (foldl reducer initial actions)
actions-IsConsistent actions = foldl-IsConsistent initial actions (ground arith)
