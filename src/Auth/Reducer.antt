-- ===== src/Auth/Reducer.antt =====
-- The state of the authentication context and its reducer.
use ror_books_test.Prelude.{String, Option, none, some, Bool, true, false}
use ror_books_test.Api.{User}

pub record State : Type 0 where
  pub user : Option User
  pub loading : Bool
  pub error : Option String

pub data Action : Type 0 where
  loading : Action
  loaded : Option User → Action
  error : String → Action

unfoldable pub reducer : State → Action → State
reducer state loading = record state { loading = true; error = none }
reducer state (loaded user) = record state { loading = false; user = user }
reducer state (error text) = record state { loading = false; error = some text }

-- The state that `useReducer` starts with.
abbrev pub initial : State
initial = record { user = none; loading = true; error = none }
