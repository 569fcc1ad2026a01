-- ===== src/Backend/Sessions.antt =====
-- app/controllers/sessions_controller.rb over the requests of the authentication context. The rows
-- of users stay as they are, and the CSRF token is accepted.
use ror_books_test.Prelude.{ℕ, String, Option, none, some, Bool, List, foldl, if◌then◌else◌}
use ror_books_test.Api.{User, ErrorBody, Call, delete_session, post_session, Server, ok}
use ror_books_test.Backend.Tables.{Response, rendered, refused, error_body, receive}

-- What the controller asks of Devise, and how axios words a refusal.
pub record Accounts : Type 0 where
  pub find_for_authentication : String → Option User
  pub valid_password : User → String → Bool
  pub token : String
  pub unauthenticated : ErrorBody
  pub axios_message : ℕ → String

-- The user whose password was right.
abbrev pub authenticated : Accounts → String → String → Option User
authenticated a email password = elim (a.find_for_authentication email) [
  | none ↦ none
  | some user ↦ if a.valid_password user password then some user else none
]

-- `SessionsController#create`
unfoldable pub create_session : Accounts → String → String → Response (Option User)
create_session a email password = elim (authenticated a email password) [
  | none ↦ refused 401 (error_body "Invalid email or password")
  | some user ↦ rendered (some user)
]

-- The session after a request.
unfoldable pub session_step : Accounts → Option User → Call → Option User
session_step a session (post_session email password) = elim (authenticated a email password) [
  | none ↦ session
  | some user ↦ some user
]
session_step a session delete_session = none
session_step a session _ = session

unfoldable pub session_of : Accounts → List Call → Option User
unfolding session_step
session_of a sent = foldl (session_step a) none sent

-- `SessionsController#destroy`; without a session `authenticate_user!` refuses.
unfoldable pub destroy_session : Accounts → Option User → Response (Unit {0})
destroy_session a none = refused 401 a.unauthenticated
destroy_session a (some user) = rendered tt

-- A server with this controller, and other answers for the account page.
unfoldable pub with_sessions : Accounts → Server → Server
unfolding session_of create_session destroy_session receive
with_sessions a rest = record rest {
  csrf = λ sent. ok (some a.token);
  current = λ sent. ok (session_of a sent);
  sign_in = λ sent email password. receive a.axios_message (create_session a email password);
  sign_out = λ sent. receive a.axios_message (destroy_session a (session_of a sent));
}
