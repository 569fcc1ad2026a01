-- ===== src/Auth/Provider.antt =====
-- The operations of `AuthProvider`, and `ensureCsrfToken`.
use ror_books_test.Prelude.{String, Option, none, some, Bool, true, false, truthy, if◌then◌else◌}
use ror_books_test.Api.{Failure, or_else, response_error}
use ror_books_test.Api.{get_csrf, get_session, delete_session, post_session, Server}
use ror_books_test.Auth.Reducer.{loading, loaded, error, reducer}
use ror_books_test.Auth.Effects.{
  World, M, ◌>>=◌, ◌>>◌, pure, try_catch, try_finally, request, modify, dispatch,
}

module _ {P : Type 0} where
  -- `if (token) headers["X-CSRF-Token"] = token`
  unfoldable pub set_header : Option String → World P → World P
  set_header none w = w
  set_header (some token) w = if truthy token then record w { csrf_header = some token } else w

  unfoldable pub ensure_csrf_token : Server → M P (Unit {0})
  unfolding set_header
  ensure_csrf_token server =
      try_catch (request get_csrf server.csrf >>= λ token. modify (set_header token)) (λ e. pure tt)

  -- The effect of the first mount.
  unfoldable pub boot : Server → M P (Unit {0})
  unfolding dispatch reducer
  boot server = do
    ensure_csrf_token server
    try_catch (request get_session server.current >>= λ user. dispatch (loaded user))
        λ e. dispatch (loaded none)

unfoldable pub login_message : Failure → String
login_message e = or_else (response_error e) (or_else (some e.message) "Login failed")

module _ {P : Type 0} where
  unfoldable pub login : Server → String → String → M P Bool
  unfolding dispatch reducer
  login server email password = do
    dispatch loading
    ensure_csrf_token server
    try_catch
        (do
          user ← request (post_session email password) (λ sent. server.sign_in sent email password)
          dispatch (loaded user)
          pure true)
        λ e. do dispatch (error (login_message e)); pure false

  unfoldable pub logout : Server → M P (Unit {0})
  unfolding dispatch reducer
  logout server = do
    dispatch loading
    ensure_csrf_token server
    try_finally (request delete_session server.sign_out) (dispatch (loaded none))

  unfoldable pub refresh : Server → M P (Unit {0})
  unfolding dispatch reducer
  refresh server = do
    dispatch loading
    try_catch (request get_session server.current >>= λ user. dispatch (loaded user))
        λ e. dispatch (loaded none)
