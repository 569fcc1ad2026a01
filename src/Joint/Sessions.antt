-- ===== src/Joint/Sessions.antt =====
-- The authentication context against the sessions of the server.
use ror_books_test.Prelude.{
  ◌≡◌, refl, String, Option, none, Option-cases, List, [], ◌∷◌, ◌++◌, foldl, inl, inr,
}
use mathlib.Core.List.{foldl-append}
use ror_books_test.Api.{User, Call, get_csrf, get_session, delete_session, post_session, Server}
use ror_books_test.Auth.{
  World, State, login, logout, refresh, login_lem, logout_lem, refresh_lem, settled,
}
use ror_books_test.Backend.{
  Accounts, authenticated, create_session, session_step, session_of, with_sessions, receive,
}

-- What a user does with the context.
pub data Step : Type 0 where
  signs_in : (email password : String) → Step
  signs_out reloads : Step

module _ (a : Accounts) (rest : Server) where
  abbrev pub server : Server
  server = with_sessions a rest

  session_of-append :
      (sent more : List Call)
      → session_of a (sent ++ more) ≡ foldl (session_step a) (session_of a sent) more
  unfolding session_of
  session_of-append sent more = foldl-append (session_step a) none sent more

  -- What a login leaves in the context is what it leaves in the session.
  login_agrees :
      (email password : String) (auth : State) (session : Option User)
      → auth.user ≡ session
      → (settled (receive a.axios_message (create_session a email password)) auth).user
        ≡ session_step a session (post_session email password)
  unfolding create_session session_step receive
  login_agrees email password auth session h =
      elim (Option-cases (authenticated a email password)) [
        | inl wrong ↦ rw (wrong, create_session, session_step) h
        | inr (user, right) ↦ rw (right, create_session, session_step) refl
      ]

  module _ {P : Type 0} where
    -- The context shows the user whose session the server has.
    abbrev pub IsInStep : World P → Type 0
    IsInStep w = w.auth.user ≡ session_of a w.sent

    login-IsInStep :
        (email password : String) (w : World P)
        → IsInStep w
        → IsInStep (login server email password w).1
    unfolding with_sessions
    login-IsInStep email password w h =
        rw
          (
            login_lem server email password w,
            session_of-append w.sent (get_csrf ∷ post_session email password ∷ []),
          )
          (login_agrees email password w.auth (session_of a w.sent) h)

    logout-IsInStep : (w : World P) → IsInStep w → IsInStep (logout server w).1
    unfolding session_step
    logout-IsInStep w h =
        rw (logout_lem server w, session_of-append w.sent (get_csrf ∷ delete_session ∷ [])) refl

    refresh-IsInStep : (w : World P) → IsInStep (refresh server w).1
    unfolding with_sessions session_step
    refresh-IsInStep w = rw (refresh_lem server w, session_of-append w.sent (get_session ∷ [])) refl

    pub perform : List Step → World P → World P
    perform [] w = w
    perform (signs_in email password ∷ steps) w = perform steps (login server email password w).1
    perform (signs_out ∷ steps) w = perform steps (logout server w).1
    perform (reloads ∷ steps) w = perform steps (refresh server w).1

    -- If the context shows the user of the server's session, it does so after any logins, accepted
    -- or refused, logouts and refreshes.
    pub perform-IsInStep :
        (steps : List Step) (w : World P) → IsInStep w → IsInStep (perform steps w)
    unfolding perform
    perform-IsInStep [] w h = h
    perform-IsInStep (signs_in email password ∷ steps) w h =
        perform-IsInStep steps (login server email password w).1 (login-IsInStep email password w h)
    perform-IsInStep (signs_out ∷ steps) w h =
        perform-IsInStep steps (logout server w).1 (logout-IsInStep w h)
    perform-IsInStep (reloads ∷ steps) w h =
        perform-IsInStep steps (refresh server w).1 (refresh-IsInStep w)
