-- ===== src/Auth/Sessions.antt =====
-- The outcome of each operation of the provider, on every answer of the server.
use ror_books_test.Prelude.{
  inl, inr, ◌≡◌, refl, true, false, none, some, Option, Bool, String, [], ◌∷◌, ◌++◌, arith, truthy,
  if◌then◌else◌,
}
use mathlib.Core.List.{append_assoc}
use ror_books_test.Api.{
  Reply-cases, Server, Reply, ok, failed, User, get_csrf, get_session, post_session, delete_session,
}
use ror_books_test.Auth.Reducer.{State}
use ror_books_test.Auth.Effects.{World, Outcome, done, thrown}
use ror_books_test.Auth.Provider.{ensure_csrf_token, login, logout, refresh, boot, login_message}

-- The header after the answer to `GET /csrf`: a token that is not empty replaces the old one.
abbrev pub header_after : Reply (Option String) → Option String → Option String
header_after (ok (some token)) old = if truthy token then some token else old
header_after _ old = old

module _ {P : Type 0} (s : Server) (w : World P) where
  -- `ensureCsrfToken` never throws, sends one request, and changes nothing but the header, which
  -- keeps its old value when the request fails or brings no token.
  pub ensure_csrf_token_lem : ensure_csrf_token s w ≡ (
    done tt,
    record w {
      csrf_header = header_after (s.csrf w.sent) w.csrf_header;
      sent = w.sent ++ get_csrf ∷ [];
    },
  )
  unfolding ensure_csrf_token
  ensure_csrf_token_lem = ground arith

abbrev pub signed_in : Option User → State
signed_in user = record { user = user; loading = false; error = none }

abbrev pub waiting : State → State
waiting before = record before { loading = true; error = none }

-- The state that a login ends in, by the answer to `POST /session`.
abbrev pub settled : Reply (Option User) → State → State
settled (ok user) before = signed_in user
settled (failed e) before = record before { loading = false; error = some (login_message e) }

abbrev pub accepted : Reply (Option User) → Bool
accepted (ok user) = true
accepted (failed e) = false

abbrev pub outcome : {A : Type 0} → Reply A → Outcome A
outcome (ok a) = done a
outcome (failed e) = thrown e

module _ {P : Type 0} (s : Server) where
  -- On every answer `login` returns whether the server accepted, and leaves exactly this world:
  -- the context first waits and then holds the user that came back, or keeps its user and shows
  -- the error; the CSRF token is asked for before the credentials are sent.
  pub login_lem :
      (email password : String) (w : World P)
      → let reply = s.sign_in (w.sent ++ get_csrf ∷ []) email password in
        login s email password w ≡ (
          done (accepted reply),
          record w {
            auth = settled reply w.auth;
            rendered = w.rendered ++ waiting w.auth ∷ settled reply w.auth ∷ [];
            csrf_header = header_after (s.csrf w.sent) w.csrf_header;
            sent = w.sent ++ get_csrf ∷ post_session email password ∷ [];
          },
        )
  unfolding login
  login_lem email password w =
      elim (Reply-cases (s.sign_in (w.sent ++ get_csrf ∷ []) email password)) [
        | inl (user, e) ↦ rw (ensure_csrf_token_lem, e) (simp append_assoc)
        | inr (f, e) ↦ rw (ensure_csrf_token_lem, e) (simp append_assoc)
      ]

  -- On every answer `logout` ends with nobody signed in; a refused request is thrown after that.
  pub logout_lem :
      (w : World P)
      → let reply = s.sign_out (w.sent ++ get_csrf ∷ []) in
        logout s w ≡ (
          outcome reply,
          record w {
            auth = signed_in none;
            rendered = w.rendered ++ waiting w.auth ∷ signed_in none ∷ [];
            csrf_header = header_after (s.csrf w.sent) w.csrf_header;
            sent = w.sent ++ get_csrf ∷ delete_session ∷ [];
          },
        )
  unfolding logout
  logout_lem w = elim (Reply-cases (s.sign_out (w.sent ++ get_csrf ∷ []))) [
    | inl (_, e) ↦ rw (ensure_csrf_token_lem, e) (simp append_assoc)
    | inr (f, e) ↦ rw (ensure_csrf_token_lem, e) (simp append_assoc)
  ]

-- What a refresh leaves behind, by the answer to `GET /session/current`.
abbrev pub session_user : Reply (Option User) → Option User
session_user (ok user) = user
session_user (failed e) = none

module _ {P : Type 0} (s : Server) (w : World P) where
  -- `refresh` never throws, and ends with the user of the session, or with none if the request
  -- fails.
  pub refresh_lem : refresh s w ≡ (
    done tt,
    record w {
      auth = signed_in (session_user (s.current w.sent));
      rendered = w.rendered ++ waiting w.auth ∷ signed_in (session_user (s.current w.sent)) ∷ [];
      sent = w.sent ++ get_session ∷ [];
    },
  )
  unfolding refresh
  refresh_lem = elim (Reply-cases (s.current w.sent)) [
    | inl (user, e) ↦ rw e (rw append_assoc refl)
    | inr (f, e) ↦ rw e (rw append_assoc refl)
  ]

  -- The first mount ends with the user of the session, or with none.
  pub boot_lem :
      (boot s w).0 ≡ done tt
      × (boot s w).1.auth ≡ record w.auth {
        user = session_user (s.current (w.sent ++ get_csrf ∷ []));
        loading = false;
      }
  unfolding boot
  boot_lem = elim (Reply-cases (s.current (w.sent ++ get_csrf ∷ []))) [
    | inl (user, e) ↦ rw (ensure_csrf_token_lem, e) (refl, refl)
    | inr (f, e) ↦ rw (ensure_csrf_token_lem, e) (refl, refl)
  ]
