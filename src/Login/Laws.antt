-- ===== src/Login/Laws.antt =====
-- A login as the user sees it, from the form to the next screen.
use ror_books_test.Prelude.{
  ◌≡◌, ◌++◌, refl, inl, inr, String, Option, none, some, Bool, false, List, [], ◌∷◌, arith,
  if◌then◌else◌,
}
use ror_books_test.Api.{
  Server, Reply, ok, failed, Failure, User, librarian, member, get_csrf, post_session, Reply-cases,
}
use ror_books_test.Auth.{
  State, World, done, login_lem, signed_in, settled, waiting, accepted, header_after, login_message,
}
use ror_books_test.Shell.{
  Page, app-MaySee, outlet, app, frame, page, header, librarian_dashboard, member_dashboard,
  remount, remount_of_loading,
}
use ror_books_test.Login.Defs.{Form, blank, on_submit, view}

-- A visitor at the login form: nobody is signed in and nothing is in flight.
pub record IsVisitor (w : World Form) : Type 0 where
  pub nobody : w.auth.user ≡ none
  pub idle : w.auth.loading ≡ false
  pub at_login : w.location ≡ "/login"

-- The answer to the login request of a visitor's form.
abbrev pub login_reply : Server → World Form → Reply (Option User)
login_reply s w = s.sign_in (w.sent ++ get_csrf ∷ []) w.page.email w.page.password

-- The dashboard that `RoleRoute` shows a user.
abbrev pub home : User → Page
home user = elim user.role [ librarian ↦ librarian_dashboard | member ↦ member_dashboard ]

app_at_login :
    (state : State) (path : String)
    → state.user ≡ none
    → path ≡ "/login"
    → state.loading ≡ false
    → app state path ≡ frame none (page Page.login)
unfolding app outlet
app_at_login state path nobody here idle = rw (nobody, here, idle)

outlet-root : (user : User) → outlet "/" (some user) ≡ page (home user)
unfolding outlet
outlet-root user = ground arith

app-signed_in :
    (user : User)
    → app (signed_in (some user)) "/" ≡ frame (some (header "/" user)) (page (home user))
unfolding app
app-signed_in user = rw (outlet-root user)

on_submit_lem :
    (s : Server) (w : World Form)
    → on_submit s w ≡ (
      done tt,
      record w {
        auth = settled (login_reply s w) w.auth;
        rendered = w.rendered ++ waiting w.auth ∷ settled (login_reply s w) w.auth ∷ [];
        csrf_header = header_after (s.csrf w.sent) w.csrf_header;
        sent = w.sent ++ get_csrf ∷ post_session w.page.email w.page.password ∷ [];
        location = if accepted (login_reply s w) then "/" else w.location;
      },
    )
unfolding on_submit
on_submit_lem s w = elim (Reply-cases (login_reply s w)) [
  | inl (user, e) ↦ rw (login_lem, e)
  | inr (f, e) ↦ rw (login_lem, e)
]

module _ (s : Server) (w : World Form) (visitor : IsVisitor w) where
  -- When the server refuses the login, the visitor is back at the login page with the error shown,
  -- and the form is blank again: the page left the screen while the context waited.
  pub refused_screen :
      (e : Failure)
      → login_reply s w ≡ failed e
      → let after = (on_submit s w).1 in
        (app after.auth after.location ≡ frame none (page Page.login))
        × ((view after.auth).error ≡ some (login_message e))
        × (remount "/login" after.rendered blank after.page ≡ blank)
  unfolding view
  refused_screen e h =
      rw (on_submit_lem, h)
        (
          app_at_login _ w.location visitor.nobody visitor.at_login refl,
          refl,
          remount_of_loading "/login" w.rendered (_ ∷ []) (waiting w.auth) blank w.page refl,
        )

module _ (s : Server) (w : World Form) where
  -- When the server accepts the login, the user is at the dashboard of the user's role.
  pub accepted_screen :
      (user : User)
      → login_reply s w ≡ ok (some user)
      → let after = (on_submit s w).1 in
        app after.auth after.location ≡ frame (some (header "/" user)) (page (home user))
  accepted_screen user h = rw (on_submit_lem, h) (app-signed_in user)

-- The button of the login page never reads "Signing in..." nor is it disabled: while the context
-- waits, the frame shows its own loading screen in the page's place.
pub button_idle :
    (state : State) (path : String) (links : Option (List (String × Bool)))
    → app state path ≡ frame links (page Page.login)
    → ((view state).button ≡ "Sign in") × ((view state).disabled ≡ false)
unfolding view
button_idle state path links h = ground (arith, app-MaySee state path links Page.login h)
