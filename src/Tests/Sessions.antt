-- ===== src/Tests/Sessions.antt =====
-- The context, the frame, the login page and the account page.
use ror_books_test.Prelude.{◌≡◌, refl, none, some, false, [], ◌∷◌, ◌++◌}
use ror_books_test.Api.{ok, failed, get_csrf, delete_session, post_session, get_account}
use ror_books_test.Auth.{
  done, thrown, login, logout, login_lem, logout_lem, signed_in, settled, waiting, login_message,
}
use ror_books_test.Shell
use ror_books_test.Login
use ror_books_test.Account
use ror_books_test.Tests.Data.{
  ann, bob, refusal, open_server, closed_server, nobody, at_login, at_account,
}

login_example : login closed_server "a" "b" at_login ≡ (
  done false,
  record at_login {
    auth = settled (failed refusal) nobody;
    rendered = [] ++ waiting nobody ∷ settled (failed refusal) nobody ∷ [];
    csrf_header = none;
    sent = [] ++ get_csrf ∷ post_session "a" "b" ∷ [];
  },
)
login_example = login_lem closed_server "a" "b" at_login

logout_example : logout closed_server at_account ≡ (
  thrown refusal,
  record at_account {
    auth = signed_in none;
    rendered = [] ++ waiting at_account.auth ∷ signed_in none ∷ [];
    csrf_header = none;
    sent = [] ++ get_csrf ∷ delete_session ∷ [];
  },
)
logout_example = logout_lem closed_server at_account

members_page :
    Shell.app (signed_in (some ann)) "/members"
    ≡ Shell.frame (some (Shell.header "/members" ann)) (Shell.page Shell.librarian_members)
unfolding Shell.app
members_page = refl

app-MaySee_example : (false ≡ false) × Shell.MaySee Shell.librarian_members (some ann)
app-MaySee_example =
    Shell.app-MaySee (signed_in (some ann)) "/members" (some (Shell.header "/members" ann))
      Shell.librarian_members members_page

refused_screen_example :
    let after = (Login.on_submit closed_server at_login).1 in
    (Shell.app after.auth after.location ≡ Shell.frame none (Shell.page Shell.login))
    × ((Login.view after.auth).error ≡ some (login_message refusal))
    × (Shell.remount "/login" after.rendered Login.blank after.page ≡ Login.blank)
refused_screen_example =
    Login.refused_screen closed_server at_login
      (record { nobody = refl; idle = refl; at_login = refl }) refusal refl

login_page : Shell.app nobody "/login" ≡ Shell.frame none (Shell.page Shell.login)
unfolding Shell.app
login_page = refl

saved_message_lost_example :
    let after = (Account.save_profile open_server at_account).1 in
    (after.page.message ≡ some "Profile updated")
    × (Shell.remount "/account" after.rendered Account.mounted after.page ≡ Account.mounted)
    × (Account.view Account.mounted ≡ none)
saved_message_lost_example = Account.saved_message_lost open_server at_account refl

load_example : Account.load open_server at_account ≡ (
  done tt,
  record at_account {
    sent = [] ++ get_account ∷ [];
    page = Account.loaded_page (ok (some bob)) Account.mounted;
  },
)
load_example = Account.load_lem open_server at_account
