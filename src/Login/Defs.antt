-- ===== src/Login/Defs.antt =====
-- The login form and its submission.
use ror_books_test.Prelude.{String, Option, Bool, if◌then◌else◌}
use ror_books_test.Api.{Server}
use ror_books_test.Auth.{State, M, ◌>>=◌, pure, read_page, navigate, login}

pub record Form : Type 0 where
  pub email : String
  pub password : String

abbrev pub blank : Form
blank = record { email = ""; password = "" }

pub set_email : String → Form → Form
set_email text form = record form { email = text }

pub set_password : String → Form → Form
set_password text form = record form { password = text }

-- `onSubmit`
unfoldable pub on_submit : Server → M Form (Unit {0})
on_submit server = do
  form ← read_page
  accepted ← login server form.email form.password
  if accepted then navigate "/" else pure tt

-- What the page shows besides its two inputs.
pub record View : Type 0 where
  pub error : Option String
  pub disabled : Bool
  pub button : String

unfoldable pub view : State → View
view state = record {
  error = state.error;
  disabled = state.loading;
  button = if state.loading then "Signing in..." else "Sign in";
}
