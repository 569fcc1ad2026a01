-- ===== src/Account/Defs.antt =====
-- The state of the account page and its handlers. A setter that runs in the same tick as another
-- is one update of the record.
use ror_books_test.Prelude.{
  String, Option, none, some, Bool, true, false, truthy, join, if◌then◌else◌,
}
use ror_books_test.Api.{
  Failure, Details, many, single, or_else, response_error, response_details, User, Profile,
  Passwords, Server, get_account, put_account, patch_password,
}
use ror_books_test.Auth.{
  M, ◌>>=◌, ◌>>◌, try_catch, try_finally, request, read_page, update_page, ensure_csrf_token,
  refresh, logout,
}

pub record Page : Type 0 where
  pub loading : Bool
  pub profile : Profile
  pub saving : Bool
  pub message : Option String
  pub error : Option String
  pub passwords : Passwords
  pub changing_pwd : Bool

abbrev pub no_passwords : Passwords
no_passwords = record { current_password = ""; password = ""; password_confirmation = "" }

-- The state of a page that has just been mounted.
abbrev pub mounted : Page
mounted = record {
  loading = true;
  profile = record { first_name = ""; last_name = ""; email = "" };
  saving = false;
  message = none;
  error = none;
  passwords = no_passwords;
  changing_pwd = false;
}

-- `{ first_name: u?.first_name || "", … }`
pub profile_of : Option User → Profile
profile_of none = record { first_name = ""; last_name = ""; email = "" }
profile_of (some u) = record {
  first_name = or_else u.first_name "";
  last_name = or_else u.last_name "";
  email = u.email;
}

-- The effect of the mount: the profile is loaded, and a refused request is thrown.
unfoldable pub load : Server → M Page (Unit {0})
unfolding profile_of
load server =
    try_finally
      (do
        user ← request get_account server.account
        update_page (λ p. record p { profile = profile_of user }))
      (update_page (λ p. record p { loading = false }))

-- `details?.join?.("; ")`: a text has no `join`.
abbrev pub joined_details : Option Details → Option String
joined_details none = none
joined_details (some (many texts)) = some (join "; " texts)
joined_details (some (single text)) = none

unfoldable pub error_text : Failure → String → String
error_text e fallback =
    or_else (joined_details (response_details e)) (or_else (response_error e) fallback)

-- `saveProfile`
unfoldable pub save_profile : Server → M Page (Unit {0})
save_profile server = do
  start ← read_page
  update_page (λ p. record p { saving = true; error = none; message = none })
  ensure_csrf_token server
  try_finally
      (try_catch
        (do
          request (put_account start.profile) (λ sent. server.update_account sent start.profile)
          refresh server
          update_page (λ p. record p { message = some "Profile updated" }))
        (λ e.
          update_page (λ p. record p { error = some (error_text e "Failed to update profile") })))
      (update_page (λ p. record p { saving = false }))

-- `changePassword`
unfoldable pub change_password : Server → M Page (Unit {0})
change_password server = do
  start ← read_page
  update_page (λ p. record p { changing_pwd = true; error = none; message = none })
  ensure_csrf_token server
  try_finally
      (try_catch
        (do
          request (patch_password start.passwords)
              (λ sent. server.change_password sent start.passwords)
          update_page
              (λ p. record p { message = some "Password changed"; passwords = no_passwords }))
        (λ e.
          update_page (λ p. record p { error = some (error_text e "Failed to change password") })))
      (update_page (λ p. record p { changing_pwd = false }))

-- `onClick={logout}`
unfoldable pub sign_out : Server → M Page (Unit {0})
sign_out server = logout server

-- The handlers of the six inputs.
pub edit_profile : Profile → Page → Page
edit_profile profile p = record p { profile = profile }

pub edit_passwords : Passwords → Page → Page
edit_passwords passwords p = record p { passwords = passwords }

-- `text && <div>…</div>`: a banner stands for a text that is not empty.
abbrev pub banner : Option String → Option String
banner none = none
banner (some text) = if truthy text then some text else none

-- What the page shows besides its inputs; `none` while it loads.
pub record View : Type 0 where
  pub message : Option String
  pub error : Option String
  pub save_disabled : Bool
  pub save_text : String
  pub change_disabled : Bool
  pub change_text : String

unfoldable pub view : Page → Option View
view p =
    if p.loading
    then none
    else some (record {
      message = banner p.message;
      error = banner p.error;
      save_disabled = p.saving;
      save_text = if p.saving then "Saving…" else "Save changes";
      change_disabled = p.changing_pwd;
      change_text = if p.changing_pwd then "Changing…" else "Change password";
    })
