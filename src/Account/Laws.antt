-- ===== src/Account/Laws.antt =====
-- The outcome of the handlers of the account page, and what is left of it on the screen.
use mathlib.Core.List.{append_assoc}
use ror_books_test.Prelude.{◌≡◌, refl, inl, inr, Option, none, some, false, [], ◌∷◌, ◌++◌, arith}
use ror_books_test.Api.{
  Server, Reply, Reply-cases, ok, failed, Failure, User, get_csrf, get_session, put_account,
  patch_password, get_account,
}
use ror_books_test.Auth.{
  World, Outcome, done, ensure_csrf_token_lem, refresh_lem, thrown, header_after, signed_in,
  waiting, session_user,
}
use ror_books_test.Shell.{remount, remount_of_loading}
use ror_books_test.Account.Defs.{
  Page, mounted, no_passwords, profile_of, load, error_text, save_profile, change_password, view,
}

-- The answers to the two forms.
abbrev pub save_reply : Server → World Page → Reply (Unit {0})
save_reply s w = s.update_account (w.sent ++ get_csrf ∷ []) w.page.profile

abbrev pub change_reply : Server → World Page → Reply (Unit {0})
change_reply s w = s.change_password (w.sent ++ get_csrf ∷ []) w.page.passwords

-- The page after each form's handler, by the answer.
abbrev pub saved_page : Reply (Unit {0}) → Page → Page
saved_page (ok _) p = record p { saving = false; error = none; message = some "Profile updated" }
saved_page (failed e) p = record p {
  saving = false;
  error = some (error_text e "Failed to update profile");
  message = none;
}

abbrev pub changed_page : Reply (Unit {0}) → Page → Page
changed_page (ok _) p = record p {
  changing_pwd = false;
  error = none;
  message = some "Password changed";
  passwords = no_passwords;
}
changed_page (failed e) p = record p {
  changing_pwd = false;
  error = some (error_text e "Failed to change password");
  message = none;
}

module _ (s : Server) (w : World Page) where
  -- A password change never throws. It leaves the context and the rendered states alone, asks for
  -- the token and sends the three texts once; the texts are cleared only if the server accepts.
  pub change_password_lem : change_password s w ≡ (
    done tt,
    record w {
      csrf_header = header_after (s.csrf w.sent) w.csrf_header;
      sent = w.sent ++ get_csrf ∷ patch_password w.page.passwords ∷ [];
      page = changed_page (change_reply s w) w.page;
    },
  )
  unfolding change_password
  change_password_lem = elim (Reply-cases (change_reply s w)) [
    | inl (_, e) ↦ rw (ensure_csrf_token_lem, e) (simp append_assoc)
    | inr (f, e) ↦ rw (ensure_csrf_token_lem, e) (simp append_assoc)
  ]

  -- A refused profile is kept with the error shown; the session is not asked for again.
  pub save_profile_refused :
      (f : Failure)
      → save_reply s w ≡ failed f
      → save_profile s w ≡ (
        done tt,
        record w {
          csrf_header = header_after (s.csrf w.sent) w.csrf_header;
          sent = w.sent ++ get_csrf ∷ put_account w.page.profile ∷ [];
          page = saved_page (failed f) w.page;
        },
      )
  unfolding save_profile
  save_profile_refused f e = rw (ensure_csrf_token_lem, e) (simp append_assoc)

  -- An accepted profile is followed by a refresh of the session.
  pub save_profile_accepted :
      save_reply s w ≡ ok tt
      → let user =
          session_user (s.current (w.sent ++ get_csrf ∷ put_account w.page.profile ∷ [])) in
        save_profile s w ≡ (
          done tt,
          record w {
            auth = signed_in user;
            rendered = w.rendered ++ waiting w.auth ∷ signed_in user ∷ [];
            csrf_header = header_after (s.csrf w.sent) w.csrf_header;
            sent = w.sent ++ get_csrf ∷ put_account w.page.profile ∷ get_session ∷ [];
            page = saved_page (ok tt) w.page;
          },
        )
  unfolding save_profile
  save_profile_accepted e = rw (ensure_csrf_token_lem, e, refresh_lem) (simp append_assoc)

  -- The page that is on the screen once an accepted profile is saved is a fresh one that loads:
  -- the refresh takes the outlet off the screen, so "Profile updated" is set on a page that is gone.
  pub saved_message_lost :
      save_reply s w ≡ ok tt
      → let after = (save_profile s w).1 in
        (after.page.message ≡ some "Profile updated")
        × (remount "/account" after.rendered mounted after.page ≡ mounted)
        × (view mounted ≡ none)
  unfolding view
  saved_message_lost e =
      rw (save_profile_accepted e)
        (refl, remount_of_loading "/account" w.rendered (_ ∷ []) (waiting w.auth) _ _ refl, refl)

-- What loading makes of the page, by the answer to `GET /account`.
abbrev pub loaded_page : Reply (Option User) → Page → Page
loaded_page (ok user) p = record p { loading = false; profile = profile_of user }
loaded_page (failed e) p = record p { loading = false }

abbrev pub quiet : Reply (Option User) → Outcome (Unit {0})
quiet (ok user) = done tt
quiet (failed e) = thrown e

-- Loading always ends: the form is shown, with the user's texts, or with the old ones and the
-- refusal thrown.
pub load_lem :
    (s : Server) (w : World Page)
    → load s w ≡ (
      quiet (s.account w.sent),
      record w { sent = w.sent ++ get_account ∷ []; page = loaded_page (s.account w.sent) w.page },
    )
unfolding load
load_lem s w = ground arith
