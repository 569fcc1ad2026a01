-- ===== src/Joint/Csrf/Steps.antt =====
-- The operations of the context and of the account page on a server that checks the token.
use ror_books_test.Prelude.{
  ◌≡◌, refl, ap, sym, ◌∙◌, String, some, Bool, List, [], ◌∷◌, ◌++◌, inl, inr,
}
use mathlib.Core.List.{append_assoc}
use ror_books_test.Api.{
  Call, get_csrf, get_session, delete_session, post_session, put_account, patch_password, Server,
  Reply-cases, Failure,
}
use ror_books_test.Auth.{World, login, logout, refresh, login_lem, logout_lem, refresh_lem}
use ror_books_test.Account.{
  Page, save_profile, change_password, change_password_lem, save_profile_accepted,
  save_profile_refused,
}
use ror_books_test.Joint.Csrf.{
  IsToken, header_at, IsCurrent, trusting, guarded, header_at-snoc, header_at-asked, guard-asked,
}

-- What a user does with the context and the account page; `fills` is any edit of its forms.
pub data Step : Type 0 where
  signs_in : (email password : String) → Step
  signs_out reloads saves changes : Step
  fills : Page → Step

-- The steps against a server.
unfoldable pub perform : Server → List Step → World Page → World Page
perform s [] w = w
perform s (signs_in email password ∷ steps) w = perform s steps (login s email password w).1
perform s (signs_out ∷ steps) w = perform s steps (logout s w).1
perform s (reloads ∷ steps) w = perform s steps (refresh s w).1
perform s (saves ∷ steps) w = perform s steps (save_profile s w).1
perform s (changes ∷ steps) w = perform s steps (change_password s w).1
perform s (fills page ∷ steps) w = perform s steps (record w { page = page })

module _ (issue : List Call → String) (valid : List Call → String → Bool)
    (tokens : IsToken issue valid) (refusal : Failure) (s : Server) where
  abbrev safe : Server
  safe = guarded issue valid refusal s

  abbrev open_ : Server
  open_ = trusting issue s

  login_passes :
      (email password : String) (w : World Page)
      → login safe email password w ≡ login open_ email password w
  login_passes email password w =
      rw
        (
          login_lem safe email password w,
          login_lem open_ email password w,
          guard-asked issue valid tokens refusal w.sent
              (s.sign_in (w.sent ++ get_csrf ∷ []) email password),
        )
        refl

  logout_passes : (w : World Page) → logout safe w ≡ logout open_ w
  logout_passes w =
      rw
        (
          logout_lem safe w,
          logout_lem open_ w,
          guard-asked issue valid tokens refusal w.sent (s.sign_out (w.sent ++ get_csrf ∷ [])),
        )
        refl

  reload_passes : (w : World Page) → refresh safe w ≡ refresh open_ w
  reload_passes w = rw (refresh_lem safe w, refresh_lem open_ w) refl

  change_passes : (w : World Page) → change_password safe w ≡ change_password open_ w
  change_passes w =
      rw
        (
          change_password_lem safe w,
          change_password_lem open_ w,
          guard-asked issue valid tokens refusal w.sent
              (s.change_password (w.sent ++ get_csrf ∷ []) w.page.passwords),
        )
        refl

  save_passes : (w : World Page) → save_profile safe w ≡ save_profile open_ w
  save_passes w =
      let reply = s.update_account (w.sent ++ get_csrf ∷ []) w.page.profile in
      let same = guard-asked issue valid tokens refusal w.sent reply in
      elim (Reply-cases reply) [
        | inl (_, e) ↦
            save_profile_accepted safe w (same ∙ e) ∙ sym (save_profile_accepted open_ w e)
        | inr (f, e) ↦
            save_profile_refused safe w f (same ∙ e) ∙ sym (save_profile_refused open_ w f e)
      ]

  login-IsCurrent :
      (email password : String) (w : World Page) → IsCurrent issue (login open_ email password w).1
  login-IsCurrent email password w =
      rw (login_lem open_ email password w, tokens.full w.sent)
        (sym (header_at-asked issue w.sent (post_session email password) refl))

  logout-IsCurrent : (w : World Page) → IsCurrent issue (logout open_ w).1
  logout-IsCurrent w =
      rw (logout_lem open_ w, tokens.full w.sent)
        (sym (header_at-asked issue w.sent delete_session refl))

  reload-IsCurrent : (w : World Page) → IsCurrent issue w → IsCurrent issue (refresh open_ w).1
  reload-IsCurrent w h =
      rw (refresh_lem open_ w) (h ∙ sym (header_at-snoc issue w.sent get_session))

  change-IsCurrent : (w : World Page) → IsCurrent issue (change_password open_ w).1
  change-IsCurrent w =
      rw (change_password_lem open_ w, tokens.full w.sent)
        (sym (header_at-asked issue w.sent (patch_password w.page.passwords) refl))

  save-IsCurrent : (w : World Page) → IsCurrent issue (save_profile open_ w).1
  save-IsCurrent w =
      let put = put_account w.page.profile in
      let after_put = header_at-asked issue w.sent put refl in
      let after_get : header_at issue (w.sent ++ get_csrf ∷ put ∷ get_session ∷ [])
          ≡ some (issue w.sent) =
        ap (header_at issue) (sym (append_assoc w.sent (get_csrf ∷ put ∷ []) (get_session ∷ [])))
        ∙ header_at-snoc issue (w.sent ++ get_csrf ∷ put ∷ []) get_session
        ∙ after_put in
      elim (Reply-cases (s.update_account (w.sent ++ get_csrf ∷ []) w.page.profile)) [
        | inl (_, e) ↦ rw (save_profile_accepted open_ w e, tokens.full w.sent) (sym after_get)
        | inr (f, e) ↦ rw (save_profile_refused open_ w f e, tokens.full w.sent) (sym after_put)
      ]

  -- If Rails accepts a token that it has just issued, then any sign-ins, sign-outs, reloads, saves
  -- of the profile and password changes run on the server that refuses a write without a valid
  -- token exactly as on one that checks nothing; if the client's header is the one its requests
  -- left it with, it is so afterwards.
  pub perform-guarded :
      (steps : List Step) (w : World Page)
      → IsCurrent issue w
      → (perform (guarded issue valid refusal s) steps w ≡ perform (trusting issue s) steps w)
        × IsCurrent issue (perform (trusting issue s) steps w)
  unfolding perform
  perform-guarded [] w h = (refl, h)
  perform-guarded (signs_in email password ∷ steps) w h =
      rw (login_passes email password w)
        (perform-guarded steps (login open_ email password w).1 (login-IsCurrent email password w))
  perform-guarded (signs_out ∷ steps) w h =
      rw (logout_passes w) (perform-guarded steps (logout open_ w).1 (logout-IsCurrent w))
  perform-guarded (reloads ∷ steps) w h =
      rw (reload_passes w) (perform-guarded steps (refresh open_ w).1 (reload-IsCurrent w h))
  perform-guarded (saves ∷ steps) w h =
      rw (save_passes w) (perform-guarded steps (save_profile open_ w).1 (save-IsCurrent w))
  perform-guarded (changes ∷ steps) w h =
      rw (change_passes w) (perform-guarded steps (change_password open_ w).1 (change-IsCurrent w))
  perform-guarded (fills page ∷ steps) w h = perform-guarded steps (record w { page = page }) h
