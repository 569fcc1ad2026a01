-- ===== src/Joint/Csrf.antt =====
-- `protect_from_forgery` of app/controllers/application_controller.rb against the token that
-- frontend/src/api/client.ts keeps as a header. The tokens themselves are made and compared by
-- Rails, so what it issues and what it accepts are parameters.
pub mod Steps
use ror_books_test.Prelude.{
  ◌≡◌, refl, ap, sym, ◌∙◌, String, Option, none, some, truthy, Bool, true, false, List, [], ◌∷◌,
  ◌++◌, foldl, inl, inr, if◌then◌else◌,
}
use mathlib.Core.List.{foldl-append, append_assoc, append-nil}
use ror_books_test.Api.{
  Call, get_csrf, get_session, delete_session, post_session, put_account, patch_password, Server,
  Reply, Reply-cases, ok, failed, Failure,
}
use ror_books_test.Auth.{World, login, logout, refresh, login_lem, logout_lem, refresh_lem}
use ror_books_test.Account.{
  Page, save_profile, change_password, change_password_lem, save_profile_accepted,
  save_profile_refused,
}

abbrev is_get_csrf : Call → Bool
is_get_csrf get_csrf = true
is_get_csrf _ = false

-- What Rails does with the tokens of a session: one that it issued is accepted by the next
-- request, and is a text that is not empty.
pub record IsToken (issue : List Call → String) (valid : List Call → String → Bool) : Type 0 where
  pub issued : (sent : List Call) → valid (sent ++ get_csrf ∷ []) (issue sent) ≡ true
  pub full : (sent : List Call) → truthy (issue sent) ≡ true

-- The requests so far, and the header that they leave the client with.
record Seen : Type 0 where
  before : List Call
  header : Option String

module _ (issue : List Call → String) where
  abbrev see : Seen → Call → Seen
  see s call = record {
    before = s.before ++ call ∷ [];
    header = if is_get_csrf call then some (issue s.before) else s.header;
  }

  abbrev seen : List Call → Seen
  seen sent = foldl see (record { before = []; header = none }) sent

  -- The header that a request carries, by the requests before it.
  unfoldable pub header_at : List Call → Option String
  header_at sent = (seen sent).header

  -- The header that the client holds is the one its requests left it with.
  abbrev pub IsCurrent : World Page → Type 0
  IsCurrent w = w.csrf_header ≡ header_at w.sent

  -- A server that hands out tokens and does not check them.
  abbrev pub trusting : Server → Server
  trusting s = record s { csrf = λ sent. ok (some (issue sent)) }

  seen-before : (sent : List Call) (s : Seen) → (foldl see s sent).before ≡ s.before ++ sent
  seen-before [] s = sym (append-nil s.before)
  seen-before (c ∷ cs) s = seen-before cs (see s c) ∙ append_assoc s.before (c ∷ []) cs

  -- The header after one more request.
  pub header_at-snoc :
      (sent : List Call) (call : Call)
      → header_at (sent ++ call ∷ [])
        ≡ (if is_get_csrf call then some (issue sent) else header_at sent)
  unfolding header_at
  header_at-snoc sent call =
      let start : Seen = record { before = []; header = none } in
      let known : (seen sent).before ≡ sent = seen-before sent start in
      ap (λ (s : Seen). s.header) (foldl-append see start sent (call ∷ []))
      ∙ ap (λ before. if is_get_csrf call then some (issue before) else header_at sent) known

  -- The header after the token was asked for and another request was sent.
  pub header_at-asked :
      (sent : List Call) (call : Call)
      → is_get_csrf call ≡ false
      → header_at (sent ++ get_csrf ∷ call ∷ []) ≡ some (issue sent)
  header_at-asked sent call other =
      ap header_at (sym (append_assoc sent (get_csrf ∷ []) (call ∷ [])))
      ∙ (rw (header_at-snoc (sent ++ get_csrf ∷ []) call, other, header_at-snoc sent get_csrf) refl)

  module _ (valid : List Call → String → Bool) where
    -- `verified_request?` of a write
    abbrev accepts : List Call → Option String → Bool
    accepts sent none = false
    accepts sent (some token) = valid sent token

    unfoldable pub verified : List Call → Bool
    verified sent = accepts sent (header_at sent)

    -- `protect_from_forgery with: :exception`; the body of the refusal is up to Rails.
    abbrev guard : {A : Type 0} → Failure → List Call → Reply A → Reply A
    guard refusal sent reply = if verified sent then reply else failed refusal

    -- The server that hands out tokens and checks the writes.
    abbrev pub guarded : Failure → Server → Server
    guarded refusal s = record s {
      csrf = λ sent. ok (some (issue sent));
      sign_in = λ sent email password. guard refusal sent (s.sign_in sent email password);
      sign_out = λ sent. guard refusal sent (s.sign_out sent);
      update_account = λ sent profile. guard refusal sent (s.update_account sent profile);
      change_password = λ sent passwords. guard refusal sent (s.change_password sent passwords);
    }

    module _ (tokens : IsToken issue valid) (refusal : Failure) where
      verified-asked : (sent : List Call) → verified (sent ++ get_csrf ∷ []) ≡ true
      unfolding verified
      verified-asked sent =
          ap (accepts (sent ++ get_csrf ∷ [])) (header_at-snoc sent get_csrf) ∙ tokens.issued sent

      -- Right after the token was asked for, a write passes the check.
      pub guard-asked :
          {A : Type 0} (sent : List Call) (reply : Reply A)
          → guard refusal (sent ++ get_csrf ∷ []) reply ≡ reply
      guard-asked sent reply = rw (verified-asked sent) refl
