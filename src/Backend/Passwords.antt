-- ===== src/Backend/Passwords.antt =====
-- The other actions of app/controllers/accounts_controller.rb: `show` and `password`.
use ror_books_test.Prelude.{
  ◌≡◌, refl, String, Option, Bool, true, false, List, [], ◌∷◌, if◌then◌else◌, Bool-cases, inl, inr,
  ◌⊎◌,
}
use ror_books_test.Api.{User}
use ror_books_test.Backend.Tables.{
  Response, rendered, refused, error_body, record_invalid, is_rendered,
}
use ror_books_test.Backend.Membership.{unless_errors}
use ror_books_test.Backend.Search.{text_or_empty}

-- What Devise does with the digest of a password: `valid_password?`, the digest that `password=`
-- leaves, and the messages of the validations.
pub record Digests : Type 0 where
  pub valid_password : String → String → Bool
  pub assigned : String → Option String → String
  pub full_messages : User → Option String → Option String → List String

-- `AccountsController#show`
abbrev pub show_account : User → Response User
show_account user = rendered user

-- The body of a request to `password`.
pub record PasswordParams : Type 0 where
  pub current_password : Option String
  pub password : Option String
  pub password_confirmation : Option String

module _ (devise : Digests) where
  -- `AccountsController#password`, on the digest of the user that is signed in.
  unfoldable pub change_password : User → PasswordParams → String → Response (Unit {0}) × String
  unfolding record_invalid
  change_password user p digest =
      let errors = devise.full_messages user p.password p.password_confirmation in
      if devise.valid_password digest (text_or_empty p.current_password)
      then unless_errors errors (record_invalid errors, digest)
          (rendered tt, devise.assigned digest p.password)
      else (refused 422 (error_body "Current password is incorrect"), digest)

  changed :
      (errors : List String) (digest new : String)
      → let after : Response (Unit {0}) × String =
          unless_errors errors (record_invalid errors, digest) (rendered tt, new) in
        ((is_rendered after.0 ≡ true) × (errors ≡ []) × (after.1 ≡ new))
        ⊎ ((is_rendered after.0 ≡ false) × (after.1 ≡ digest))
  unfolding record_invalid
  changed [] digest new = inl (refl, refl, refl)
  changed (e ∷ es) digest new = inr (refl, refl)

  -- A password is changed only by a request that gives the old one and passes the validations, and
  -- any other request leaves the digest as it was.
  pub change_password-digest :
      (user : User) (p : PasswordParams) (digest : String)
      → let after = change_password user p digest in
        ((is_rendered after.0 ≡ true)
          × (devise.valid_password digest (text_or_empty p.current_password) ≡ true)
          × (after.1 ≡ devise.assigned digest p.password))
        ⊎ ((is_rendered after.0 ≡ false) × (after.1 ≡ digest))
  unfolding change_password
  change_password-digest user p digest =
      elim (Bool-cases (devise.valid_password digest (text_or_empty p.current_password))) [
        | inl right ↦
            rw right
              (elim (changed (devise.full_messages user p.password p.password_confirmation) digest
                (devise.assigned digest p.password)) [
                  | inl (success, empty, after) ↦ inl (success, refl, after)
                  | inr refusal ↦ inr refusal
                ])
        | inr wrong ↦ rw wrong (inr (refl, refl))
      ]
