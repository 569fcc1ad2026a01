-- ===== src/Backend/Membership.antt =====
-- The actions of app/controllers/members_controller.rb and app/controllers/accounts_controller.rb that
-- write. What Devise validates of a user is an argument, and the passwords are outside.
use ror_books_test.Prelude.{
  ℕ, ◌+◌, ◌==◌, String, Option, none, some, not, List, [], ◌∷◌, ◌++◌, map, keep, if◌then◌else◌,
}
use ror_books_test.Api.{User, member, Messages}
use ror_books_test.Backend.Tables.{
  Database, Response, rendered, forbidden, not_found, field_errors, record_invalid, is_librarian,
  find_member,
}

-- `params.require(:member).permit(…)` and `params.require(:user).permit(…)`.
pub record MemberParams : Type 0 where
  pub email : Option String
  pub password : Option String
  pub first_name : Option String
  pub last_name : Option String

-- `user.errors` of a row that is about to be saved, with the password that was sent, if any, and
-- the same as full messages.
pub record Devise : Type 0 where
  pub errors : User → Option String → Database → List (String × Messages)
  pub full_messages : List (String × Messages) → List String

abbrev keep_or : Option String → Option String → Option String
keep_or none old = old
keep_or (some text) old = some text

abbrev email_or : Option String → String → String
email_or none old = old
email_or (some text) old = text

-- `User.new(member_params)` with `user.role = :member`.
unfoldable pub new_member : MemberParams → Database → User
new_member p db = record {
  id = db.next_user;
  email = email_or p.email "";
  first_name = p.first_name;
  last_name = p.last_name;
  role = member;
}

unfoldable pub assign_user : MemberParams → User → User
assign_user p u = record u {
  email = email_or p.email u.email;
  first_name = keep_or p.first_name u.first_name;
  last_name = keep_or p.last_name u.last_name;
}

abbrev pub replace_user : User → Database → Database
replace_user u db = record db { users = map (λ o. if o.id == u.id then u else o) db.users }

-- The first answer if there is an error, the second if there is none.
abbrev pub unless_errors : {A E : Type 0} → List E → A → A → A
unless_errors [] invalid valid = valid
unless_errors (e ∷ es) invalid valid = invalid

module _ (devise : Devise) where
  -- `MembersController#create`
  unfoldable pub create_member : User → MemberParams → Database → Response User × Database
  unfolding new_member field_errors
  create_member user p db =
      let row = new_member p db in
      let errors = devise.errors row p.password db in
      let saved = record db { users = db.users ++ row ∷ []; next_user = db.next_user + 1 } in
      if is_librarian user
      then unless_errors errors (field_errors errors, db) (rendered row, saved)
      else (forbidden, db)

  abbrev pub update_found_member : MemberParams → Option User → Database → Response User × Database
  update_found_member p none db = (not_found, db)
  update_found_member p (some u) db =
      let row = assign_user p u in
      let errors = devise.errors row p.password db in
      unless_errors errors (field_errors errors, db) (rendered row, replace_user row db)

  -- `MembersController#update`
  unfoldable pub update_member : User → ℕ → MemberParams → Database → Response User × Database
  unfolding assign_user field_errors
  update_member user id p db =
      if is_librarian user then update_found_member p (find_member id db) db else (forbidden, db)

  -- `AccountsController#update`
  unfoldable pub update_account : User → MemberParams → Database → Response User × Database
  unfolding assign_user record_invalid
  update_account user p db =
      let row = assign_user p user in
      let errors = devise.errors row none db in
      unless_errors errors (record_invalid (devise.full_messages errors), db)
        (rendered row, replace_user row db)

abbrev pub destroy_found_member : Option User → Database → Response (Unit {0}) × Database
destroy_found_member none db = (not_found, db)
destroy_found_member (some u) db = (
  rendered tt,
  record db {
    users = keep (λ o. not (o.id == u.id)) db.users;
    borrowings = keep (λ o. not (o.user_id == u.id)) db.borrowings;
  },
)

-- `MembersController#destroy`, with the borrowings of the member (`dependent: :destroy`).
unfoldable pub destroy_member : User → ℕ → Database → Response (Unit {0}) × Database
destroy_member user id db =
    if is_librarian user then destroy_found_member (find_member id db) db else (forbidden, db)
