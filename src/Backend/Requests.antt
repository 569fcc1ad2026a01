-- ===== src/Backend/Requests.antt =====
-- The requests that write, as config/routes.rb sends them to the controllers.
use ror_books_test.Prelude.{ℕ, ◌==◌, String, Option, none, some, Bool, false, find}
use ror_books_test.Api.{User}
use ror_books_test.Backend.Tables.{Database, Response, is_rendered}
use ror_books_test.Backend.Lending.{create_borrowing, return_book, mark_overdue}
use ror_books_test.Backend.Catalogue.{BookParams, create_book, update_book, destroy_book}
use ror_books_test.Backend.Membership.{
  MemberParams, Devise, create_member, update_member, destroy_member, update_account,
}

pub data Request : Type 0 where
  post_borrowing : (book_id : ℕ) → Request
  post_return : (id : ℕ) → Option String → Request
  post_mark_overdue : Request
  post_book : BookParams → Request
  put_book : (id : ℕ) → BookParams → Request
  delete_book : (id : ℕ) → Request
  post_member : MemberParams → Request
  put_member : (id : ℕ) → MemberParams → Request
  delete_member : (id : ℕ) → Request
  put_account : MemberParams → Request

-- What the actions ask of Rails and Devise.
pub record Rails : Type 0 where
  pub blank : String → Bool
  pub devise : Devise

-- Whether an answer is a success, and the tables.
abbrev outcome : {A : Type 0} → Response A × Database → Bool × Database
outcome (response, db) = (is_rendered response, db)

module _ (rails : Rails) (now : ℕ) where
  -- The action of a request for the user that is signed in.
  unfoldable pub act : User → Request → Database → Bool × Database
  act user (post_borrowing book_id) db = outcome (create_borrowing now user book_id db)
  act user (post_return id comment) db = outcome (return_book rails.blank now user id comment db)
  act user post_mark_overdue db = outcome (mark_overdue now user db)
  act user (post_book p) db = outcome (create_book rails.blank user p db)
  act user (put_book id p) db = outcome (update_book rails.blank user id p db)
  act user (delete_book id) db = outcome (destroy_book user id db)
  act user (post_member p) db = outcome (create_member rails.devise user p db)
  act user (put_member id p) db = outcome (update_member rails.devise user id p db)
  act user (delete_member id) db = outcome (destroy_member user id db)
  act user (put_account p) db = outcome (update_account rails.devise user p db)

  abbrev pub act_as : Option User → Request → Database → Bool × Database
  act_as none request db = (false, db)
  act_as (some user) request db = act user request db

  -- A request in a session: `authenticate_user!` looks its user up, and stops without one.
  unfoldable pub handle : Option ℕ → Request → Database → Bool × Database
  unfolding act
  handle none request db = (false, db)
  handle (some id) request db = act_as (find (λ u. u.id == id) db.users) request db
