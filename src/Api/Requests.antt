-- ===== src/Api/Requests.antt =====
-- The requests that the authentication provider and the account page make, and their answers.
use ror_books_test.Prelude.{ℕ, String, Option, List}
use ror_books_test.Api.Replies.{Reply}

pub data Role : Type 0 where
  librarian member : Role

-- `User` of frontend/src/context/AuthContext.tsx.
pub record User : Type 0 where
  pub id : ℕ
  pub email : String
  pub first_name : Option String
  pub last_name : Option String
  pub role : Role

-- The profile form of the account page.
pub record Profile : Type 0 where
  pub first_name : String
  pub last_name : String
  pub email : String

pub record Passwords : Type 0 where
  pub current_password : String
  pub password : String
  pub password_confirmation : String

pub data Call : Type 0 where
  get_csrf get_session delete_session get_account : Call
  post_session : (email password : String) → Call
  put_account : Profile → Call
  patch_password : Passwords → Call

-- The answer of each request after a list of earlier requests. An answer without the field that
-- the caller reads (`res.data?.user ?? null`, `res.data?.csrfToken`) is `ok none`.
pub record Server : Type 0 where
  pub csrf : List Call → Reply (Option String)
  pub current : List Call → Reply (Option User)
  pub sign_in : List Call → String → String → Reply (Option User)
  pub sign_out : List Call → Reply (Unit {0})
  pub account : List Call → Reply (Option User)
  pub update_account : List Call → Profile → Reply (Unit {0})
  pub change_password : List Call → Passwords → Reply (Unit {0})
