-- ===== src/Tests/Data.antt =====
-- Users, answers and servers for the tests.
use ror_books_test.Prelude.{none, some, true, false, [], ◌∷◌}
use ror_books_test.Api.{User, librarian, member, Failure, many, ok, failed, Server}
use ror_books_test.Auth.{World, State}
use ror_books_test.Login
use ror_books_test.Account
use ror_books_test.Forms.{whole, BookForm}

abbrev pub ann : User
ann = record {
  id = 1;
  email = "ann@library.test";
  first_name = some "Ann";
  last_name = none;
  role = librarian;
}

abbrev pub bob : User
bob = record {
  id = 2;
  email = "bob@library.test";
  first_name = none;
  last_name = none;
  role = member;
}

abbrev pub refusal : Failure
refusal = record {
  is_axios = true;
  body = some (record {
    error = some "Unprocessable Entity";
    details = some (many ("No copies left" ∷ "Already borrowed" ∷ []));
    errors = none;
  });
  message = "Request failed with status code 422";
}

-- A server that accepts everything and knows one user, and one that refuses everything.
abbrev pub open_server : Server
open_server = record {
  csrf = λ sent. ok (some "token");
  current = λ sent. ok (some bob);
  sign_in = λ sent email password. ok (some bob);
  sign_out = λ sent. ok tt;
  account = λ sent. ok (some bob);
  update_account = λ sent profile. ok tt;
  change_password = λ sent passwords. ok tt;
}

abbrev pub closed_server : Server
closed_server = record {
  csrf = λ sent. failed refusal;
  current = λ sent. failed refusal;
  sign_in = λ sent email password. failed refusal;
  sign_out = λ sent. failed refusal;
  account = λ sent. failed refusal;
  update_account = λ sent profile. failed refusal;
  change_password = λ sent passwords. failed refusal;
}

abbrev pub nobody : State
nobody = record { user = none; loading = false; error = none }

abbrev pub at_login : World Login.Form
at_login = record {
  auth = nobody;
  rendered = [];
  csrf_header = none;
  sent = [];
  location = "/login";
  page = record { email = "bob@library.test"; password = "secret" };
}

abbrev pub at_account : World Account.Page
at_account = record {
  auth = record { user = some bob; loading = false; error = none };
  rendered = [];
  csrf_header = none;
  sent = [];
  location = "/account";
  page = Account.mounted;
}

abbrev pub full_form : BookForm
full_form = record {
  id = none;
  title = some "Emma";
  author = some " Austen";
  genre = some "Novel";
  isbn = some "1";
  total_copies = some (whole 2);
}
