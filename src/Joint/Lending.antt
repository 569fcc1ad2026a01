-- ===== src/Joint/Lending.antt =====
-- The borrow dialog with the answers of `BorrowingsController#create`.
use Prim.Native.Char.{code}
use ror_books_test.Prelude.{
  ℕ, ◌≡◌, refl, ap, sym, ◌==◌, String, none, some, Bool, true, false, List, [], ◌∷◌, ◌++◌, any,
  truthy, arith, All, if◌then◌else◌,
}
use ror_books_test.Api.{User, failed, many}
use ror_books_test.Dates.{is_at_most}
use ror_books_test.BorrowButton.{Button, borrow_answered, view}
use ror_books_test.BorrowButton.Messages.{IsLine, refused_lines}
use ror_books_test.Backend.{
  Book, Database, Response, rendered, refused, receive, record_invalid, find_book, create_borrowing,
  create_or_raise, borrow_errors, available_copies, active_for, message_if, already_held, none_left,
}
use ror_books_test.Backend.Eligible.{create_found}

-- The answer without its body, which the dialog does not read.
abbrev pub bare : {A : Type 0} → Response A → Response (Unit {0})
bare (rendered a) = rendered tt
bare (refused status body) = refused status body

-- A test for a text of one line.
is_line : String → Bool
is_line String.[] = true
is_line (String.◌∷◌ c s) = let rest = is_line s in if code c == 10 then false else rest

is_line-IsLine : (s : String) → is_line s ≡ true → IsLine s
unfolding is_line
is_line-IsLine String.[] h = tt
is_line-IsLine (String.◌∷◌ c s) h = ground (arith, h, is_line-IsLine s)

message_lines :
    (held gone : Bool) → All IsLine (message_if held already_held ++ message_if gone none_left)
unfolding is_line
message_lines true true = (is_line-IsLine already_held refl, (is_line-IsLine none_left refl, tt))
message_lines true false = (is_line-IsLine already_held refl, tt)
message_lines false true = (is_line-IsLine none_left refl, tt)
message_lines false false = tt

abbrev first : List String → String
first [] = ""
first (m ∷ ms) = m

first_full :
    (held gone : Bool) (m : String) (ms : List String)
    → message_if held already_held ++ message_if gone none_left ≡ m ∷ ms
    → truthy m ≡ true
first_full true gone m ms h = ap truthy (sym (ap first h))
first_full false true m ms h = ap truthy (sym (ap first h))
first_full false false m ms h = cc

errors_IsLine :
    (db : Database) (user : User) (book : Book) (m : String) (ms : List String)
    → borrow_errors db user book ≡ m ∷ ms
    → (truthy m ≡ true) × All IsLine (m ∷ ms)
unfolding borrow_errors
errors_IsLine db user book m ms h =
    let held = any (active_for user.id book.id) db.borrowings in
    let gone = is_at_most (available_copies db book) 0 in
    (first_full held gone m ms h, rw h at (message_lines held gone))

refusal :
    (axios_message : ℕ → String) (now : ℕ) (user : User) (book : Book) (db : Database) (m : String)
    (ms : List String)
    → receive axios_message (bare (create_or_raise (m ∷ ms) now user book db).0)
      ≡ failed (record {
        is_axios = true;
        body = some (record {
          error = some "Unprocessable Entity";
          details = some (many (m ∷ ms));
          errors = none;
        });
        message = axios_message 422;
      })
unfolding receive create_or_raise record_invalid
refusal axios_message now user book db m ms = refl

-- When the server refuses to lend a book that is there, the dialog shows exactly the messages of
-- the validations that failed, one to a line and in their order.
pub refused_messages :
    (axios_message : ℕ → String) (b : Button) (due : String) (now : ℕ) (user : User) (id : ℕ)
    (db : Database) (book : Book) (m : String) (ms : List String)
    → b.success_message ≡ ""
    → find_book id db ≡ some book
    → borrow_errors db user book ≡ m ∷ ms
    → let reply = receive axios_message (bare (create_borrowing now user id db).0) in
      (view (borrow_answered due reply b)).error_lines ≡ borrow_errors db user book
refused_messages axios_message b due now user id db book m ms unshown found errors =
    let (full, lines) = errors_IsLine db user book m ms errors in
    rw (create_found now user id db book found, errors, refusal axios_message now user book db m ms)
      (refused_lines b due _ m ms unshown refl refl full lines)
