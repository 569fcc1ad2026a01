-- ===== src/BorrowButton/Defs.antt =====
-- The button with its dialog. The due date's text is computed once, when the button is mounted.
use Prim.Native.Char.{code}
use Prim.Native.String
use ror_books_test.Prelude.{
  String, Option, none, some, Bool, true, false, List, [], ◌∷◌, truthy, join, if◌then◌else◌, ◌==◌,
}
use ror_books_test.Api.{
  Reply, ok, failed, Failure, Details, many, single, or_else, response_error, response_details,
}

pub record Button : Type 0 where
  pub loading : Bool
  pub is_open : Bool
  pub error_message : String
  pub success_message : String
  pub available : Bool

abbrev pub mounted : Button
mounted = record {
  loading = false;
  is_open = false;
  error_message = "";
  success_message = "";
  available = true;
}

-- What can happen to a button; an answer comes only if a request is in flight.
pub data Event : Type 0 where
  borrow escape close cancel confirm : Event
  answer : Reply (Unit {0}) → Event

-- `onClick` of "Borrow".
unfoldable pub borrow_clicked : Button → Button
borrow_clicked b = record b { error_message = ""; success_message = ""; is_open = true }

-- `onClose` of the dialog: Escape or the backdrop.
unfoldable pub dialog_closed : Button → Button
dialog_closed b = record b { is_open = false; error_message = ""; success_message = "" }

-- `onClick` of "Close".
unfoldable pub close_clicked : Button → Button
close_clicked b = record b { is_open = false; success_message = "" }

-- `onClick` of "Cancel".
unfoldable pub cancel_clicked : Button → Button
cancel_clicked b = record b { is_open = false; error_message = "" }

-- `confirmBorrow` up to its request, which is always sent.
unfoldable pub confirm_clicked : Button → Button
confirm_clicked b = record b { loading = true }

abbrev error_or_default : Option String → String
error_or_default error = or_else error "Failed to borrow"

abbrev details_message : Option Details → Option String → String
details_message (some (many (text ∷ texts))) error = join "\n" (text ∷ texts)
details_message (some (single text)) error = if truthy text then text else error_or_default error
details_message _ error = error_or_default error

-- The message of the `catch`.
unfoldable pub borrow_message : Failure → String
borrow_message e =
    if e.is_axios
    then details_message (response_details e) (response_error e)
    else or_else (some e.message) "Failed to borrow"

-- `confirmBorrow` from the answer on.
unfoldable pub borrow_answered : String → Reply (Unit {0}) → Button → Button
borrow_answered due_date_text (ok _) b = record b {
  error_message = "";
  success_message = String.◌++◌ "Borrowed! Please return by " due_date_text;
  available = false;
  loading = false;
}
borrow_answered due_date_text (failed e) b = record b {
  error_message = borrow_message e;
  loading = false;
}

-- `text.split("\n")`, with the line that is being read.
unfoldable pub lines_from : String → String → List String
lines_from cur String.[] = cur ∷ []
lines_from cur (String.◌∷◌ c s) =
    let closed = lines_from "" s in
    let longer = lines_from (String.◌++◌ cur (String.◌∷◌ c String.[])) s in
    if code c == 10 then cur ∷ closed else longer

unfoldable pub lines : String → List String
unfolding lines_from
lines text = lines_from "" text

-- What stands beside the table: a button, or "N/A"; and the dialog.
pub record View : Type 0 where
  pub button : Option String
  pub title : String
  pub dialog_open : Bool
  pub error_lines : List String

unfoldable pub view : Button → View
unfolding lines
view b = record {
  button = if b.available then some (if b.loading then "…" else "Borrow") else none;
  title = if truthy b.success_message then "Borrowed" else "Confirm borrow";
  dialog_open = b.is_open;
  error_lines =
      if truthy b.success_message
      then []
      else if truthy b.error_message
      then lines b.error_message
      else [];
}
