-- ===== src/BorrowButton/Messages.antt =====
-- The lines that a refused borrowing shows.
use Prim.Native.Char.{Char, code}
use Prim.Native.String
use text.Mathlib.TextLemmas.{nil-append, cons-append, append-nil, append_assoc}
use ror_books_test.Prelude.{
  ◌≡◌, ◌≢◌, refl, sym, ap, ◌∙◌, String, some, true, List, [], ◌∷◌, All, truthy, join, arith,
}
use ror_books_test.Api.{Failure, failed, many, response_details}
use ror_books_test.BorrowButton.Defs.{Button, borrow_answered, borrow_message, lines_from, view}

-- A text on one line.
abbrev pub IsLine : String → Type 0
IsLine String.[] = Unit
IsLine (String.◌∷◌ c s) = (code c ≢ 10) × IsLine s

lines_from-char :
    (cur : String) (c : Char) (s : String)
    → code c ≢ 10
    → lines_from cur (String.◌∷◌ c s) ≡ lines_from (String.◌++◌ cur (String.◌∷◌ c String.[])) s
unfolding lines_from
lines_from-char cur c s ne = ground arith

lines_from-line :
    (cur m rest : String)
    → IsLine m
    → lines_from cur (String.◌++◌ m rest) ≡ lines_from (String.◌++◌ cur m) rest
lines_from-line cur String.[] rest h = rw (nil-append, append-nil)
lines_from-line cur (String.◌∷◌ c m) rest (ne, h) =
    let whole : String.◌++◌ (String.◌++◌ cur (String.◌∷◌ c String.[])) m
        ≡ String.◌++◌ cur (String.◌∷◌ c m) =
      simp (append_assoc, cons-append, nil-append) in
    rw (cons-append, lines_from-char cur c (String.◌++◌ m rest) ne)
      (lines_from-line (String.◌++◌ cur (String.◌∷◌ c String.[])) m rest h
        ∙ ap (λ t. lines_from t rest) whole)

lines_from-newline :
    (cur rest : String) → lines_from cur (String.◌++◌ "\n" rest) ≡ cur ∷ lines_from "" rest
unfolding lines_from
lines_from-newline cur rest = rw (cons-append, nil-append)

lines_from-join :
    (m : String) (ms : List String)
    → All IsLine (m ∷ ms)
    → lines_from "" (join "\n" (m ∷ ms)) ≡ m ∷ ms
unfolding join lines_from
lines_from-join m [] (h, _) =
    ap (lines_from "") (sym (append-nil m)) ∙ (lines_from-line "" m "" h ∙ (rw nil-append))
lines_from-join m (n ∷ ms) (h, k) =
    lines_from-line "" m (String.◌++◌ "\n" (join "\n" (n ∷ ms))) h
    ∙ (lines_from-newline (String.◌++◌ "" m) (join "\n" (n ∷ ms))
        ∙ (rw (nil-append, lines_from-join n ms k)))

truthy-append : (a b : String) → truthy a ≡ true → truthy (String.◌++◌ a b) ≡ true
truthy-append String.[] b h = cc
truthy-append (String.◌∷◌ c s) b h = rw cons-append refl

truthy-join : (m : String) (ms : List String) → truthy m ≡ true → truthy (join "\n" (m ∷ ms)) ≡ true
unfolding join
truthy-join m [] h = h
truthy-join m (n ∷ ms) h = truthy-append m _ h

-- When the server refuses a borrowing with a list of messages, each of one line and the first not
-- empty, the dialog shows exactly these messages, one to a line and in their order.
pub refused_lines :
    (b : Button) (due : String) (e : Failure) (m : String) (ms : List String)
    → b.success_message ≡ ""
    → e.is_axios ≡ true
    → response_details e ≡ some (many (m ∷ ms))
    → truthy m ≡ true
    → All IsLine (m ∷ ms)
    → (view (borrow_answered due (failed e) b)).error_lines ≡ m ∷ ms
unfolding view borrow_answered borrow_message
refused_lines b due e m ms unshown axios details full h =
    rw (unshown, axios, details, truthy-join m ms full) (lines_from-join m ms h)
