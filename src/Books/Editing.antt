-- ===== src/Books/Editing.antt =====
-- The life of a row: its handlers, in any order, against the requests that it has in flight.
use ror_books_test.Prelude.{
  ◌≡◌, ◌↔◌, ◌≤◌, refl, Option, none, some, Bool, true, false, List, [], ◌∷◌, ◌++◌, length, arith,
}
use ror_books_test.Api.{Reply}
use ror_books_test.Forms.{BookForm}
use ror_books_test.Books.Defs.{Book}
use ror_books_test.Books.Row.{
  Editor, new_editor, edit_clicked, close_editor, edit_form, Request, put_book, delete_book,
  save_clicked, save_answered, remove_clicked, remove_answered,
}

-- What can happen to a row. An answer is that of the oldest request, if it is of the right kind.
pub data Event : Type 0 where
  edit close save : Event
  type : BookForm → Event
  remove : (confirmed : Bool) → Event
  saved : Reply (Option Book) → Event
  removed : Reply (Unit {0}) → Event

pub record Row : Type 0 where
  pub editor : Editor
  pub in_flight : List Request

abbrev send : Option Request → List Request → List Request
send none rs = rs
send (some r) rs = rs ++ r ∷ []

abbrev sent : List Request → Editor × Option Request → Row
sent rs (e, r) = record { editor = e; in_flight = send r rs }

on_saved : Reply (Option Book) → Editor → List Request → Row
on_saved reply e (put_book id form ∷ rs) = record {
  editor = (save_answered reply e).0;
  in_flight = rs;
}
on_saved reply e rs = record { editor = e; in_flight = rs }

on_removed : Reply (Unit {0}) → Editor → List Request → Row
on_removed reply e (delete_book id ∷ rs) = record {
  editor = (remove_answered reply e).0;
  in_flight = rs;
}
on_removed reply e rs = record { editor = e; in_flight = rs }

pub step : Event → Row → Row
unfolding on_saved on_removed
step edit r = record r { editor = edit_clicked r.editor }
step close r = record r { editor = close_editor r.editor }
step (type form) r = record r { editor = edit_form form r.editor }
step save r = sent r.in_flight (save_clicked r.editor)
step (remove confirmed) r = sent r.in_flight (remove_clicked confirmed r.editor)
step (saved reply) r = on_saved reply r.editor r.in_flight
step (removed reply) r = on_removed reply r.editor r.in_flight

pub run : List Event → Row → Row
run [] r = r
run (e ∷ es) r = run es (step e r)

-- The row shows that it loads exactly while it has a request in flight, and has at most one.
abbrev pub IsQuiet : Bool → List Request → Type 0
IsQuiet loading [] = loading ≡ false
IsQuiet loading (r ∷ []) = loading ≡ true
IsQuiet loading (r ∷ s ∷ rs) = ⊥

step-IsQuiet :
    (ev : Event) (e : Editor) (rs : List Request)
    → IsQuiet e.loading rs
    → let after = step ev (record { editor = e; in_flight = rs }) in
      IsQuiet after.editor.loading after.in_flight
unfolding step save_clicked save_answered remove_clicked remove_answered edit_clicked close_editor
    edit_form
step-IsQuiet edit e rs h = h
step-IsQuiet ev e [] h = ground arith
step-IsQuiet ev e (put_book id form ∷ []) h = ground arith
step-IsQuiet ev e (delete_book id ∷ []) h = ground arith
step-IsQuiet ev e (r ∷ s ∷ rs) h = elim h [ ]

run-IsQuiet :
    (es : List Event) (r : Row)
    → IsQuiet r.editor.loading r.in_flight
    → IsQuiet (run es r).editor.loading (run es r).in_flight
unfolding run
run-IsQuiet [] r h = h
run-IsQuiet (ev ∷ es) r h = run-IsQuiet es (step ev r) (step-IsQuiet ev r.editor r.in_flight h)

at_most_one :
    (b : Bool) (rs : List Request) → IsQuiet b rs → (length rs ≤ 1) × ((b ≡ true) ↔ (length rs ≡ 1))
at_most_one b [] h = ground arith
at_most_one b (r ∷ []) h = ground arith
at_most_one b (r ∷ s ∷ rs) h = elim h [ ]

-- Whatever is clicked, typed or answered on a row, in any order, at most one of its requests is in
-- flight, and the row shows that it loads exactly while one is: the disabled buttons keep a second
-- "Save" or "Delete" from being sent.
pub one_request :
    (b : Book) (es : List Event)
    → let r = run es (record { editor = new_editor b; in_flight = [] }) in
      (length r.in_flight ≤ 1) × ((r.editor.loading ≡ true) ↔ (length r.in_flight ≡ 1))
unfolding new_editor
one_request b es =
    let r : Row = run es (record { editor = new_editor b; in_flight = [] }) in
    at_most_one r.editor.loading r.in_flight (run-IsQuiet es _ refl)
