-- ===== src/BorrowButton/Once.antt =====
-- A button against the requests that it has sent and those that were answered.
use Prim.Native.String
use ror_books_test.Prelude.{
  ℕ, zero, suc, ◌≡◌, ◌⊎◌, String, Bool, true, false, List, [], ◌∷◌, truthy, if◌then◌else◌, any,
}
use ror_books_test.Api.{Reply, ok, failed}
use ror_books_test.BorrowButton.Defs.{
  Button, mounted, borrow_clicked, dialog_closed, close_clicked, cancel_clicked, confirm_clicked,
  borrow_answered, Event, borrow, escape, close, cancel, confirm, answer,
}
use ror_books_test.Markup.Nodes.{Target, handler, link, gather_all, clicks, children}
use ror_books_test.Markup.BorrowButton.{borrow_button_nodes}

-- A button with the number of its requests in flight, and of those that the server accepted.
pub record Borrow : Type 0 where
  pub button : Button
  pub in_flight : ℕ
  pub accepted : ℕ

abbrev count : Reply (Unit {0}) → ℕ → ℕ
count (ok _) n = suc n
count (failed e) n = n

on_answer : String → Reply (Unit {0}) → Borrow → ℕ → Borrow
on_answer due reply s zero = s
on_answer due reply s (suc n) = record s {
  button = borrow_answered due reply s.button;
  in_flight = n;
  accepted = count reply s.accepted;
}

-- The handler of an event.
unfoldable perform : String → Event → Borrow → Borrow
unfolding on_answer
perform due borrow s = record s { button = borrow_clicked s.button }
perform due escape s = record s { button = dialog_closed s.button }
perform due close s = record s { button = close_clicked s.button }
perform due cancel s = record s { button = cancel_clicked s.button }
perform due confirm s = record s { button = confirm_clicked s.button; in_flight = suc s.in_flight }
perform due (answer reply) s = on_answer due reply s s.in_flight

-- Whether two clicks are the same.
abbrev same_click : Event → Event → Bool
same_click borrow borrow = true
same_click escape escape = true
same_click close close = true
same_click cancel cancel = true
same_click confirm confirm = true
same_click _ _ = false

abbrev same_target : Event → Target Event → Bool
same_target e (handler f) = same_click e f
same_target e (link address) = false

-- Whether an event can happen: a click if what is rendered offers it.
abbrev is_offered : String → Event → Button → Bool
is_offered due (answer reply) b = true
is_offered due e b = any (same_target e) (gather_all clicks (children (borrow_button_nodes due b)))

unfoldable pub step : String → Event → Borrow → Borrow
unfolding perform
step due e s = if is_offered due e s.button then perform due e s else s

pub run : String → List Event → Borrow → Borrow
run due [] s = s
run due (e ∷ es) s = run due es (step due e s)

abbrev pub fresh : Borrow
fresh = record { button = mounted; in_flight = 0; accepted = 0 }

-- What holds of a button between two events.
record Inv (s : Borrow) : Type 0 where
  loads :
      ((s.button.loading ≡ true) × (s.in_flight ≡ 1))
      ⊎ ((s.button.loading ≡ false) × (s.in_flight ≡ 0))
  counts :
      ((s.button.available ≡ true) × (s.accepted ≡ 0))
      ⊎ ((s.button.available ≡ false) × (s.accepted ≡ 1) × (s.button.loading ≡ false))
  shows :
      (s.button.available ≡ true)
      ⊎ (s.button.is_open ≡ false)
      ⊎ (truthy s.button.success_message ≡ true)
