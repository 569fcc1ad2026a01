-- ===== src/Markup/BorrowButton/Offers.antt =====
-- What can be clicked on a rendered borrow button.
use ror_books_test.Prelude.{
  ◌≡◌, refl, ap, String, Bool, true, false, List, [], ◌∷◌, ◌++◌, map, truthy, if◌then◌else◌,
  Bool-cases, inl, inr,
}
use mathlib.Core.List.{append-nil}
use ror_books_test.BorrowButton.{Button, lines, Event, borrow, escape, close, cancel, confirm}
use ror_books_test.Markup.Nodes.{Target, handler, Node, gather, gather_all, clicks, children}
use ror_books_test.Markup.Clicks.{unless, modal_events, modal-clicks}
use ror_books_test.Markup.BorrowButton.{line_node, trigger, footer, content, borrow_button_nodes}

line_clicks : (ls : List String) → gather_all clicks (children (map line_node ls)) ≡ []
unfolding gather
line_clicks [] = refl
line_clicks (l ∷ ls) = line_clicks ls

content-clicks : (due : String) (b : Button) → gather clicks (content due b) ≡ []
unfolding gather content
content-clicks due b = elim (Bool-cases (truthy b.success_message)) [
  | inl done_ ↦ rw done_ refl
  | inr open_ ↦ rw open_ (elim (Bool-cases (truthy b.error_message)) [
    | inl shown ↦ rw shown (simp (append-nil, line_clicks (lines b.error_message)))
    | inr none_ ↦ rw none_ refl
  ])
]

trigger-clicks :
    (b : Button) → gather clicks (trigger b) ≡ (if b.available then unless b.loading borrow else [])
unfolding gather trigger
trigger-clicks b = elim (Bool-cases b.available) [
  | inl e ↦ rw e (simp append-nil)
  | inr e ↦ rw e refl
]

footer-clicks :
    (b : Button)
    → gather_all clicks (children (footer b)) ≡ (
        if truthy b.success_message
        then handler close ∷ []
        else (if b.loading then [] else handler cancel ∷ handler confirm ∷ []))
unfolding gather footer
footer-clicks b = elim (Bool-cases (truthy b.success_message)) [
  | inl e ↦ rw e refl
  | inr e ↦ rw e (elim (Bool-cases b.loading) [ inl busy ↦ rw busy refl | inr idle ↦ rw idle refl ])
]

dialog_events :
    (is_open : Bool) (ns fs : List (Node Event)) (foot : List (Target Event))
    → gather_all clicks (children ns) ≡ []
    → gather_all clicks (children fs) ≡ foot
    → modal_events is_open escape ns fs ≡ (if is_open then handler escape ∷ foot else [])
dialog_events true ns fs foot inside below = rw (inside, below) refl
dialog_events false ns fs foot inside below = refl

-- What can be clicked on a rendered borrow button: "Borrow" while the book is available and nothing
-- is under way; and while the dialog is open, what closes it, then "Close" once a success is shown,
-- before that "Cancel" and "Confirm borrow" unless a request is under way; and nothing else.
pub borrow_button_nodes-clicks :
    (due : String) (b : Button)
    → gather_all clicks (children (borrow_button_nodes due b))
      ≡ (if b.available then (if b.loading then [] else handler borrow ∷ []) else [])
        ++ (if b.is_open
            then handler escape
              ∷ (if truthy b.success_message
                  then handler close ∷ []
                  else (if b.loading then [] else handler cancel ∷ handler confirm ∷ []))
            else [])
unfolding gather borrow_button_nodes
borrow_button_nodes-clicks due b =
    rw (trigger-clicks b, modal-clicks b.is_open escape _ (content due b ∷ []) (footer b))
      (ap (λ es. (if b.available then unless b.loading borrow else []) ++ es)
        (dialog_events b.is_open (content due b ∷ []) (footer b) _
          (simp (append-nil, content-clicks due b)) (footer-clicks b)))
