-- ===== src/Markup/BorrowButton.antt =====
-- What frontend/src/components/BorrowButton.tsx renders.
pub mod Offers
use ror_books_test.Prelude.{
  String, Option, none, some, Bool, true, false, List, [], ◌∷◌, ◌++◌, map, truthy, if◌then◌else◌,
}
use ror_books_test.Controls.Button as Control
use ror_books_test.BorrowButton.{Button, lines, Event, borrow, escape, close, cancel, confirm}
use ror_books_test.Markup.Nodes.{
  Node, element, class_name, on_click, disabled, children, when, words_node,
}
use ror_books_test.Markup.Parts.{div, span, button}
use ror_books_test.Markup.Tables.{modal}

-- The button itself, or "N/A".
unfoldable pub trigger : Button → Node Event
unfolding button
trigger b =
    if b.available
    then button (some Control.ghost) none (disabled b.loading ∷ on_click borrow ∷ [])
        (words_node (if b.loading then "…" else "Borrow") ∷ [])
    else span "text-xs text-gray-400" (words_node "N/A" ∷ [])

unfoldable pub footer : Button → List (Node Event)
unfolding button
footer b =
    if truthy b.success_message
    then button (some Control.secondary) none (on_click close ∷ []) (words_node "Close" ∷ []) ∷ []
    else button (some Control.ghost) none (on_click cancel ∷ disabled b.loading ∷ [])
        (words_node "Cancel" ∷ [])
      ∷ button (some Control.secondary) none (on_click confirm ∷ disabled b.loading ∷ [])
          (words_node "Confirm borrow" ∷ [])
      ∷ []

abbrev line_node : String → Node Event
line_node line = element "div" [] (children (words_node line ∷ []))

abbrev paragraph : String → List (Node Event) → Node Event
paragraph classes ns = element "p" (class_name classes ∷ []) (children ns)

-- What stands in the dialog; the day of the return is a text that the button keeps.
unfoldable pub content : String → Button → Node Event
content due_date_text b =
    if truthy b.success_message
    then div "space-y-2 text-sm"
        (paragraph "text-green-700" (words_node b.success_message ∷ []) ∷ [])
    else div "space-y-2 text-sm" (
        element "p" [] (children (words_node "Are you sure you want to borrow this book?" ∷ []))
        ∷ paragraph "text-gray-600" (
            words_node "If you confirm now, you should return it by "
            ∷ span "font-medium" (words_node due_date_text ∷ [])
            ∷ words_node "."
            ∷ [])
        ∷ when (truthy b.error_message) (
            div "mt-2 rounded border border-red-200 bg-red-50 p-3 text-red-700"
              (map line_node (lines b.error_message))))

-- What `BorrowButton` returns.
unfoldable pub borrow_button_nodes : String → Button → List (Node Event)
borrow_button_nodes due_date_text b =
    trigger b
    ∷ modal b.is_open escape (if truthy b.success_message then "Borrowed" else "Confirm borrow")
        (content due_date_text b ∷ []) (footer b)
