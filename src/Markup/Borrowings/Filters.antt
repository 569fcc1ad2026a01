-- ===== src/Markup/Borrowings/Filters.antt =====
-- The inputs above the table, the two headers that sort, and the status cell, which the two pages
-- share word for word.
use ror_books_test.Prelude.{ℕ, String, Option, none, some, List, [], ◌∷◌, ◌++◌}
use ror_books_test.Controls.Button
use ror_books_test.Controls.Badge.{status_variant}
use ror_books_test.Dates.{
  Status, StatusBadge, due_soon, plain, borrowed, returned, overdue, status_cell,
}
use ror_books_test.Borrowings.{
  Filters, StatusFilter, all, only, Direction, asc, desc, clear_stands, borrowed_aria, due_aria,
}
use ror_books_test.Markup.Nodes.{
  Node, Attribute, text, element, number, local_date, class_name, on_click, on_change, property,
  children, when, words_node,
}
use ror_books_test.Markup.Parts.{div, span, button, badge}
use ror_books_test.Markup.Tables.{Cell, Width, cell}

pub data Event : Type 0 where
  typed date_chosen status_chosen commented : String → Event
  cleared borrowed_sorted due_sorted prev next return_closed return_confirmed : Event
  return_asked : ℕ → Event

abbrev status_text : StatusFilter → String
status_text all = "all"
status_text (only borrowed) = "borrowed"
status_text (only overdue) = "overdue"
status_text (only returned) = "returned"

abbrev option_node : String → String → Node Event
option_node value label =
    element "option" (property "value" value ∷ []) (children (words_node label ∷ []))

-- The type and the placeholder of the search input are each page's own.
unfoldable pub filter_bar : List (Attribute Event) → String → Filters → Node Event
unfolding button
filter_bar type placeholder f = div "flex flex-wrap items-center justify-between gap-3" (
    div "flex items-center gap-2" (
      element "input"
        (type
          ++ (property "value" f.q
              ∷ on_change typed
              ∷ property "placeholder" placeholder
              ∷ class_name "w-64 rounded border border-gray-300 px-2 py-1 text-sm"
              ∷ []))
        (children [])
      ∷ element "input"
          (property "type" "date"
            ∷ property "value" f.date
            ∷ on_change date_chosen
            ∷ class_name "rounded border border-gray-300 px-2 py-1 text-sm"
            ∷ [])
          (children [])
      ∷ when (clear_stands f) (
          button (some Button.secondary) (some Button.sm) (on_click cleared ∷ [])
            (words_node "Clear" ∷ [])))
    ∷ div "flex items-center gap-2" (
        element "label" (class_name "text-sm text-gray-700" ∷ [])
          (children (words_node "Status" ∷ []))
        ∷ element "select"
            (class_name "rounded border border-gray-300 px-2 py-1 text-sm"
              ∷ property "value" (status_text f.status)
              ∷ on_change status_chosen
              ∷ [])
            (children (
              option_node "all" "All"
              ∷ option_node "borrowed" "Borrowed"
              ∷ option_node "overdue" "Overdue"
              ∷ option_node "returned" "Returned"
              ∷ []))
        ∷ [])
    ∷ [])

abbrev aria_text : Direction → String
aria_text asc = "ascending"
aria_text desc = "descending"

abbrev arrow : Direction → String
arrow asc = "↑"
arrow desc = "↓"

abbrev aria_attribute : Option Direction → List (Attribute Event)
aria_attribute none = []
aria_attribute (some d) = property "aria-sort" (aria_text d) ∷ []

abbrev arrow_nodes : Option Direction → List (Node Event)
arrow_nodes none = []
arrow_nodes (some d) =
    element "span" (property "aria-hidden" "true" ∷ []) (children (words_node (arrow d) ∷ [])) ∷ []

abbrev sort_cell : Width → Event → String → Option Direction → Cell Event
sort_cell width click label sorted = record {
  width = width;
  more = " cursor-pointer select-none";
  attributes = on_click click ∷ aria_attribute sorted;
  content = span "inline-flex items-center gap-1" (words_node label ∷ arrow_nodes sorted) ∷ [];
}

-- The headers "Borrowed" and "Due".
unfoldable pub borrowed_head : Width → Filters → Cell Event
borrowed_head width f = sort_cell width borrowed_sorted "Borrowed" (borrowed_aria f)

unfoldable pub due_head : Width → Filters → Cell Event
due_head width f = sort_cell width due_sorted "Due" (due_aria f)

abbrev badge_content : StatusBadge → List (Node Event)
badge_content (due_soon days) = words_node "Due soon (" ∷ text (number days) ∷ words_node "d)" ∷ []
badge_content (plain borrowed) = words_node "Borrowed" ∷ []
badge_content (plain returned) = words_node "Returned" ∷ []
badge_content (plain overdue) = words_node "Overdue" ∷ []

unfoldable pub status_node : StatusBadge → Node Event
unfolding badge
status_node b = badge (status_variant b) (badge_content b)

-- The cells that both tables have: the book, the two dates and the status.
unfoldable pub book_cells :
    Width → Width → Width → ℕ → String → String → ℕ → ℕ → Status → List (Cell Event)
book_cells book date state now title author borrowed_at due_date status =
    cell book (
      words_node title
      ∷ words_node " "
      ∷ span "text-gray-500" (words_node "by " ∷ words_node author ∷ [])
      ∷ [])
    ∷ cell date (text (local_date borrowed_at) ∷ [])
    ∷ cell date (text (local_date due_date) ∷ [])
    ∷ cell state (status_node (status_cell status due_date now) ∷ [])
    ∷ []
