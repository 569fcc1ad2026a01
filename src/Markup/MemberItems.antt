-- ===== src/Markup/MemberItems.antt =====
-- The items of the lists of frontend/src/pages/member/Dashboard.tsx.
use Prim.Native.String
use ror_books_test.Prelude.{
  ℕ, String, Option, none, some, Bool, false, List, [], ◌∷◌, ◌++◌, truthy, if◌then◌else◌, ◌==◌,
}
use ror_books_test.Controls.Badge.{due_variant}
use ror_books_test.Dates.{
  Zone, DueBadge, overdue_since, due_today, due_in, due_on, due_badge, Highlight, red, amber,
  row_highlight,
}
use ror_books_test.Dates as Days
use ror_books_test.Dashboards.{Item, TopBook, BookResult}
use ror_books_test.Markup.Nodes.{
  Node, text, element, borrow_button, number, local_date, local_date_of, local_time_of, class_name,
  key, children, when, words_node,
}
use ror_books_test.Markup.Parts.{div, span, badge}

pub data Event : Type 0 where
  go typed : String → Event

abbrev present : Option String → Bool
present none = false
present (some s) = truthy s

-- A text of a field that may be undefined, which renders nothing.
abbrev optional : Option String → List (Node Event)
optional none = []
optional (some s) = words_node s ∷ []

abbrev badge_content : ℕ → DueBadge → List (Node Event)
badge_content due overdue_since = words_node "Overdue since " ∷ text (local_date due) ∷ []
badge_content due due_today = words_node "Due today" ∷ []
badge_content due (due_in n) =
    words_node "Due in "
    ∷ text (number n)
    ∷ words_node " day"
    ∷ words_node (if n == 1 then "" else "s")
    ∷ []
badge_content due due_on = words_node "Due " ∷ text (local_date due) ∷ []

unfoldable pub badge_node : ℕ → DueBadge → Node Event
badge_node due b = badge (due_variant b) (badge_content due b)

-- What `dueBadge` returns.
unfoldable pub due_node : Zone → ℕ → ℕ → Node Event
unfolding badge_node
due_node z now due = badge_node due (due_badge z due now)

-- `can_borrow ? <BorrowButton/> : <span>N/A</span>`
abbrev pub offer : Bool → ℕ → Node Event
offer can_borrow id =
    if can_borrow then borrow_button id else span "text-xs text-gray-400" (words_node "N/A" ∷ [])

unfoldable pub found_node : BookResult → Node Event
found_node b =
    element "li" (key b.id ∷ class_name "flex items-center justify-between p-3 text-sm" ∷ []) (
      children (
        element "span" [] (
          children (
            words_node b.title
            ∷ words_node " "
            ∷ span "text-gray-500" (words_node "by " ∷ words_node b.author ∷ [])
            ∷ []))
        ∷ offer b.can_borrow b.id
        ∷ []))

abbrev genre_text : Option String → String
genre_text none = ""
genre_text (some genre) = if truthy genre then String.◌++◌ " • " genre else ""

unfoldable pub top_node : TopBook → Node Event
top_node b = element "li" (key b.id ∷ class_name "flex items-center justify-between p-3" ∷ []) (
    children (
      element "div" [] (
        children (
          div "font-medium" (words_node b.title ∷ [])
          ∷ div "text-gray-500"
              (words_node "by " ∷ words_node b.author ∷ words_node (genre_text b.genre) ∷ [])
          ∷ []))
      ∷ div "flex items-center gap-3" (
          span "text-xs text-gray-500"
            (text (number b.borrowings_count) ∷ words_node " borrows" ∷ [])
          ∷ offer b.can_borrow b.id
          ∷ [])
      ∷ []))

abbrev highlight_class : Highlight → String
highlight_class red = "bg-red-50 border-l-4 border-l-red-500"
highlight_class amber = "bg-amber-50 border-l-4 border-l-amber-500"
highlight_class Days.none = ""

abbrev author_nodes : Option String → List (Node Event)
author_nodes none = []
author_nodes (some author) =
    when (truthy author) (element "span" [] (children (words_node "by " ∷ words_node author ∷ [])))

abbrev borrowed_nodes : Option String → Option String → List (Node Event)
borrowed_nodes author none = []
borrowed_nodes author (some at) = when (truthy at) (
    element "span" [] (
      children (
        words_node (if present author then " • " else "")
        ∷ words_node "Borrowed "
        ∷ text (local_date_of at)
        ∷ [])))

-- An item of the current borrowings.
unfoldable pub current_node : Zone → ℕ → Item → Node Event
unfolding due_node
current_node z now r =
    element "li"
      (key r.id
        ∷ class_name (
            String.◌++◌ "flex items-center justify-between p-3 "
              (highlight_class (row_highlight r.due_date now)))
        ∷ [])
      (children (
        element "div" [] (
          children (
            div "font-medium" (optional r.title)
            ∷ div "text-gray-500 text-xs mt-0.5"
                (author_nodes r.author ++ borrowed_nodes r.author r.borrowed_at)
            ∷ []))
        ∷ element "div" [] (children (due_node z now r.due_date ∷ []))
        ∷ []))

abbrev pub nothing_borrowed : Node Event
nothing_borrowed =
    element "li" (class_name "p-3 text-gray-500" ∷ [])
      (children (words_node "No current borrowings" ∷ []))

abbrev time_node : Option String → Node Event
time_node none = words_node "-"
time_node (some at) = if truthy at then text (local_time_of at) else words_node "-"

unfoldable pub history_node : Item → Node Event
history_node r = element "li" (key r.id ∷ class_name "p-3" ∷ []) (
    children (
      div "text-xs text-gray-500" (time_node r.created_at ∷ [])
      ∷ element "div" []
          (children (span "font-medium" (optional r.title) ∷ words_node " — " ∷ optional r.status))
      ∷ []))
