-- ===== src/Markup/MemberDashboard.antt =====
-- The page of frontend/src/pages/member/Dashboard.tsx.
pub mod Offers
use Prim.Native.String
use ror_books_test.Prelude.{
  ℕ, String, Option, none, some, Bool, true, false, List, [], ◌∷◌, ◌++◌, map, ltb, truthy, length,
  if◌then◌else◌, ◌==◌,
}
use ror_books_test.Controls.Badge
use ror_books_test.Controls.Badge.{due_variant}
use ror_books_test.Dates.{
  Zone, DueBadge, overdue_since, due_today, due_in, due_on, due_badge, Highlight, red, amber,
  row_highlight,
}
use ror_books_test.Dates as Days
use ror_books_test.QuickSearch.{Box, shown}
use ror_books_test.Dashboards.{Item, TopBook, MemberData, BookResult}
use ror_books_test.Markup.Nodes.{
  Node, text, element, borrow_button, words, number, local_date, local_date_of, local_time_of,
  class_name, key, on_click, on_change, property, children, when, words_node,
}
use ror_books_test.Markup.Parts.{div, span, titled_card, badge, input}
use ror_books_test.Markup.MemberItems.{
  Event, go, typed, badge_node, due_node, offer, found_node, top_node, current_node, history_node,
  nothing_borrowed,
}

-- `Stat`
unfoldable pub stat_node : String → ℕ → Node Event
stat_node label value = div "border rounded p-3" (
    div "text-gray-500 text-sm" (words_node label ∷ [])
    ∷ div "text-2xl font-bold" (text (number value) ∷ [])
    ∷ [])

abbrev overdue_tile : ℕ → Node Event
overdue_tile n =
    element "div"
      (class_name
          "border-2 border-red-500 rounded-lg p-4 bg-red-50 cursor-pointer hover:bg-red-100 transition-colors"
        ∷ on_click (go "/borrowings?status=overdue")
        ∷ [])
      (children (
        div "text-red-700 text-sm font-semibold" (words_node "OVERDUE" ∷ [])
        ∷ div "text-red-800 text-3xl font-bold" (text (number n) ∷ [])
        ∷ []))

abbrev due_soon_tile : ℕ → Node Event
due_soon_tile n = div "border-2 border-yellow-500 rounded-lg p-4 bg-yellow-50" (
    div "text-yellow-700 text-sm font-semibold" (words_node "Due soon (3d)" ∷ [])
    ∷ div "text-yellow-800 text-2xl font-bold" (text (number n) ∷ [])
    ∷ [])

-- The tiles at the top.
unfoldable pub tile_nodes : Option MemberData → List (Node Event)
unfolding stat_node
tile_nodes none = []
tile_nodes (some d) =
    when (ltb 0 (length d.current_borrowings))
      (stat_node "Total borrowed" (length d.current_borrowings))
    ++ (when (ltb 0 d.overdue_count) (overdue_tile d.overdue_count)
        ++ when (ltb 0 d.due_soon_count) (due_soon_tile d.due_soon_count))

abbrev pub found_list : Option (List BookResult) → List (Node Event)
found_list none = []
found_list (some results) =
    element "ul" (class_name "mt-3 divide-y rounded-md border" ∷ [])
      (children (map found_node results))
    ∷ []

unfoldable pub search_card : Box BookResult → Node Event
unfolding titled_card input found_node shown
search_card b = titled_card "Search books" (
    input none none none (
      property "placeholder" "Search books by title, author, or genre"
      ∷ property "value" b.q
      ∷ on_change typed
      ∷ [])
    ∷ found_list (shown b))

abbrev plain_list : List (Node Event) → Node Event
plain_list ns = element "ul" (class_name "divide-y rounded-md border text-sm" ∷ []) (children ns)

abbrev pub tops_of : Option MemberData → List TopBook
tops_of none = []
tops_of (some d) = d.top_books

unfoldable pub top_card : Option MemberData → Node Event
unfolding titled_card top_node
top_card data_ = titled_card "Top books" (plain_list (map top_node (tops_of data_)) ∷ [])

abbrev pub current_nodes : Zone → ℕ → List Item → List (Node Event)
current_nodes z now [] = nothing_borrowed ∷ []
current_nodes z now (r ∷ rs) = map (current_node z now) (r ∷ rs)

abbrev pub current_of : Option MemberData → List Item
current_of none = []
current_of (some d) = d.current_borrowings

unfoldable pub current_card : Zone → ℕ → Option MemberData → Node Event
unfolding titled_card current_node
current_card z now data_ =
    titled_card "Current borrowings" (plain_list (current_nodes z now (current_of data_)) ∷ [])

abbrev pub history_of : Option MemberData → List Item
history_of none = []
history_of (some d) = d.history

unfoldable pub history_card : Option MemberData → Node Event
unfolding titled_card history_node
history_card data_ =
    titled_card "Recent history" (plain_list (map history_node (history_of data_)) ∷ [])

-- What `MemberDashboard` returns.
unfoldable pub member_dashboard : Zone → ℕ → Option MemberData → Box BookResult → Node Event
member_dashboard z now data_ box = div "space-y-6" (
    element "h1" (class_name "text-xl font-semibold tracking-tight" ∷ [])
      (children (words_node "Dashboard" ∷ []))
    ∷ div "grid gap-4 sm:grid-cols-2 lg:grid-cols-4" (tile_nodes data_)
    ∷ search_card box
    ∷ top_card data_
    ∷ div "grid gap-4 md:grid-cols-2" (current_card z now data_ ∷ history_card data_ ∷ [])
    ∷ [])
