-- ===== src/Markup/LibrarianDashboard.antt =====
-- The page of frontend/src/pages/librarian/Dashboard.tsx.
pub mod Links
use Prim.Native.String
use ror_books_test.Prelude.{
  ℕ, String, Option, none, some, Bool, true, false, List, [], ◌∷◌, ◌++◌, map, ltb, if◌then◌else◌,
}
use ror_books_test.Api.{User}
use ror_books_test.QuickSearch.{Box, shown}
use ror_books_test.Dashboards.{
  is_librarian, LibrarianData, Dashboard, Recent, recent_row, Found, link_row,
}
use ror_books_test.Markup.Nodes.{
  Node, Nodes, Attribute, text, element, words, number, local_time_of, class_name, key, key_text,
  on_click, on_change, property, children, when, words_node,
}
use ror_books_test.Markup.Parts.{div, span, titled_card, input}

pub data Event : Type 0 where
  go typed : String → Event
  mark_overdue : Event

-- `onClick={onClick}`, which may be undefined.
abbrev click_of : Option Event → List (Attribute Event)
click_of none = []
click_of (some e) = on_click e ∷ []

abbrev value_node : Option ℕ → Node Event
value_node none = words_node "-"
value_node (some n) = text (number n)

-- `Stat`
unfoldable pub stat_node : String → Option ℕ → Option Event → Bool → Node Event
stat_node label value click clickable =
    element "div"
      (class_name (
          String.◌++◌ "border rounded p-3 cursor-pointer "
            (if clickable then "hover:bg-gray-50" else ""))
        ∷ click_of click)
      (children (
        div "text-gray-500 text-sm" (words_node label ∷ [])
        ∷ div "text-2xl font-bold" (value_node value ∷ [])
        ∷ []))

abbrev due_tile : ℕ → Node Event
due_tile n =
    element "div"
      (class_name
          "border-2 border-yellow-500 rounded-lg p-4 bg-yellow-50 cursor-pointer hover:bg-yellow-100 transition-colors"
        ∷ on_click (go "/borrowings?status=borrowed")
        ∷ [])
      (children (
        div "text-yellow-700 text-sm font-semibold" (words_node "Due soon (3d)" ∷ [])
        ∷ div "text-yellow-800 text-3xl font-bold" (text (number n) ∷ [])
        ∷ []))

abbrev overdue_tile : ℕ → Node Event
overdue_tile n =
    element "div"
      (class_name
          "border-2 border-red-500 rounded-lg p-4 bg-red-50 cursor-pointer hover:bg-red-100 transition-colors"
        ∷ on_click (go "/borrowings?status=overdue")
        ∷ [])
      (children (
        div "text-red-700 text-sm font-semibold" (words_node "Overdue books" ∷ [])
        ∷ div "text-red-800 text-3xl font-bold" (text (number n) ∷ [])
        ∷ []))

-- The tiles at the top.
unfoldable pub tile_nodes : Option LibrarianData → List (Node Event)
unfolding stat_node
tile_nodes none = stat_node "Total books" none none false ∷ []
tile_nodes (some f) =
    stat_node "Total books" (some f.total_books) none false
      ∷ when (ltb 0 f.currently_borrowed) (
          stat_node "Currently borrowed" (some f.currently_borrowed)
            (some (go "/borrowings?status=borrowed")) true)
    ++ (when (ltb 0 f.due_today) (due_tile f.due_today)
        ++ when (ltb 0 f.overdue_books_count) (overdue_tile f.overdue_books_count))

unfoldable pub found_node : Found → Node Event
unfolding link_row
found_node b =
    let row = link_row b in
    element "li" (key b.id ∷ class_name "flex items-center justify-between p-3 text-sm" ∷ []) (
      children (
        element "span" [] (
          children (
            words_node row.title
            ∷ words_node " "
            ∷ span "text-gray-500" (words_node "by " ∷ words_node row.author ∷ [])
            ∷ []))
        ∷ element "a" (class_name "text-blue-600" ∷ property "href" row.href ∷ [])
            (children (words_node "View" ∷ []))
        ∷ []))

abbrev pub found_list : Option (List Found) → List (Node Event)
found_list none = []
found_list (some results) =
    element "ul" (class_name "mt-3 divide-y rounded-md border" ∷ [])
      (children (map found_node results))
    ∷ []

unfoldable pub search_card : Box Found → Node Event
unfolding titled_card input
search_card b = titled_card "Quick search" (
    input none none none (
      property "placeholder" "Search books by title, author, or genre"
      ∷ property "value" b.q
      ∷ on_change typed
      ∷ [])
    ∷ found_list (shown b))

unfoldable pub genre_node : String × ℕ → Node Event
genre_node (genre, count) =
    element "li" (key_text genre ∷ class_name "flex items-center justify-between" ∷ []) (
      children (
        span "text-gray-700" (words_node genre ∷ [])
        ∷ span "font-medium" (text (number count) ∷ [])
        ∷ []))

abbrev pub genres_of : Option LibrarianData → List (String × ℕ)
genres_of none = []
genres_of (some f) = f.top_genres

unfoldable pub genres_card : Option LibrarianData → Node Event
unfolding titled_card
genres_card f = titled_card "Top genres" (
    element "ul" (class_name "grid grid-cols-1 gap-2 text-sm" ∷ [])
      (children (map genre_node (genres_of f)))
    ∷ [])

abbrev optional : Option String → List (Node Event)
optional none = []
optional (some s) = words_node s ∷ []

unfoldable pub recent_node : Recent → Node Event
recent_node r =
    let row = recent_row r in
    element "li" (key r.id ∷ class_name "p-3" ∷ []) (
      children (
        div "text-xs text-gray-500" (text (local_time_of row.time) ∷ [])
        ∷ element "div" [] (
            children (
              span "font-medium" (optional row.who)
              ∷ words_node " borrowed "
              ∷ span "font-medium" (optional row.title)
              ∷ []))
        ∷ []))

abbrev pub recent_of : Option LibrarianData → List Recent
recent_of none = []
recent_of (some f) = f.recent_borrowings

unfoldable pub recent_card : Option LibrarianData → Node Event
unfolding titled_card
recent_card f = titled_card "Recent borrowings" (
    element "ul" (class_name "divide-y rounded-md border text-sm" ∷ [])
      (children (map recent_node (recent_of f)))
    ∷ [])

-- The line with the link to the overdue check.
unfoldable pub check_line : Node Event
check_line = element "div" [] (
    children (
      element "p" (class_name "text-sm mt-2" ∷ []) (
        children (
          element "a"
            (on_click mark_overdue ∷ class_name "text-blue-600 hover:underline cursor-pointer" ∷ [])
            (children (words_node "Manually trigger the overdue" ∷ []))
          ∷ words_node " check to mark borrowed books past their due date as overdue."
          ∷ []))
      ∷ []))

unfoldable pub for_librarian : Option LibrarianData → Box Found → Node Event
for_librarian f box = div "space-y-6" (
    div "grid gap-4 sm:grid-cols-2 lg:grid-cols-4" (tile_nodes f)
    ∷ search_card box
    ∷ div "grid gap-4 md:grid-cols-2" (genres_card f ∷ recent_card f ∷ [])
    ∷ check_line
    ∷ [])

-- What `Dashboard` returns, by the user of the context.
unfoldable pub librarian_dashboard : Option User → Dashboard → Box Found → Node Event
librarian_dashboard user d box = div "space-y-6" (
    element "h1" (class_name "text-xl font-semibold tracking-tight" ∷ [])
      (children (words_node "Dashboard" ∷ []))
    ∷ when (is_librarian user) (for_librarian d.figures box))
