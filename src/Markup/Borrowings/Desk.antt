-- ===== src/Markup/Borrowings/Desk.antt =====
-- The librarian's and the member's page, by the user of the context and by the list on the screen.
use ror_books_test.Prelude.{ℕ, Option, none, some, List, [], ◌∷◌, ◌++◌, map, length, if◌then◌else◌}
use ror_books_test.Api.{User}
use ror_books_test.Controls.Button
use ror_books_test.Dashboards.{is_librarian}
use ror_books_test.Paging.{pager}
use ror_books_test.Borrowings.{Filters, Borrowing, Desk, has_return, member_cell, view}
use ror_books_test.MemberPages as Member
use ror_books_test.Markup.Nodes.{
  Node, element, class_name, on_click, on_change, property, children, when, words_node,
}
use ror_books_test.Markup.Parts.{div, span, button, input}
use ror_books_test.Markup.Tables.{
  Cell, Width, w8, w10, w12, w16, w22, w34, w50, cell, right_cell, body_row, fixed_table,
  pager_nodes, modal,
}
use ror_books_test.Markup.Borrowings.Filters.{
  Event, commented, prev, next, return_closed, return_confirmed, return_asked, filter_bar,
  borrowed_head, due_head, book_cells,
}

-- `state.user?.role === 'librarian' ? … : …`
abbrev by_role : Option User → Width → Width → Width
by_role user w v = if is_librarian user then w else v

abbrev when_librarian : Option User → Cell Event → List (Cell Event)
when_librarian user c = if is_librarian user then c ∷ [] else []

unfoldable pub heads : Option User → Filters → List (Cell Event)
heads user f =
    when_librarian user (cell w22 (words_node "Member" ∷ []))
    ++ (cell (by_role user w34 w50) (words_node "Book" ∷ [])
        ∷ borrowed_head (by_role user w12 w16) f
        ∷ due_head (by_role user w12 w16) f
        ∷ cell (by_role user w12 w10) (words_node "Status" ∷ [])
        ∷ right_cell w8 (words_node "Actions" ∷ [])
        ∷ [])

unfoldable pub return_cell : Borrowing → Cell Event
unfolding button
return_cell it = right_cell w8 (
    span "inline-flex w-full justify-end" (
      when (has_return it) (
        button (some Button.ghost) none (on_click (return_asked it.id) ∷ [])
          (words_node "Return" ∷ [])))
    ∷ [])

unfoldable pub cells : Option User → ℕ → Borrowing → List (Cell Event)
cells user now it =
    when_librarian user (cell w22 (words_node (member_cell it.user) ∷ []))
    ++ (book_cells (by_role user w34 w50) (by_role user w12 w16) (by_role user w12 w10) now it.title
          it.author it.borrowed_at it.due_date it.status
        ++ return_cell it ∷ [])

unfoldable pub row_node : Option User → ℕ → Borrowing → Node Event
row_node user now it = body_row it.id (cells user now it)

unfoldable pub return_dialog : Desk → List (Node Event)
unfolding button modal input
return_dialog d =
    modal (view d).modal_open return_closed "Confirm Return"
      (div "space-y-3" (
          element "p" (class_name "text-sm text-gray-700" ∷ [])
            (children (words_node "Are you sure you want to mark this borrowing as returned?" ∷ []))
          ∷ input (some "Optional comment") none none (
              property "placeholder" "Condition, notes, etc."
              ∷ property "value" d.return_comment
              ∷ on_change commented
              ∷ [])
          ∷ [])
        ∷ [])
      (button (some Button.ghost) none (on_click return_closed ∷ []) (words_node "Cancel" ∷ [])
        ∷ button (some Button.primary) none (on_click return_confirmed ∷ [])
            (words_node "Confirm Return" ∷ [])
        ∷ [])

-- What `BorrowingsPage` of the librarian's page returns.
unfoldable pub borrowings_page : Option User → ℕ → Desk → Node Event
borrowings_page user now d = div "space-y-4" (
    filter_bar (property "type" "text" ∷ []) "Search member or book..." d.list.key
      ∷ fixed_table (heads user d.list.key) (map (row_node user now) (view d).rows)
      ∷ return_dialog d
    ++ pager_nodes (view d).pager prev next)

unfoldable pub member_heads : Filters → List (Cell Event)
member_heads f =
    cell w50 (words_node "Book" ∷ [])
    ∷ borrowed_head w16 f
    ∷ due_head w16 f
    ∷ cell w10 (words_node "Status" ∷ [])
    ∷ []

unfoldable pub member_cells : ℕ → Member.Borrowing → List (Cell Event)
member_cells now it =
    book_cells w50 w16 w10 now it.title it.author it.borrowed_at it.due_date it.status

unfoldable pub member_row : ℕ → Member.Borrowing → Node Event
member_row now it = body_row it.id (member_cells now it)

-- What the member's page returns, by its filters and its items.
unfoldable pub member_borrowings_page : ℕ → Filters → List Member.Borrowing → Node Event
member_borrowings_page now f items = div "space-y-4" (
    filter_bar [] "Search book..." f
    ∷ fixed_table (member_heads f) (map (member_row now) items)
    ∷ pager_nodes (pager f.page (length items)) prev next)
