-- ===== src/Markup/MemberBooks.antt =====
-- The page of frontend/src/pages/member/Books.tsx, by its search and by the list on the screen.
pub mod Offers
use ror_books_test.Prelude.{
  ℕ, String, Option, none, some, Bool, true, false, List, [], ◌∷◌, ◌++◌, map, length, if◌then◌else◌,
}
use ror_books_test.Paging.{Search, pager}
use ror_books_test.MemberPages.{Book, actions_cell, Actions, borrow_button, not_available}
use ror_books_test.Markup.Nodes
use ror_books_test.Markup.Nodes.{Node, Attribute, property, on_change, words_node}
use ror_books_test.Markup.Parts.{div, span, input}
use ror_books_test.Markup.Tables.{
  Cell, w10, w20, w24, w36, cell, right_cell, body_row, fixed_table, pager_nodes,
}

pub data Event : Type 0 where
  typed : String → Event
  prev next : Event

abbrev offer : Actions → Node Event
offer (borrow_button id) = Nodes.borrow_button id
offer not_available = span "text-xs text-gray-400" (words_node "N/A" ∷ [])

abbrev pub heads : List (Cell Event)
heads =
    cell w36 (words_node "Title" ∷ [])
    ∷ cell w24 (words_node "Author" ∷ [])
    ∷ cell w20 (words_node "Genre" ∷ [])
    ∷ cell w10 (words_node "ISBN" ∷ [])
    ∷ right_cell w10 (words_node "Actions" ∷ [])
    ∷ []

unfoldable pub cells : Book → List (Cell Event)
unfolding actions_cell
cells b =
    cell w36 (words_node b.title ∷ [])
    ∷ cell w24 (words_node b.author ∷ [])
    ∷ cell w20 (words_node b.genre ∷ [])
    ∷ cell w10 (words_node b.isbn ∷ [])
    ∷ right_cell w10 (offer (actions_cell b) ∷ [])
    ∷ []

unfoldable pub row_node : Book → Node Event
unfolding body_row cells
row_node b = body_row b.id (cells b)

-- What `MemberBooks` returns.
unfoldable pub books_page : Search → List Book → Node Event
unfolding input
books_page s books = div "space-y-4" (
    div "flex items-center gap-2" (
      div "flex-1" (
        input none none none
          (property "placeholder" "Search books" ∷ property "value" s.q ∷ on_change typed ∷ [])
        ∷ [])
      ∷ [])
    ∷ fixed_table heads (map row_node books)
    ∷ pager_nodes (pager s.page (length books)) prev next)
