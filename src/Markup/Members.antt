-- ===== src/Markup/Members.antt =====
-- The page of frontend/src/pages/librarian/Members.tsx. Each member's row has an editor of its own.
pub mod Offers
use ror_books_test.Prelude.{
  ℕ, String, Option, none, some, Bool, true, false, List, [], ◌∷◌, ◌++◌, map, length, if◌then◌else◌,
}
use ror_books_test.Api.{or_else}
use ror_books_test.Forms.{error_at}
use ror_books_test.Controls.Button
use ror_books_test.Paging.{pager}
use ror_books_test.Members.{Member, Page, Editor, delete_disabled}
use ror_books_test.Markup.Nodes.{
  Node, Attribute, property, on_click, on_change, disabled, words_node,
}
use ror_books_test.Markup.Parts.{div, input, button}
use ror_books_test.Markup.Tables.{
  Cell, w10, w25, w40, cell, right_cell, body_row, fixed_table, pager_nodes, modal,
}

-- A field of a form.
pub data Field : Type 0 where
  email first_name last_name password : Field

-- The events of the page, and those of the row of a member.
pub data Event : Type 0 where
  typed : String → Event
  toggled create_closed created prev next : Event
  filled : Field → String → Event
  edited deleted edit_closed saved : ℕ → Event
  row_filled : ℕ → Field → String → Event

-- `<Input label=… value={… || ''} error=… onChange=…/>`
unfoldable pub field :
    String → List (Attribute Event) → Option String → Option String → (String → Event) → Node Event
field label type value error change =
    input (some label) none error
      (type ++ (property "value" (or_else value "") ∷ on_change change ∷ []))

unfoldable pub create_dialog : Page → List (Node Event)
unfolding button
create_dialog p =
    modal p.creating create_closed "New Member"
      (div "space-y-3" (
          field "Email" [] p.form.email (error_at "email" p.create_errors) (filled email)
          ∷ field "First name" [] p.form.first_name none (filled first_name)
          ∷ field "Last name" [] p.form.last_name none (filled last_name)
          ∷ field "Temp password" (property "type" "password" ∷ []) p.form.password
              (error_at "password" p.create_errors) (filled password)
          ∷ [])
        ∷ [])
      (button (some Button.ghost) none (on_click create_closed ∷ []) (words_node "Cancel" ∷ [])
        ∷ button (some Button.secondary) none (on_click created ∷ []) (words_node "Create" ∷ [])
        ∷ [])

abbrev pub heads : List (Cell Event)
heads =
    cell w40 (words_node "Email" ∷ [])
    ∷ cell w25 (words_node "First name" ∷ [])
    ∷ cell w25 (words_node "Last name" ∷ [])
    ∷ right_cell w10 (words_node "Actions" ∷ [])
    ∷ []

abbrev pub optional : Option String → List (Node Event)
optional none = []
optional (some s) = words_node s ∷ []

unfoldable pub edit_dialog : Editor → List (Node Event)
unfolding button
edit_dialog e =
    let id = e.member.id in
    modal e.editing (edit_closed id) "Edit Member"
      (div "space-y-3" (
          field "Email" [] e.form.email (error_at "email" e.errors) (row_filled id email)
          ∷ field "First name" [] e.form.first_name none (row_filled id first_name)
          ∷ field "Last name" [] e.form.last_name none (row_filled id last_name)
          ∷ [])
        ∷ [])
      (button (some Button.ghost) none (on_click (edit_closed id) ∷ []) (words_node "Cancel" ∷ [])
        ∷ button (some Button.secondary) none (on_click (saved id) ∷ disabled e.loading ∷ [])
            (words_node "Save" ∷ [])
        ∷ [])

-- The cells of `Row`.
unfoldable pub cells : Editor → List (Cell Event)
unfolding button
cells e =
    let m = e.member in
    cell w40 (words_node m.email ∷ [])
    ∷ cell w25 (optional m.first_name)
    ∷ cell w25 (optional m.last_name)
    ∷ right_cell w10 (
        div "flex justify-end gap-2" (
          button (some Button.ghost) none (on_click (edited m.id) ∷ []) (words_node "Edit" ∷ [])
          ∷ button (some Button.danger) none
              (on_click (deleted m.id) ∷ disabled (delete_disabled e) ∷ [])
              (words_node "Delete" ∷ [])
          ∷ [])
        ∷ edit_dialog e)
    ∷ []

unfoldable pub row_node : Editor → Node Event
row_node e = body_row e.member.id (cells e)

unfoldable pub top_bar : Page → Node Event
unfolding input button
top_bar p = div "flex items-center gap-2" (
    div "flex-1" (
      input none none none (
        property "placeholder" "Search members"
        ∷ property "value" p.list.key.q
        ∷ on_change typed
        ∷ [])
      ∷ [])
    ∷ button (some (if p.creating then Button.ghost else Button.primary)) none
        (on_click toggled ∷ []) (words_node (if p.creating then "Cancel" else "New Member") ∷ [])
    ∷ [])

-- What `MembersPage` returns to a librarian, by the editor of each member on the screen.
unfoldable pub members_page : (Member → Editor) → Page → Node Event
members_page editor_of p = div "space-y-4" (
    top_bar p ∷ create_dialog p
    ++ (fixed_table heads (map (λ m. row_node (editor_of m)) p.list.items)
        ∷ pager_nodes (pager p.list.key.page (length p.list.items)) prev next))
