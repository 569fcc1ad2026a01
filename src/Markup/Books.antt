-- ===== src/Markup/Books.antt =====
-- The page of frontend/src/pages/librarian/Books.tsx. Each book's row has an editor of its own; how
-- JavaScript writes a number is a parameter.
pub mod Offers
use ror_books_test.Prelude.{
  ℕ, String, Option, none, some, Bool, true, false, List, [], ◌∷◌, ◌++◌, map, if◌then◌else◌,
}
use ror_books_test.Api.{User, Errors, or_else}
use ror_books_test.Forms.{Number, whole, BookForm, error_at}
use ror_books_test.Controls.Button
use ror_books_test.Dashboards.{is_librarian}
use ror_books_test.Books.{Book, Page, Editor, view}
use ror_books_test.Markup.Nodes.{
  Node, Attribute, property, on_click, on_change, disabled, words_node, when,
}
use ror_books_test.Markup.Parts.{div, span, input, button}
use ror_books_test.Markup.Tables.{
  Cell, w10, w16, w18, w28, cell, right_cell, body_row, fixed_table, pager_nodes, modal,
}

pub data Field : Type 0 where
  title author genre isbn total_copies : Field

-- The events of the page, and those of the row of a book.
pub data Event : Type 0 where
  typed : String → Event
  toggled create_closed created prev next : Event
  filled : Field → String → Event
  edited removed edit_closed saved : ℕ → Event
  row_filled : ℕ → Field → String → Event

abbrev pub heads : List (Cell Event)
heads =
    cell w28 (words_node "Title" ∷ [])
    ∷ cell w18 (words_node "Author" ∷ [])
    ∷ cell w16 (words_node "Genre" ∷ [])
    ∷ cell w18 (words_node "ISBN" ∷ [])
    ∷ cell w10 (words_node "Copies" ∷ [])
    ∷ right_cell w10 (words_node "Actions" ∷ [])
    ∷ []

-- `<Input label=… value={… || ''} error=… onChange=…/>`
unfoldable pub field : String → Option String → Option String → (String → Event) → Node Event
field label value error change =
    input (some label) none error (property "value" (or_else value "") ∷ on_change change ∷ [])

module _ (show : Number → String) where
  abbrev copies_text : Option Number → String
  copies_text none = show (whole 1)
  copies_text (some n) = show n

  unfoldable pub copies_field : Option Number → Option String → (String → Event) → Node Event
  copies_field value error change =
      input (some "Copies") none error
        (property "type" "number" ∷ property "value" (copies_text value) ∷ on_change change ∷ [])

  -- The five inputs of the two dialogs.
  unfoldable pub fields : BookForm → Errors → (Field → String → Event) → Node Event
  fields form errors change = div "space-y-3" (
      field "Title" form.title (error_at "title" errors) (change title)
      ∷ field "Author" form.author (error_at "author" errors) (change author)
      ∷ field "Genre" form.genre (error_at "genre" errors) (change genre)
      ∷ field "ISBN" form.isbn (error_at "isbn" errors) (change isbn)
      ∷ copies_field form.total_copies (error_at "total_copies" errors) (change total_copies)
      ∷ [])

  unfoldable pub create_dialog : Option User → Page → List (Node Event)
  unfolding button
  create_dialog user p =
      modal (view user p).modal_open create_closed "New Book"
        (fields p.new_book p.create_errors filled ∷ [])
        (button (some Button.ghost) none (on_click create_closed ∷ []) (words_node "Cancel" ∷ [])
          ∷ button (some Button.secondary) none (on_click created ∷ []) (words_node "Create" ∷ [])
          ∷ [])

  unfoldable pub edit_dialog : Editor → List (Node Event)
  unfolding button
  edit_dialog e =
      let id = e.book.id in
      modal e.editing (edit_closed id) "Edit Book" (fields e.form e.errors (row_filled id) ∷ []) (
        button (some Button.ghost) none (on_click (edit_closed id) ∷ []) (words_node "Cancel" ∷ [])
        ∷ button (some Button.secondary) none (on_click (saved id) ∷ disabled e.loading ∷ [])
            (words_node "Save" ∷ [])
        ∷ [])

  -- `EditBookInline`
  unfoldable pub inline_editor : Editor → List (Node Event)
  unfolding button
  inline_editor e =
      button (some Button.ghost) none (on_click (edited e.book.id) ∷ []) (words_node "Edit" ∷ [])
      ∷ button (some Button.danger) none (on_click (removed e.book.id) ∷ disabled e.loading ∷ [])
          (words_node "Delete" ∷ [])
      ∷ edit_dialog e

  unfoldable pub cells : Option User → Editor → List (Cell Event)
  cells user e =
      let b = e.book in
      cell w28 (words_node b.title ∷ [])
      ∷ cell w18 (words_node b.author ∷ [])
      ∷ cell w16 (words_node b.genre ∷ [])
      ∷ cell w18 (words_node b.isbn ∷ [])
      ∷ cell w10 (words_node (show b.total_copies) ∷ [])
      ∷ right_cell w10
          (when (is_librarian user) (span "flex justify-end gap-3 w-full" (inline_editor e)))
      ∷ []

  unfoldable pub row_node : Option User → Editor → Node Event
  row_node user e = body_row e.book.id (cells user e)

  unfoldable pub top_bar : Option User → Page → Node Event
  unfolding button
  top_bar user p = div "flex items-center gap-2" (
      div "flex-1" (
        input none none none (
          property "placeholder" "Search books"
          ∷ property "value" p.list.key.q
          ∷ on_change typed
          ∷ [])
        ∷ [])
      ∷ when (is_librarian user) (
          button (some (if p.creating then Button.ghost else Button.primary)) none
            (on_click toggled ∷ [])
            (words_node (if p.creating then "Cancel" else "New Book") ∷ [])))

  -- What `BooksPage` returns, by the user of the context and the editor of each book on the screen.
  unfoldable pub books_page : Option User → (Book → Editor) → Page → Node Event
  books_page user editor_of p = div "space-y-4" (
      top_bar user p ∷ create_dialog user p
      ++ (fixed_table heads (map (λ b. row_node user (editor_of b)) (view user p).rows)
          ∷ pager_nodes (view user p).pager prev next))
