-- ===== src/Markup/Books/Offers.antt =====
-- What can be clicked on the librarian's page of books.
use ror_books_test.Prelude.{
  ◌≡◌, refl, ◌∙◌, String, Option, none, some, Bool, true, false, List, [], ◌∷◌, ◌++◌, map, length,
  if◌then◌else◌, Bool-cases, inl, inr, ◌&&◌,
}
use mathlib.Core.List.{append-nil, flat_map}
use ror_books_test.Api.{User, Errors}
use ror_books_test.Forms.{Number, BookForm}
use ror_books_test.Dashboards.{is_librarian}
use ror_books_test.Paging.{pager}
use ror_books_test.Books.{Book, Page, Editor, view}
use ror_books_test.Markup.Nodes.{
  Target, handler, gather, gather_all, clicks, children, gather_all-append, gather_all-map,
}
use ror_books_test.Markup.Tables.{head_cell, body_row, fixed_table, pager_nodes, total}
use ror_books_test.Markup.Clicks.{
  unless, pager_events, pager_clicks, table_clicks, modal-clicks, input-clicks,
}
use ror_books_test.Markup.Books.{
  Event, Field, toggled, create_closed, created, prev, next, edited, removed, edit_closed, saved,
  heads, field, copies_field, fields, cells, inline_editor, row_node, top_bar, create_dialog,
  edit_dialog, books_page,
}

-- Every row has a cell under each header, with its width, and the headers share out the table.
pub cells-heads :
    (show : Number → String) (user : Option User) (e : Editor)
    → (map (λ c. c.width) (cells show user e) ≡ map (λ c. c.width) heads) × (total heads ≡ 100)
unfolding cells total
cells-heads show user e = (refl, refl)

abbrev pub create_events : Bool → List (Target Event)
create_events false = []
create_events true = handler create_closed ∷ handler create_closed ∷ handler created ∷ []

abbrev edit_events : Editor → List (Target Event)
edit_events e =
    if e.editing
    then handler (edit_closed e.book.id)
      ∷ handler (edit_closed e.book.id)
      ∷ unless e.loading (saved e.book.id)
    else []

-- What the row of a book brings to a user.
abbrev pub row_events : Option User → Editor → List (Target Event)
row_events user e =
    if is_librarian user
    then handler (edited e.book.id) ∷ unless e.loading (removed e.book.id) ++ edit_events e
    else []

head_clicks : gather_all clicks (children (map head_cell heads)) ≡ []
unfolding gather head_cell
head_clicks = refl

field-clicks :
    (label : String) (value error : Option String) (change : String → Event)
    → gather clicks (field label value error change) ≡ []
unfolding gather field
field-clicks label value error change = input-clicks (some label) none error _

module _ (show : Number → String) where
  copies_clicks :
      (value : Option Number) (error : Option String) (change : String → Event)
      → gather clicks (copies_field show value error change) ≡ []
  unfolding gather copies_field
  copies_clicks value error change = input-clicks (some "Copies") none error _

  fields-clicks :
      (form : BookForm) (errors : Errors) (change : Field → String → Event)
      → gather clicks (fields show form errors change) ≡ []
  unfolding gather fields
  fields-clicks form errors change = simp (append-nil, field-clicks, copies_clicks)

  create_clicks :
      (user : Option User) (p : Page)
      → gather_all clicks (children (create_dialog show user p))
        ≡ create_events (view user p).modal_open
  unfolding gather create_dialog
  create_clicks user p =
      modal-clicks (view user p).modal_open create_closed "New Book" _ _
      ∙ (elim (Bool-cases (view user p).modal_open) [
        | inl e ↦ rw e (simp (append-nil, fields-clicks))
        | inr e ↦ rw e refl
      ])

  edit_clicks : (e : Editor) → gather_all clicks (children (edit_dialog show e)) ≡ edit_events e
  unfolding gather edit_dialog
  edit_clicks e =
      modal-clicks e.editing (edit_closed e.book.id) "Edit Book" _ _
      ∙ (elim (Bool-cases e.editing) [
        | inl open_ ↦ rw open_ (simp (append-nil, fields-clicks))
        | inr shut ↦ rw shut refl
      ])

  inline_clicks :
      (e : Editor)
      → gather_all clicks (children (inline_editor show e))
        ≡ handler (edited e.book.id) ∷ unless e.loading (removed e.book.id) ++ edit_events e
  unfolding gather inline_editor
  inline_clicks e = simp (append-nil, edit_clicks e)

  row_clicks :
      (user : Option User) (e : Editor) → gather clicks (row_node show user e) ≡ row_events user e
  unfolding gather row_node cells body_row
  row_clicks user e = elim (Bool-cases (is_librarian user)) [
    | inl h ↦ rw h (simp (append-nil, inline_clicks e))
    | inr h ↦ rw h refl
  ]

  bar_clicks :
      (user : Option User) (p : Page)
      → gather clicks (top_bar show user p)
        ≡ (if is_librarian user then handler toggled ∷ [] else [])
  unfolding gather top_bar
  bar_clicks user p = elim (Bool-cases (is_librarian user)) [
    | inl h ↦ rw h (simp (append-nil, input-clicks))
    | inr h ↦ rw h (simp (append-nil, input-clicks))
  ]

  -- What can be clicked on the rendered page of books: for a librarian the button that opens or
  -- shuts the form of a new book; while that is open, what closes it and "Create"; then in each row
  -- "Edit", "Delete" unless the row loads, and while the row is edited what closes its form and
  -- "Save" unless it loads; for every user the buttons of the pager that work; and nothing else.
  pub books_page-clicks :
      (user : Option User) (editor_of : Book → Editor) (p : Page)
      → gather clicks (books_page show user editor_of p)
        ≡ (if is_librarian user then handler toggled ∷ [] else [])
          ++ (create_events (p.creating && is_librarian user)
              ++ (flat_map (λ b. row_events user (editor_of b)) p.list.items
                  ++ pager_events (pager p.list.key.page (length p.list.items)) prev next))
  unfolding gather books_page view
  books_page-clicks user editor_of p =
      let rows = map (λ b. row_node show user (editor_of b)) p.list.items in
      let pages = pager_nodes (pager p.list.key.page (length p.list.items)) prev next in
      rw
        (
          bar_clicks user p,
          gather_all-append clicks (create_dialog show user p) (fixed_table heads rows ∷ pages),
          create_clicks user p,
          table_clicks heads rows,
          head_clicks,
          gather_all-map clicks (λ b. row_node show user (editor_of b))
              (λ b. row_events user (editor_of b)) (λ b. row_clicks user (editor_of b))
              p.list.items,
          pager_clicks (pager p.list.key.page (length p.list.items)) prev next,
        )
        refl
