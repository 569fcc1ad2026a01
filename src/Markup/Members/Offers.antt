-- ===== src/Markup/Members/Offers.antt =====
-- What can be clicked on the librarian's page of members.
use ror_books_test.Prelude.{
  ◌≡◌, refl, ◌∙◌, String, Option, none, some, Bool, true, false, List, [], ◌∷◌, ◌++◌, map, length,
  if◌then◌else◌, Bool-cases, inl, inr,
}
use mathlib.Core.List.{append-nil, flat_map}
use ror_books_test.Paging.{pager}
use ror_books_test.Members.{Member, Page, Editor, delete_disabled}
use ror_books_test.Markup.Nodes.{
  Target, handler, gather, gather_all, clicks, children, property, gather_all-append,
  gather_all-map,
}
use ror_books_test.Markup.Tables.{head_cell, body_row, fixed_table, pager_nodes, total}
use ror_books_test.Markup.Clicks.{
  unless, pager_events, pager_clicks, table_clicks, modal-clicks, input-clicks,
}
use ror_books_test.Markup.Members.{
  Event, toggled, create_closed, created, prev, next, edited, deleted, edit_closed, saved, heads,
  field, optional, cells, row_node, top_bar, create_dialog, edit_dialog, members_page,
}

-- Every row has a cell under each header, with its width, and the headers share out the table.
pub cells-heads :
    (e : Editor) → (map (λ c. c.width) (cells e) ≡ map (λ c. c.width) heads) × (total heads ≡ 100)
unfolding cells total
cells-heads e = (refl, refl)

abbrev create_events : Bool → List (Target Event)
create_events false = []
create_events true = handler create_closed ∷ handler create_closed ∷ handler created ∷ []

abbrev edit_events : Editor → List (Target Event)
edit_events e =
    if e.editing
    then handler (edit_closed e.member.id)
      ∷ handler (edit_closed e.member.id)
      ∷ unless e.loading (saved e.member.id)
    else []

-- What the row of a member brings.
abbrev pub row_events : Editor → List (Target Event)
row_events e =
    handler (edited e.member.id) ∷ unless e.loading (deleted e.member.id) ++ edit_events e

field-clicks :
    (label : String) (value error : Option String) (change : String → Event)
    → gather clicks (field label [] value error change) ≡ []
unfolding gather field
field-clicks label value error change = input-clicks (some label) none error _

password_clicks :
    (label : String) (value error : Option String) (change : String → Event)
    → gather clicks (field label (property "type" "password" ∷ []) value error change) ≡ []
unfolding gather field
password_clicks label value error change = input-clicks (some label) none error _

create_clicks :
    (p : Page) → gather_all clicks (children (create_dialog p)) ≡ create_events p.creating
unfolding gather create_dialog
create_clicks p =
    modal-clicks p.creating create_closed "New Member" _ _ ∙ (elim (Bool-cases p.creating) [
      | inl e ↦ rw e (simp (append-nil, field-clicks, password_clicks))
      | inr e ↦ rw e refl
    ])

edit_clicks : (e : Editor) → gather_all clicks (children (edit_dialog e)) ≡ edit_events e
unfolding gather edit_dialog
edit_clicks e =
    modal-clicks e.editing (edit_closed e.member.id) "Edit Member" _ _
    ∙ (elim (Bool-cases e.editing) [
      | inl open_ ↦ rw open_ (simp (append-nil, field-clicks))
      | inr shut ↦ rw shut refl
    ])

optional-clicks : (o : Option String) → gather_all clicks (children (optional o)) ≡ []
unfolding gather
optional-clicks none = refl
optional-clicks (some text) = refl

row_clicks : (e : Editor) → gather clicks (row_node e) ≡ row_events e
unfolding gather row_node cells body_row delete_disabled
row_clicks e = simp (
  append-nil,
  optional-clicks e.member.first_name,
  optional-clicks e.member.last_name,
  edit_clicks e,
)

head_clicks : gather_all clicks (children (map head_cell heads)) ≡ []
unfolding gather head_cell
head_clicks = refl

bar_clicks : (p : Page) → gather clicks (top_bar p) ≡ handler toggled ∷ []
unfolding gather top_bar
bar_clicks p = simp append-nil

-- What can be clicked on the rendered page of members: the button that opens or shuts the form of a
-- new member; while it is open, what closes it and "Create"; then in each row "Edit", "Delete" unless
-- the row loads, and while the row is edited what closes its form and "Save" unless it loads; last
-- the buttons of the pager that work; and nothing else.
pub members_page-clicks :
    (editor_of : Member → Editor) (p : Page)
    → gather clicks (members_page editor_of p)
      ≡ handler toggled ∷ create_events p.creating
        ++ (flat_map (λ m. row_events (editor_of m)) p.list.items
            ++ pager_events (pager p.list.key.page (length p.list.items)) prev next)
unfolding gather members_page
members_page-clicks editor_of p =
    let rows = map (λ m. row_node (editor_of m)) p.list.items in
    let pages = pager_nodes (pager p.list.key.page (length p.list.items)) prev next in
    rw
      (
        bar_clicks p,
        gather_all-append clicks (create_dialog p) (fixed_table heads rows ∷ pages),
        create_clicks p,
        table_clicks heads rows,
        head_clicks,
        gather_all-map clicks (λ m. row_node (editor_of m)) (λ m. row_events (editor_of m))
            (λ m. row_clicks (editor_of m)) p.list.items,
        pager_clicks (pager p.list.key.page (length p.list.items)) prev next,
      )
      refl
