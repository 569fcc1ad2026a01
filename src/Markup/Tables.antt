-- ===== src/Markup/Tables.antt =====
-- The tables of the pages, with the pager below them and the dialog over them.
use Prim.Native.String
use ror_books_test.Prelude.{
  ℕ, String, Option, none, some, Bool, true, false, List, [], ◌∷◌, ◌++◌, map, ◌+◌, truthy,
  if◌then◌else◌,
}
use ror_books_test.Paging.{Pager}
use ror_books_test.Controls.Button
use ror_books_test.Controls.Containers.{table, t_head, t_body, tr, th, td}
use ror_books_test.Markup.Nodes.{
  Node, Attribute, text, element, number, class_name, key, on_click, disabled, property, children,
  words_node,
}
use ror_books_test.Markup.Parts.{div, span, contained, button}

-- The width of a column, in percent, and whether its text stands at the right.
pub data Width : Type 0 where
  w8 w10 w12 w16 w18 w20 w22 w24 w25 w28 w34 w36 w40 w50 : Width

unfoldable pub percent : Width → ℕ
percent w8 = 8
percent w10 = 10
percent w12 = 12
percent w16 = 16
percent w18 = 18
percent w20 = 20
percent w22 = 22
percent w24 = 24
percent w25 = 25
percent w28 = 28
percent w34 = 34
percent w36 = 36
percent w40 = 40
percent w50 = 50

abbrev width_class : Width → String
width_class w8 = "w-[8%]"
width_class w10 = "w-[10%]"
width_class w12 = "w-[12%]"
width_class w16 = "w-[16%]"
width_class w18 = "w-[18%]"
width_class w20 = "w-[20%]"
width_class w22 = "w-[22%]"
width_class w24 = "w-[24%]"
width_class w25 = "w-[25%]"
width_class w28 = "w-[28%]"
width_class w34 = "w-[34%]"
width_class w36 = "w-[36%]"
width_class w40 = "w-[40%]"
width_class w50 = "w-[50%]"

-- A cell of a row: its width, the classes behind it, its further attributes and what is in it.
pub record Cell (E : Type 0) : Type 0 where
  pub width : Width
  pub more : String
  pub attributes : List (Attribute E)
  pub content : List (Node E)

module _ {E : Type 0} where
  abbrev pub cell : Width → List (Node E) → Cell E
  cell width content = record { width = width; more = ""; attributes = []; content = content }

  abbrev pub right_cell : Width → List (Node E) → Cell E
  right_cell width content = record {
    width = width;
    more = " text-right";
    attributes = [];
    content = content;
  }

  abbrev cell_class : Cell E → String
  cell_class c = String.◌++◌ (width_class c.width) c.more

  unfoldable pub head_cell : Cell E → Node E
  unfolding th
  head_cell c =
      let e = th (some (cell_class c)) c.content in
      element e.tag (class_name e.class_name ∷ c.attributes) (children e.children)

  unfoldable pub body_cell : Cell E → Node E
  unfolding td
  body_cell c =
      let e = td (some (cell_class c)) c.content in
      element e.tag (class_name e.class_name ∷ c.attributes) (children e.children)

  -- `<TR key={…}>`; the row of the header has no key.
  unfoldable pub body_row : ℕ → List (Cell E) → Node E
  unfolding tr body_cell
  body_row id cells =
      let e = tr none (map body_cell cells) in
      element e.tag (key id ∷ class_name e.class_name ∷ []) (children e.children)

  -- `<Table className="table-fixed"><THead><TR>…</TR></THead><TBody>…</TBody></Table>`
  unfoldable pub fixed_table : List (Cell E) → List (Node E) → Node E
  unfolding table t_head t_body tr head_cell
  fixed_table heads rows =
      let head = contained (t_head none (contained (tr none (map head_cell heads)) ∷ [])) in
      let body =
        element "tbody" (class_name (t_body {C = List (Node E)} none rows).class_name ∷ [])
          (children rows) in
      let outer = table (some "table-fixed") (head ∷ body ∷ []) in
      let middle = outer.children in
      element outer.tag (class_name outer.class_name ∷ []) (
        children (
          element middle.tag (class_name middle.class_name ∷ [])
            (children (contained middle.children ∷ []))
          ∷ []))

  -- The pager below a table, if it stands.
  unfoldable pub pager_nodes : Option Pager → E → E → List (Node E)
  unfolding button
  pager_nodes none prev next = []
  pager_nodes (some p) prev next =
      div "flex items-center justify-end gap-2" (
        span "text-sm text-gray-600" (words_node "Page " ∷ text (number p.page) ∷ [])
        ∷ button (some Button.secondary) (some Button.sm)
            (on_click prev ∷ disabled p.prev_disabled ∷ []) (words_node "Prev" ∷ [])
        ∷ button (some Button.secondary) (some Button.sm)
            (on_click next ∷ disabled p.next_disabled ∷ []) (words_node "Next" ∷ [])
        ∷ [])
      ∷ []

  -- `Modal` with a title and a footer.
  unfoldable pub modal : Bool → E → String → List (Node E) → List (Node E) → List (Node E)
  modal false close title content footer = []
  modal true close title content footer =
      div "fixed inset-0 z-50 flex items-center justify-center" (
        element "div"
          (class_name "absolute inset-0 bg-black/50"
            ∷ on_click close
            ∷ property "data-testid" "backdrop"
            ∷ [])
          (children [])
        ∷ div "relative z-10 w-full max-w-2xl rounded-lg bg-white shadow-xl text-left" (
            (if truthy title
              then div "border-b p-4 text-base font-semibold" (words_node title ∷ []) ∷ []
              else [])
            ++ (div "p-4" content
                ∷ div "border-t p-3" (div "flex items-center justify-end gap-2" footer ∷ [])
                ∷ []))
        ∷ [])
      ∷ []

  -- How much of the width of a table its header gives away.
  unfoldable pub total : List (Cell E) → ℕ
  unfolding percent
  total [] = 0
  total (c ∷ cs) = percent c.width + total cs
