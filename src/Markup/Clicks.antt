-- ===== src/Markup/Clicks.antt =====
-- What can be clicked in the parts of a page.
use ror_books_test.Prelude.{
  ◌≡◌, refl, ◌∙◌, String, Option, none, some, Bool, true, false, List, [], ◌∷◌, ◌++◌, map,
  if◌then◌else◌, truthy, arith, Bool-cases, inl, inr,
}
use mathlib.Core.List.{append-nil}
use ror_books_test.Paging.{Pager}
use ror_books_test.Controls.Input
use ror_books_test.Markup.Nodes.{
  Node, Target, handler, Attribute, element, gather, gather_all, clicks, children,
  gather_all-append,
}
use ror_books_test.Markup.Parts.{input, label_nodes, line_nodes}
use ror_books_test.Markup.Tables.{Cell, head_cell, fixed_table, pager_nodes, modal}

module _ {E : Type 0} where
  -- What a button brings, unless it is disabled.
  abbrev pub unless : Bool → E → List (Target E)
  unless is_disabled e = if is_disabled then [] else handler e ∷ []

  abbrev pub pager_events : Option Pager → E → E → List (Target E)
  pager_events none prev next = []
  pager_events (some p) prev next = unless p.prev_disabled prev ++ unless p.next_disabled next

  pub pager_clicks :
      (p : Option Pager) (prev next : E)
      → gather_all clicks (children (pager_nodes p prev next)) ≡ pager_events p prev next
  unfolding gather pager_nodes
  pager_clicks none prev next = refl
  pager_clicks (some p) prev next = ground arith

  pub table_clicks :
      (heads : List (Cell E)) (rows : List (Node E))
      → gather clicks (fixed_table heads rows)
        ≡ gather_all clicks (children (map head_cell heads)) ++ gather_all clicks (children rows)
  unfolding gather fixed_table
  table_clicks heads rows = simp append-nil

  -- An open dialog is closed by its backdrop.
  abbrev pub modal_events : Bool → E → List (Node E) → List (Node E) → List (Target E)
  modal_events false close content footer = []
  modal_events true close content footer =
      handler close ∷ gather_all clicks (children content) ++ gather_all clicks (children footer)

  pub modal-clicks :
      (is_open : Bool) (close : E) (title : String) (content footer : List (Node E))
      → gather_all clicks (children (modal is_open close title content footer))
        ≡ modal_events is_open close content footer
  unfolding gather modal
  modal-clicks false close title content footer = refl
  modal-clicks true close title content footer = elim (Bool-cases (truthy title)) [
    | inl e ↦ rw e (simp append-nil)
    | inr e ↦ rw e (simp append-nil)
  ]

  label_clicks : (o : Option String) → gather_all clicks (children (label_nodes {E = E} o)) ≡ []
  unfolding gather
  label_clicks none = refl
  label_clicks (some label) = refl

  line_clicks :
      (o : Option (String × Bool)) → gather_all clicks (children (line_nodes {E = E} o)) ≡ []
  unfolding gather
  line_clicks none = refl
  line_clicks (some (line, is_error)) = refl

  -- An input brings what its own attributes do.
  pub input-clicks :
      (label hint error : Option String) (attributes : List (Attribute E))
      → gather clicks (input label hint error attributes)
        ≡ gather clicks (element "input" attributes (children []))
  unfolding gather input
  input-clicks label hint error attributes =
      let v = Input.view label hint error "" in
      gather_all-append clicks (label_nodes v.label) _
      ∙ simp (append-nil, label_clicks v.label, line_clicks v.line)
