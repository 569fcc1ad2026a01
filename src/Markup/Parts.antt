-- ===== src/Markup/Parts.antt =====
-- The components that the pages are built of.
use ror_books_test.Prelude.{String, Option, none, some, Bool, List, [], ◌∷◌, ◌++◌, if◌then◌else◌}
use ror_books_test.Controls.Containers.{Element, card, card_header, card_content}
use ror_books_test.Controls.Badge
use ror_books_test.Controls.Badge.{badge_class}
use ror_books_test.Controls.Button
use ror_books_test.Controls.Button.{button_class}
use ror_books_test.Controls.Input
use ror_books_test.Markup.Nodes.{Node, Attribute, class_name, element, children, words_node}

module _ {E : Type 0} where
  abbrev pub div : String → List (Node E) → Node E
  div classes ns = element "div" (class_name classes ∷ []) (children ns)

  abbrev pub span : String → List (Node E) → Node E
  span classes ns = element "span" (class_name classes ∷ []) (children ns)

  -- A container as an element.
  abbrev pub contained : Element (List (Node E)) → Node E
  contained e = element e.tag (class_name e.class_name ∷ []) (children e.children)

  -- `<Card><CardHeader><div className="font-medium">…</div></CardHeader><CardContent>…`
  unfoldable pub titled_card : String → List (Node E) → Node E
  unfolding card card_header card_content
  titled_card title content = contained (
      card none (
        contained (card_header none (div "font-medium" (words_node title ∷ []) ∷ []))
        ∷ contained (card_content none content)
        ∷ []))

  -- `Badge`
  unfoldable pub badge : Badge.Variant → List (Node E) → Node E
  unfolding badge_class
  badge variant content = span (badge_class (some variant) none) content

  -- `Button`, with the attributes that are passed on.
  unfoldable pub button :
      Option Button.Variant → Option Button.Size → List (Attribute E) → List (Node E) → Node E
  unfolding button_class
  button variant size attributes content =
      element "button" (class_name (button_class variant size none) ∷ attributes) (children content)

  abbrev pub label_nodes : Option String → List (Node E)
  label_nodes none = []
  label_nodes (some label) =
      span "mb-1 block text-sm font-medium text-gray-700" (words_node label ∷ []) ∷ []

  abbrev pub line_nodes : Option (String × Bool) → List (Node E)
  line_nodes none = []
  line_nodes (some (line, is_error)) =
      span
        (if is_error then "mt-1 block text-xs text-red-600" else "mt-1 block text-xs text-gray-500")
        (words_node line ∷ [])
      ∷ []

  -- `Input`, with the attributes that are passed on.
  unfoldable pub input : Option String → Option String → Option String → List (Attribute E) → Node E
  unfolding Input.view
  input label hint error attributes =
      let v = Input.view label hint error "" in
      element "label" (class_name "block" ∷ []) (
        children (
          label_nodes v.label
          ++ (element "input" (class_name v.class_name ∷ attributes) (children []) ∷ []
              ++ line_nodes v.line)))
