-- ===== src/Markup/Nodes.antt =====
-- A rendered tree. A handler is the event that it stands for; dates and times are formatted by the
-- browser, and a `BorrowButton` is a component with a state of its own.
use ror_books_test.Prelude.{
  ℕ, ◌≡◌, refl, sym, ap, ◌∙◌, String, str_eq, Bool, false, List, [], ◌∷◌, ◌++◌, map, if◌then◌else◌,
}
use mathlib.Core.List.{append_assoc, flat_map}

pub data Text : Type 0 where
  words : String → Text
  number : ℕ → Text
  local_date : ℕ → Text
  local_date_of local_time_of : String → Text

pub data Attribute (E : Type 0) : Type 0 where
  class_name key_text : String → Attribute E
  key : ℕ → Attribute E
  property : (name value : String) → Attribute E
  disabled : Bool → Attribute E
  on_click on_submit : E → Attribute E
  on_change : (String → E) → Attribute E

mutual
  pub data Node (E : Type 0) : Type 0 where
    text : Text → Node E
    element : String → List (Attribute E) → Nodes E → Node E
    borrow_button : ℕ → Node E

  pub data Nodes (E : Type 0) : Type 0 where
    nil : Nodes E
    cons : Node E → Nodes E → Nodes E

module _ {E : Type 0} where
  abbrev pub children : List (Node E) → Nodes E
  children [] = nil
  children (n ∷ ns) = cons n (children ns)

  -- `test && node`
  abbrev pub when : Bool → Node E → List (Node E)
  when test n = if test then n ∷ [] else []

  abbrev pub words_node : String → Node E
  words_node s = text (words s)

-- What a click can reach: a handler, or a link with its address.
pub data Target (E : Type 0) : Type 0 where
  handler : E → Target E
  link : String → Target E

-- What a reader takes from the parts of a tree.
pub record Reader (E A : Type 0) : Type 0 where
  pub from_text : Text → List A
  pub from_attributes : List (Attribute E) → List A
  pub from_borrow : ℕ → List A

unfoldable mutual
  -- What a reader finds, in the order of the document.
  pub gather : {E A : Type 0} → Reader E A → Node E → List A
  gather r (text t) = r.from_text t
  gather r (element tag attributes ns) = r.from_attributes attributes ++ gather_all r ns
  gather r (borrow_button id) = r.from_borrow id

  pub gather_all : {E A : Type 0} → Reader E A → Nodes E → List A
  gather_all r nil = []
  gather_all r (cons n ns) = gather r n ++ gather_all r ns

module _ {E : Type 0} where
  abbrev is_disabled : List (Attribute E) → Bool
  is_disabled [] = false
  is_disabled (disabled b ∷ attributes) = b
  is_disabled (_ ∷ attributes) = is_disabled attributes

  abbrev targets_in : List (Attribute E) → List (Target E)
  targets_in [] = []
  targets_in (on_click e ∷ attributes) = handler e ∷ targets_in attributes
  targets_in (property name value ∷ attributes) =
      let rest = targets_in attributes in if str_eq name "href" then link value ∷ rest else rest
  targets_in (_ ∷ attributes) = targets_in attributes

  -- The handlers of clicks, but for those of disabled buttons, and the links.
  abbrev pub clicks : Reader E (Target E)
  clicks = record {
    from_text = λ t. [];
    from_attributes = λ attributes. if is_disabled attributes then [] else targets_in attributes;
    from_borrow = λ id. [];
  }

  -- The books of the borrow buttons.
  abbrev pub borrows : Reader E ℕ
  borrows = record {
    from_text = λ t. [];
    from_attributes = λ attributes. [];
    from_borrow = λ id. id ∷ [];
  }

  -- The texts.
  abbrev pub texts : Reader E Text
  texts = record {
    from_text = λ t. t ∷ [];
    from_attributes = λ attributes. [];
    from_borrow = λ id. [];
  }

  module _ {A : Type 0} (r : Reader E A) where
    pub gather_all-append :
        (xs ys : List (Node E))
        → gather_all r (children (xs ++ ys))
          ≡ gather_all r (children xs) ++ gather_all r (children ys)
    unfolding gather
    gather_all-append [] ys = refl
    gather_all-append (x ∷ xs) ys =
        ap (λ rest. gather r x ++ rest) (gather_all-append xs ys)
        ∙ sym (append_assoc (gather r x) (gather_all r (children xs)) (gather_all r (children ys)))

    -- A list of items, one node for each.
    pub gather_all-map :
        {B : Type 0} (f : B → Node E) (g : B → List A)
        → ((b : B) → gather r (f b) ≡ g b)
        → (bs : List B) → gather_all r (children (map f bs)) ≡ flat_map g bs
    unfolding gather flat_map
    gather_all-map f g same [] = refl
    gather_all-map f g same (b ∷ bs) = rw (same b, gather_all-map f g same bs) refl
