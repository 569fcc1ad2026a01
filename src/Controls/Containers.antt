-- ===== src/Controls/Containers.antt =====
-- frontend/src/components/Table.tsx and frontend/src/components/Card.tsx: elements with a fixed class
-- name, and the one that is passed behind it, around their children. Further attributes go on the
-- innermost element as they are.
use ror_books_test.Prelude.{String, Option, none, some, [], ◌∷◌, join}

-- An element with its class name around its children.
pub record Element (C : Type 0) : Type 0 where
  pub tag : String
  pub class_name : String
  pub children : C

-- `className = ""`
abbrev given : Option String → String
given none = ""
given (some class_name) = class_name

-- `[fixed, className].join(" ")`
abbrev classes : String → Option String → String
classes fixed class_name = join " " (fixed ∷ given class_name ∷ [])

module _ {C : Type 0} where
  unfoldable pub table : Option String → C → Element (Element (Element C))
  unfolding join
  table class_name children = record {
    tag = "div";
    class_name = "overflow-hidden rounded-lg border border-gray-200 bg-white shadow-sm";
    children = record {
      tag = "div";
      class_name = "overflow-x-auto";
      children = record {
        tag = "table";
        class_name = classes "w-full text-left text-sm" class_name;
        children = children;
      };
    };
  }

  unfoldable pub t_head : Option String → C → Element C
  unfolding join
  t_head class_name children = record {
    tag = "thead";
    class_name = classes "bg-gray-50 text-gray-700" class_name;
    children = children;
  }

  unfoldable pub t_body : Option String → C → Element C
  t_body class_name children = record {
    tag = "tbody";
    class_name = given class_name;
    children = children;
  }

  unfoldable pub tr : Option String → C → Element C
  unfolding join
  tr class_name children = record {
    tag = "tr";
    class_name = classes "border-b last:border-0" class_name;
    children = children;
  }

  unfoldable pub th : Option String → C → Element C
  unfolding join
  th class_name children = record {
    tag = "th";
    class_name = classes "p-3 text-xs font-semibold uppercase tracking-wide" class_name;
    children = children;
  }

  unfoldable pub td : Option String → C → Element C
  unfolding join
  td class_name children = record {
    tag = "td";
    class_name = classes "p-3 align-middle" class_name;
    children = children;
  }

  unfoldable pub card : Option String → C → Element C
  unfolding join
  card class_name children = record {
    tag = "div";
    class_name = classes "rounded-lg border border-gray-200 bg-white shadow-sm" class_name;
    children = children;
  }

  unfoldable pub card_header : Option String → C → Element C
  unfolding join
  card_header class_name children = record {
    tag = "div";
    class_name = classes "p-4 border-b" class_name;
    children = children;
  }

  unfoldable pub card_content : Option String → C → Element C
  unfolding join
  card_content class_name children = record {
    tag = "div";
    class_name = classes "p-4" class_name;
    children = children;
  }
