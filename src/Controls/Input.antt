-- ===== src/Controls/Input.antt =====
-- frontend/src/components/Input.tsx
use ror_books_test.Prelude.{
  ◌≡◌, ◌↔◌, String, Option, none, some, Bool, true, false, truthy, [], ◌∷◌, join, if◌then◌else◌,
  arith,
}
use ror_books_test.Forms.{BookForm, book_errors, error_at, is_missing}
use ror_books_test.Forms.Validation.{beside, book_errors-error_at}

pub record View : Type 0 where
  pub label : Option String
  pub class_name : String
  -- The line under the input: its text, and whether it is drawn as an error.
  pub line : Option (String × Bool)

abbrev present : Option String → Option String
present none = none
present (some text) = if truthy text then some text else none

abbrev border : Option String → String
border none = "border-gray-300 focus:border-gray-400 focus:ring-2 focus:ring-gray-200"
border (some error) = "border-red-500 focus:ring-2 focus:ring-red-200"

abbrev line_of : Option String → Option String → Option (String × Bool)
line_of (some error) hint = some (error, true)
line_of none (some hint) = some (hint, false)
line_of none none = none

unfoldable pub view : Option String → Option String → Option String → String → View
unfolding join
view label hint error class_name = record {
  label = present label;
  class_name = join " " (
      "w-full rounded-md border bg-white px-3 py-2 text-gray-900 placeholder-gray-400 shadow-sm transition focus:outline-none"
      ∷ border (present error)
      ∷ class_name
      ∷ []);
  line = line_of (present error) (present hint);
}

line_beside :
    (hint : Option String) (missing : Bool)
    → (line_of (present (beside missing "Title is required")) (present hint)
        ≡ some ("Title is required", true))
      ↔ (missing ≡ true)
line_beside none true = ground arith
line_beside none false = ground arith
line_beside (some text) true = ground arith
line_beside (some text) false = ground arith

-- Under the input of a title stands "Title is required", drawn as an error, exactly if the form's
-- title is missing; a hint never hides it.
pub title_line :
    (label hint : Option String) (class_name : String) (f : BookForm)
    → ((view label hint (error_at "title" (book_errors f)) class_name).line
        ≡ some ("Title is required", true))
      ↔ (is_missing f.title ≡ true)
unfolding view
title_line label hint class_name f =
    rw (book_errors-error_at f).0 (line_beside hint (is_missing f.title))
