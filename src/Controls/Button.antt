-- ===== src/Controls/Button.antt =====
-- frontend/src/components/Button.tsx: the classes of a button.
use ror_books_test.Prelude.{String, Option, none, some, [], ◌∷◌, join}

pub data Variant : Type 0 where
  primary secondary ghost danger : Variant

pub data Size : Type 0 where
  sm md : Size

abbrev base : String
base =
    "inline-flex items-center justify-center rounded-md font-medium transition-colors focus:outline-none focus:ring-2 focus:ring-offset-2 disabled:opacity-50 disabled:cursor-not-allowed"

unfoldable pub size_class : Size → String
size_class sm = "h-8 px-3 text-sm"
size_class md = "h-10 px-4"

unfoldable pub variant_class : Variant → String
variant_class primary = "bg-blue-600 text-white hover:bg-blue-700 focus:ring-blue-600"
variant_class secondary = "bg-gray-900 text-white hover:bg-black focus:ring-gray-900"
variant_class ghost = "bg-transparent text-gray-900 hover:bg-gray-100 focus:ring-gray-300"
variant_class danger = "bg-red-600 text-white hover:bg-red-700 focus:ring-red-600"

abbrev or_default {ℓ} : {A : Type ℓ} → A → Option A → A
or_default x none = x
or_default x (some y) = y

-- The classes, by the properties that are given.
unfoldable pub button_class : Option Variant → Option Size → Option String → String
unfolding join size_class variant_class
button_class variant size class_name = join " " (
    base
    ∷ size_class (or_default md size)
    ∷ variant_class (or_default primary variant)
    ∷ or_default "" class_name
    ∷ [])
