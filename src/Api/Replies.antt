-- ===== src/Api/Replies.antt =====
-- The answers that the handlers read: `res`, or the error that a `catch` receives.
use ror_books_test.Prelude.{
  String, Option, none, some, List, [], ◌∷◌, Bool, truthy, if◌then◌else◌, ◌≡◌, refl, ◌⊎◌, inl, inr,
}

-- `data.details` of a refused request: an array of messages, or one text.
pub data Details : Type 0 where
  many : List String → Details
  single : String → Details

-- One entry of `data.errors`.
pub data Messages : Type 0 where
  listed : List String → Messages
  only : String → Messages

-- `e.response.data`, with `none` for a field that is not there.
pub record ErrorBody : Type 0 where
  pub error : Option String
  pub details : Option Details
  pub errors : Option (List (String × Messages))

-- The `e` of a `catch`: `axios.isAxiosError(e)`, `e.response?.data` and `e.message`.
pub record Failure : Type 0 where
  pub is_axios : Bool
  pub body : Option ErrorBody
  pub message : String

pub data Reply (A : Type 0) : Type 0 where
  ok : A → Reply A
  failed : Failure → Reply A

-- `text || other`, where `text` may be undefined.
abbrev pub or_else : Option String → String → String
or_else none other = other
or_else (some text) other = if truthy text then text else other

-- `e?.response?.data?.error`
abbrev pub response_error : Failure → Option String
response_error e = elim e.body [ none ↦ none | some body ↦ body.error ]

-- `e?.response?.data?.details`
abbrev pub response_details : Failure → Option Details
response_details e = elim e.body [ none ↦ none | some body ↦ body.details ]

-- `e?.response?.data?.errors`
abbrev pub response_errors : Failure → Option (List (String × Messages))
response_errors e = elim e.body [ none ↦ none | some body ↦ body.errors ]

-- `Array.isArray(messages) ? messages[0] : String(messages)`, `none` for undefined.
pub first_message : Messages → Option String
first_message (listed []) = none
first_message (listed (m ∷ ms)) = some m
first_message (only m) = some m

-- The texts that a form shows beside its fields: a `Record<string, string>` in insertion order.
abbrev pub Errors : Type 0
Errors = List (String × Option String)

-- The loop over `Object.keys(serverErrors)`, whose keys are distinct.
unfoldable pub map_errors : List (String × Messages) → Errors
unfolding first_message
map_errors [] = []
map_errors ((key, messages) ∷ rest) = (key, first_message messages) ∷ map_errors rest

-- A split on an answer that keeps the equation.
pub Reply-cases :
    {A : Type 0} (r : Reply A) → ((a : A) × (r ≡ ok a)) ⊎ ((e : Failure) × (r ≡ failed e))
Reply-cases (ok a) = inl (a, refl)
Reply-cases (failed e) = inr (e, refl)
