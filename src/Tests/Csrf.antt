-- ===== src/Tests/Csrf.antt =====
-- The check of writes with tokens of two sessions.
use ror_books_test.Prelude.{
  ◌≡◌, refl, eq_iff, Bool-cases, inl, inr, String, Bool, true, false, List, [], ◌∷◌, ◌++◌, str_eq,
  arith, if◌then◌else◌,
}
use ror_books_test.Api.{Call, get_csrf, delete_session}
use ror_books_test.Joint.Csrf
use ror_books_test.Joint.Csrf.Steps
use ror_books_test.Tests.Data.{refusal, open_server, at_account}

abbrev has_left : List Call → Bool
has_left [] = false
has_left (delete_session ∷ _) = true
has_left (_ ∷ sent) = has_left sent

-- The token is another one once the user has signed out.
abbrev issue : List Call → String
issue sent = if has_left sent then "second" else "first"

abbrev valid : List Call → String → Bool
valid sent token = str_eq token (issue sent)

has_left-asked : (sent : List Call) → has_left (sent ++ get_csrf ∷ []) ≡ has_left sent
has_left-asked [] = refl
has_left-asked (c ∷ cs) = ground (arith, has_left-asked cs)

issued : (sent : List Call) → valid (sent ++ get_csrf ∷ []) (issue sent) ≡ true
issued sent = rw (has_left-asked sent) ((eq_iff (issue sent) (issue sent)).1 refl)

full-IsToken : Csrf.IsToken issue valid
full-IsToken = record {
  issued = issued;
  full = λ sent. elim (Bool-cases (has_left sent)) [ inl e ↦ rw e refl | inr e ↦ rw e refl ];
}

abbrev steps : List Steps.Step
steps =
    Steps.signs_in "bob@library.test" "secret" ∷ Steps.saves ∷ Steps.changes ∷ Steps.signs_out ∷ []

perform-guarded_example :
    (Steps.perform (Csrf.guarded issue valid refusal open_server) steps at_account
      ≡ Steps.perform (Csrf.trusting issue open_server) steps at_account)
    × Csrf.IsCurrent issue (Steps.perform (Csrf.trusting issue open_server) steps at_account)
unfolding Csrf.header_at
perform-guarded_example =
    Steps.perform-guarded issue valid full-IsToken refusal open_server steps at_account refl
