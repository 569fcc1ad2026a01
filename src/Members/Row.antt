-- ===== src/Members/Row.antt =====
-- `Row`: the two buttons of a member and the form behind "Edit".
use ror_books_test.Prelude.{
  ℕ, String, Option, none, some, Bool, true, false, List, [], ◌∷◌, ◌++◌, if◌then◌else◌,
}
use ror_books_test.Api.{Reply, Errors, map_errors, response_errors}
use ror_books_test.Auth.{Outcome, done, thrown}
use ror_books_test.Forms.{MemberForm, member_errors, has_errors}
use ror_books_test.Members.Defs.{Member, Page, update_answered}

pub record Editor : Type 0 where
  pub member : Member
  pub editing : Bool
  pub form : MemberForm
  pub loading : Bool
  pub errors : Errors
  pub alerts : List String

unfoldable pub form_of : Member → MemberForm
form_of m = record {
  id = some m.id;
  email = some m.email;
  first_name = m.first_name;
  last_name = m.last_name;
  password = none;
}

unfoldable pub new_editor : Member → Editor
new_editor m = record {
  member = m;
  editing = false;
  form = form_of m;
  loading = false;
  errors = [];
  alerts = [];
}

unfoldable pub edit_clicked : Editor → Editor
edit_clicked e = record e { form = form_of e.member; editing = true }

unfoldable pub close_editor : Editor → Editor
close_editor e = record e { editing = false }

unfoldable pub edit_form : MemberForm → Editor → Editor
edit_form form e = record e { form = form }

-- The `attrs` of `onUpdate(m.id, attrs)`.
pub record Attrs : Type 0 where
  pub email : Option String
  pub first_name : Option String
  pub last_name : Option String

-- A click on "Save", which does nothing while the row loads; then `save` up to its `await`.
unfoldable pub save_clicked : Editor → Editor × Option (ℕ × Attrs)
save_clicked e =
    let errs = member_errors e.form in
    let checked = record e { errors = errs } in
    let attrs : Attrs = record {
      email = e.form.email;
      first_name = e.form.first_name;
      last_name = e.form.last_name;
    } in
    if e.loading
    then (e, none)
    else if has_errors errs
    then (checked, none)
    else (record checked { loading = true }, some (e.member.id, attrs))

abbrev save_failed : Option Errors → Editor → Editor
save_failed none e = record e { alerts = e.alerts ++ "Failed to save" ∷ [] }
save_failed (some errs) e = record e { errors = errs }

-- `save` from its `await` on, by what `onUpdate` did.
unfoldable pub save_finished : Outcome (Unit {0}) → Editor → Editor
save_finished (done _) e = record e { editing = false; errors = []; loading = false }
save_finished (thrown f) e =
    let mapped : Option Errors = elim (response_errors f) [
      | none ↦ none
      | some errs ↦ some (map_errors errs)
    ] in
    let shown = save_failed mapped e in record shown { loading = false }

-- The answer to a row's update reaches the page, and then the row.
unfoldable pub row_answered : Reply (Option Member) → Page → Editor → Page × Editor
unfolding update_answered save_finished
row_answered reply p e =
    let (p', result) = update_answered e.member.id reply p in (p', save_finished result e)

-- "Delete" is disabled while the row loads.
unfoldable pub delete_disabled : Editor → Bool
delete_disabled e = e.loading
