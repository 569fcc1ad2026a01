-- ===== src/Members/Saving.antt =====
-- What a member's row shows once its update is answered.
use ror_books_test.Prelude.{◌≡◌, refl, Option, some, false, [], ◌∷◌, ◌++◌, arith}
use ror_books_test.Api.{Reply, ok, failed, Failure}
use ror_books_test.Members.Defs.{Member, Page}
use ror_books_test.Members.Row.{Editor, row_answered}

-- Whatever the server answers, also when it refuses the texts with errors for their fields, the
-- row's dialog closes with no error shown: `onUpdate` catches the error before `save` can.
pub refused_closes :
    (reply : Reply (Option Member)) (p : Page) (e : Editor)
    → let after = (row_answered reply p e).1 in
      (after.editing ≡ false)
      × (after.errors ≡ [])
      × (after.alerts ≡ e.alerts)
      × (after.loading ≡ false)
unfolding row_answered
refused_closes (ok (some m)) p e = ground arith
refused_closes reply p e = ground arith

-- A refused update leaves the members as they are, and says so in one alert of the page.
pub refused_update_kept :
    (f : Failure) (p : Page) (e : Editor)
    → let after = (row_answered (failed f) p e).0 in
      (after.list ≡ p.list) × (after.alerts ≡ p.alerts ++ "Failed to update member" ∷ [])
unfolding row_answered
refused_update_kept f p e = (refl, refl)
