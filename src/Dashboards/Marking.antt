-- ===== src/Dashboards/Marking.antt =====
-- What the overdue check tells the librarian.
use Prim.Native.String
use ror_books_test.Prelude.{
  ◌+◌, ◌≤◌, ◌≡◌, ◌⊎◌, refl, some, true, false, [], ◌∷◌, ◌++◌, arith, length, length-append,
}
use ror_books_test.Api.{Reply, ok, failed, Failure}
use ror_books_test.Dashboards.Librarian.{LibrarianData, Marked, Dashboard, mark_overdue}

-- The figures are new because the check and the request after it both succeeded; then the message of
-- the check is the one new alert.
abbrev pub IsRefreshed : Reply Marked → Reply LibrarianData → Dashboard → Dashboard → Type 0
IsRefreshed (ok body) (ok figures) d after =
    (body.success ≡ true)
    × (after.figures ≡ some figures)
    × (after.alerts ≡ d.alerts ++ body.message ∷ [])
IsRefreshed reply refresh d after = ⊥

-- A check that is not confirmed changes nothing. A confirmed one adds one or two alerts, and either
-- keeps the figures or has refreshed them.
pub mark_overdue-outcome :
    (reply : Reply Marked) (refresh : Reply LibrarianData) (d : Dashboard)
    → let after = mark_overdue true reply refresh d in
      (mark_overdue false reply refresh d ≡ d)
      × (length d.alerts + 1 ≤ length after.alerts)
      × (length after.alerts ≤ length d.alerts + 2)
      × ((after.figures ≡ d.figures) ⊎ IsRefreshed reply refresh d after)
unfolding mark_overdue
mark_overdue-outcome (ok body) (ok figures) d = ground (
  arith,
  length-append d.alerts (body.message ∷ []),
  length-append d.alerts (String.◌++◌ "Error: " body.error ∷ []),
)
mark_overdue-outcome (ok body) (failed e) d = ground (
  arith,
  length-append d.alerts (body.message ∷ []),
  length-append (d.alerts ++ body.message ∷ []) ("Error occurred while marking overdue books" ∷ []),
  length-append d.alerts (String.◌++◌ "Error: " body.error ∷ []),
)
mark_overdue-outcome (failed e) refresh d =
    ground (arith, length-append d.alerts ("Error occurred while marking overdue books" ∷ []))

-- When the check succeeds and only the figures cannot be loaded again, the librarian is told of the
-- success and then that marking failed, and keeps the old figures.
pub marked_and_failed :
    (body : Marked) (e : Failure) (d : Dashboard)
    → body.success ≡ true
    → let after = mark_overdue true (ok body) (failed e) d in
      (after.alerts
        ≡ (d.alerts ++ body.message ∷ []) ++ "Error occurred while marking overdue books" ∷ [])
      × (after.figures ≡ d.figures)
unfolding mark_overdue
marked_and_failed body e d h = rw h (refl, refl)
