-- ===== src/Borrowings/Headers.antt =====
-- What the filters and headers do to the next request.
use ror_books_test.Prelude.{
  ℕ, ◌≤◌, ◌≡◌, ◌↔◌, ◌⊎◌, refl, String, Option, none, some, false, List, [], ◌∷◌, arith,
}
use ror_books_test.Paging.{click_prev, click_next}
use ror_books_test.Borrowings.Query.{
  borrowed_at, due_date, asc, desc, StatusFilter, Filters, initial, set_q, set_date, clear,
  clear_stands, set_status, borrowed_header, due_header, borrowed_aria, due_aria, prev, next,
  params,
}

-- The controls above the table and its headers, and the pager over a table of so many rows.
pub data Control : Type 0 where
  type_q pick_date : String → Control
  clear_all : Control
  pick_status : StatusFilter → Control
  borrowed_clicked due_clicked : Control
  prev_clicked next_clicked : ℕ → Control

pub use_control : Control → Filters → Filters
use_control (type_q text) f = set_q text f
use_control (pick_date text) f = set_date text f
use_control clear_all f = clear f
use_control (pick_status status) f = set_status status f
use_control borrowed_clicked f = borrowed_header f
use_control due_clicked f = due_header f
use_control (prev_clicked rows) f = prev rows f
use_control (next_clicked rows) f = next rows f

-- What a control may do to the page number.
abbrev pub GoesBack : Control → Filters → Filters → Type 0
GoesBack (prev_clicked rows) f after = record after { page = f.page } ≡ f
GoesBack (next_clicked rows) f after = record after { page = f.page } ≡ f
GoesBack c f after = after.page ≡ 1

-- A control that changes what is listed or its order goes back to page 1; "Prev" and "Next" change
-- the page number and nothing else.
pub use_control-GoesBack : (c : Control) (f : Filters) → GoesBack c f (use_control c f)
unfolding use_control set_q set_date clear set_status borrowed_header due_header prev next
use_control-GoesBack (type_q text) f = refl
use_control-GoesBack c f = ground arith

use_control-page : (c : Control) (f : Filters) → 1 ≤ f.page → 1 ≤ (use_control c f).page
unfolding use_control set_q set_date clear set_status borrowed_header due_header prev next
    click_prev click_next
use_control-page (type_q text) f h = omega arith
use_control-page c f h = ground arith

pub run : List Control → Filters → Filters
run [] f = f
run (c ∷ cs) f = run cs (use_control c f)

run-page : (cs : List Control) (f : Filters) → 1 ≤ f.page → 1 ≤ (run cs f).page
unfolding run
run-page [] f h = h
run-page (c ∷ cs) f h = run-page cs (use_control c f) (use_control-page c f h)

-- Exactly one header is marked, with the sort and the direction that are asked for.
abbrev pub IsMarked : Filters → Type 0
IsMarked f =
    ((borrowed_aria f ≡ some (params f).direction)
      × (due_aria f ≡ none)
      × ((params f).sort ≡ borrowed_at))
    ⊎ ((due_aria f ≡ some (params f).direction)
        × (borrowed_aria f ≡ none)
        × ((params f).sort ≡ due_date))

marked : (f : Filters) → IsMarked f
unfolding params
marked f = ground arith

-- From any URL and after any use of the controls, the page number that is asked for is at least 1,
-- and exactly one of the two headers is marked as sorted: the one that is asked for, with the
-- direction that is asked for.
pub run-params :
    (status_param : Option String) (cs : List Control)
    → let f = run cs (initial status_param) in (1 ≤ (params f).page) × IsMarked f
unfolding params initial
run-params status_param cs =
    let start : Filters = initial status_param in
    (run-page cs start (omega arith), marked (run cs start))

-- A header starts with its own direction whatever was sorted by before, and from then on it
-- alternates: the third click in a row does what the first did.
pub header_cycle :
    (f : Filters)
    → (borrowed_header (borrowed_header (borrowed_header f)) ≡ borrowed_header f)
      × (due_header (due_header (due_header f)) ≡ due_header f)
      × (due_aria (due_header (borrowed_header f)) ≡ some asc)
      × (borrowed_aria (borrowed_header (due_header f)) ≡ some desc)
unfolding borrowed_header due_header
header_cycle f = ground arith

-- "Clear" stands exactly when the request is narrowed by a text or a date; it takes both out of the
-- request, goes away, and leaves the status and the sorting.
pub clear-params :
    (f : Filters)
    → ((clear_stands f ≡ false) ↔ (((params f).q ≡ none) × ((params f).date ≡ none)))
      × (clear_stands (clear f) ≡ false)
      × ((params (clear f)).status ≡ (params f).status)
      × ((params (clear f)).sort ≡ (params f).sort)
      × ((params (clear f)).direction ≡ (params f).direction)
unfolding clear params
clear-params f = ground arith
