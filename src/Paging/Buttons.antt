-- ===== src/Paging/Buttons.antt =====
-- The pager: `Math.max(1, p - 1)`, `p + 1`, and when the two buttons stand and work.
use ror_books_test.Prelude.{
  ℕ, ◌+◌, ◌-◌, max, String, Option, none, some, Bool, ◌||◌, ◌&&◌, str_eq, ltb, ◌==◌, if◌then◌else◌,
}

abbrev pub page_size : ℕ
page_size = 25

-- `setPage((p) => Math.max(1, p - 1))`; the numbers are never below 0, where `-` stops.
unfoldable pub prev_page : ℕ → ℕ
prev_page p = max 1 (p - 1)

unfoldable pub next_page : ℕ → ℕ
next_page p = p + 1

pub record Pager : Type 0 where
  pub page : ℕ
  pub prev_disabled : Bool
  pub next_disabled : Bool

-- The pager of a page number over a table of so many rows, or nothing.
unfoldable pub pager : ℕ → ℕ → Option Pager
pager page rows =
    if ltb 1 page || rows == page_size
    then some
        (record { page = page; prev_disabled = page == 1; next_disabled = ltb rows page_size })
    else none

-- The state `q` and `page` of a page with a search box.
pub record Search : Type 0 where
  pub q : String
  pub page : ℕ

abbrev pub no_search : Search
no_search = record { q = ""; page = 1 }

-- Whether the effect sees no change of `[q, page]`.
abbrev pub same_search : Search → Search → Bool
same_search a b = str_eq a.q b.q && a.page == b.page

-- `onChange={(e) => { setQ(e.target.value); setPage(1); }}`
unfoldable pub type_query : String → Search → Search
type_query text s = record { q = text; page = 1 }

-- A click on a button: one that is disabled or not there does nothing.
unfoldable pub click_prev : ℕ → ℕ → ℕ
unfolding pager prev_page
click_prev rows p = elim (pager p rows) [
  | none ↦ p
  | some shown ↦ if shown.prev_disabled then p else prev_page p
]

unfoldable pub click_next : ℕ → ℕ → ℕ
unfolding pager next_page
click_next rows p = elim (pager p rows) [
  | none ↦ p
  | some shown ↦ if shown.next_disabled then p else next_page p
]
