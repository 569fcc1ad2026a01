-- ===== src/MemberPages/Defs.antt =====
-- frontend/src/pages/member/Books.tsx and Borrowings.tsx. Both store `res.data` unguarded and catch
-- nothing; the second has the filters of the librarian's page.
use ror_books_test.Prelude.{
  ℕ, String, Option, none, some, Bool, List, [], map, length, if◌then◌else◌,
}
use ror_books_test.Api.{ok, failed}
use ror_books_test.Dates.{Status, StatusBadge, status_cell}
use ror_books_test.Paging.{
  Listing, ListReply, without, mount, change_key, Search, no_search, same_search, type_query,
  click_prev, click_next, Pager, pager,
}
use ror_books_test.Borrowings.{Filters, initial, same_filters}

-- A page with its list; or, once `.map` of a missing body has thrown, no page.
pub data Table (K A : Type 0) : Type 0 where
  drawn : Listing K A → Table K A
  crashed : Table K A

module _ {K A : Type 0} where
  -- The request at place `i` is answered: `setItems(res.data)`; a refusal is not caught, and leaves
  -- the items.
  unfoldable pub table_answered : ℕ → ListReply A → Table K A → Table K A
  table_answered i reply crashed = crashed
  table_answered i (ok (some items)) (drawn l) =
      drawn (record l { items = items; in_flight = without i l.in_flight })
  table_answered i (ok none) (drawn l) = crashed
  table_answered i (failed e) (drawn l) = drawn (record l { in_flight = without i l.in_flight })

  -- A control changes the query.
  unfoldable pub table_changed : (K → K → Bool) → (K → K) → Table K A → Table K A
  table_changed same change (drawn l) = drawn (change_key same (change l.key) l)
  table_changed same change crashed = crashed

pub record Book : Type 0 where
  pub id : ℕ
  pub title : String
  pub author : String
  pub genre : String
  pub isbn : String
  -- `can_borrow`, with undefined as false.
  pub can_borrow : Bool

abbrev pub books_opened : Table Search Book
books_opened = drawn (mount no_search)

unfoldable pub search_box : String → Table Search Book → Table Search Book
search_box text t = table_changed same_search (type_query text) t

abbrev rows_of : {K A : Type 0} → Table K A → List A
rows_of (drawn l) = l.items
rows_of crashed = []

unfoldable pub prev_clicked : Table Search Book → Table Search Book
prev_clicked t =
    table_changed same_search
      (λ key. record key { page = click_prev (length (rows_of t)) key.page }) t

unfoldable pub next_clicked : Table Search Book → Table Search Book
next_clicked t =
    table_changed same_search
      (λ key. record key { page = click_next (length (rows_of t)) key.page }) t

-- The cell of actions: a `BorrowButton` for the book, or "N/A".
pub data Actions : Type 0 where
  borrow_button : ℕ → Actions
  not_available : Actions

unfoldable pub actions_cell : Book → Actions
actions_cell b = if b.can_borrow then borrow_button b.id else not_available

-- What a page shows besides its inputs: a cell of each row, and the pager.
pub record View (C : Type 0) : Type 0 where
  pub rows : List C
  pub pager : Option Pager

-- `none` where the render has thrown.
unfoldable pub books_view : Table Search Book → Option (View Actions)
unfolding actions_cell
books_view crashed = none
books_view (drawn l) =
    some (record { rows = map actions_cell l.items; pager = pager l.key.page (length l.items) })

pub record Borrowing : Type 0 where
  pub id : ℕ
  pub title : String
  pub author : String
  pub borrowed_at : ℕ
  pub due_date : ℕ
  pub status : Status

abbrev pub borrowings_opened : Option String → Table Filters Borrowing
borrowings_opened status_param = drawn (mount (initial status_param))

unfoldable pub change_filters :
    (Filters → Filters) → Table Filters Borrowing → Table Filters Borrowing
change_filters change t = table_changed same_filters change t

-- The status cell of each row at the time `now`, and the pager.
unfoldable pub borrowings_view : ℕ → Table Filters Borrowing → Option (View StatusBadge)
borrowings_view now crashed = none
borrowings_view now (drawn l) = some (record {
  rows = map (λ b. status_cell b.status b.due_date now) l.items;
  pager = pager l.key.page (length l.items);
})
