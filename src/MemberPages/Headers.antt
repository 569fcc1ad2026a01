-- ===== src/MemberPages/Headers.antt =====
-- The controls and the headers of frontend/src/pages/member/Borrowings.tsx, which change the query of
-- its table.
use ror_books_test.Prelude.{◌≡◌, ◌≢◌, ◌⊎◌, String, Option, none, some, Bool, List, [], ◌∷◌, arith}
use ror_books_test.Borrowings.{
  Direction, asc, desc, StatusFilter, Filters, clear_stands, borrowed_aria, due_aria,
}
use ror_books_test.Borrowings.Headers.{
  type_q, pick_date, clear_all, pick_status, borrowed_clicked, due_clicked, use_control,
}
use ror_books_test.MemberPages.Defs.{Table, Borrowing, change_filters}

-- The bar above the table.
pub record Bar : Type 0 where
  pub search : String
  pub date : String
  pub clear_button : Bool
  pub status : StatusFilter
  pub options : List (String × String)

unfoldable pub bar : Filters → Bar
bar f = record {
  search = f.q;
  date = f.date;
  clear_button = clear_stands f;
  status = f.status;
  options =
      ("all", "All")
      ∷ ("borrowed", "Borrowed")
      ∷ ("overdue", "Overdue")
      ∷ ("returned", "Returned")
      ∷ [];
}

-- A header that sorts: its `aria-sort` and its arrow.
pub record SortHeader : Type 0 where
  pub label : String
  pub aria_sort : Option String
  pub arrow : Option String

abbrev aria_text : Option Direction → Option String
aria_text none = none
aria_text (some asc) = some "ascending"
aria_text (some desc) = some "descending"

abbrev arrow_text : Option Direction → Option String
arrow_text none = none
arrow_text (some asc) = some "↑"
arrow_text (some desc) = some "↓"

unfoldable pub borrowed_cell : Filters → SortHeader
borrowed_cell f = record {
  label = "Borrowed";
  aria_sort = aria_text (borrowed_aria f);
  arrow = arrow_text (borrowed_aria f);
}

unfoldable pub due_cell : Filters → SortHeader
due_cell f = record {
  label = "Due";
  aria_sort = aria_text (due_aria f);
  arrow = arrow_text (due_aria f);
}

-- The `onChange` and `onClick` handlers of the bar and the headers.
abbrev pub search_typed : String → Table Filters Borrowing → Table Filters Borrowing
search_typed text t = change_filters (use_control (type_q text)) t

abbrev pub date_picked : String → Table Filters Borrowing → Table Filters Borrowing
date_picked text t = change_filters (use_control (pick_date text)) t

abbrev pub cleared : Table Filters Borrowing → Table Filters Borrowing
cleared t = change_filters (use_control clear_all) t

abbrev pub status_picked : StatusFilter → Table Filters Borrowing → Table Filters Borrowing
status_picked status t = change_filters (use_control (pick_status status)) t

abbrev pub borrowed_sorted : Table Filters Borrowing → Table Filters Borrowing
borrowed_sorted t = change_filters (use_control borrowed_clicked) t

abbrev pub due_sorted : Table Filters Borrowing → Table Filters Borrowing
due_sorted t = change_filters (use_control due_clicked) t

-- Exactly one of the two headers carries an arrow, the one that has an `aria-sort`.
pub one_arrow :
    (f : Filters)
    → (((borrowed_cell f).arrow ≡ none)
        × ((due_cell f).arrow ≢ none)
        × ((due_cell f).aria_sort ≢ none))
      ⊎ (((due_cell f).arrow ≡ none)
          × ((borrowed_cell f).arrow ≢ none)
          × ((borrowed_cell f).aria_sort ≢ none))
unfolding borrowed_cell due_cell
one_arrow f = ground arith
