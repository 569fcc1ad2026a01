-- ===== src/Dashboards/Member.antt =====
-- The member's dashboard: its figures, its current borrowings, the top books and the history.
use ror_books_test.Prelude.{
  ℕ, String, Bool, false, truthy, Option, none, some, List, [], ◌∷◌, ◌++◌, map, ltb, length,
  if◌then◌else◌,
}
use ror_books_test.Api.{Reply, ok, failed}
use ror_books_test.QuickSearch.{Box, shown}
use ror_books_test.Dates.{Zone, DueBadge, due_badge, Highlight, row_highlight}

-- `BorrowingItem`. The two other dates are texts, which the page only formats.
pub record Item : Type 0 where
  pub id : ℕ
  pub due_date : ℕ
  pub borrowed_at : Option String
  pub created_at : Option String
  pub status : Option String
  pub title : Option String
  pub author : Option String

-- `TopBook`, with an undefined `can_borrow` as false.
pub record TopBook : Type 0 where
  pub id : ℕ
  pub title : String
  pub author : String
  pub genre : Option String
  pub borrowings_count : ℕ
  pub can_borrow : Bool

-- `DashboardData`
pub record MemberData : Type 0 where
  pub current_borrowings : List Item
  pub history : List Item
  pub top_books : List TopBook
  pub overdue_count : ℕ
  pub due_soon_count : ℕ

-- The effect's answer; a refusal is not caught.
unfoldable pub member_data_answered : Reply MemberData → Option MemberData → Option MemberData
member_data_answered (ok new) old = some new
member_data_answered (failed e) old = old

abbrev figure : String → ℕ → List (String × ℕ)
figure label n = if ltb 0 n then (label, n) ∷ [] else []

-- The three tiles.
unfoldable pub member_tiles : Option MemberData → List (String × ℕ)
member_tiles none = []
member_tiles (some d) =
    figure "Total borrowed" (length d.current_borrowings)
    ++ (figure "OVERDUE" d.overdue_count ++ figure "Due soon (3d)" d.due_soon_count)

-- A piece of the line under a title.
pub data Piece : Type 0 where
  by_author borrowed_on : String → Piece
  dot : Piece

abbrev is_present : Option String → Bool
is_present none = false
is_present (some text) = truthy text

abbrev when_present : Option String → (String → List Piece) → List Piece
when_present none f = []
when_present (some text) f = if truthy text then f text else []

-- The author and the day of borrowing, with a dot between them if both are there.
unfoldable pub subtitle : Item → List Piece
subtitle item =
    when_present item.author (λ author. by_author author ∷ [])
    ++ when_present item.borrowed_at
        (λ at. if is_present item.author then dot ∷ borrowed_on at ∷ [] else borrowed_on at ∷ [])

-- A row of current borrowings: the book, its colour and its badge.
pub record Row : Type 0 where
  pub title : Option String
  pub subtitle : List Piece
  pub highlight : Highlight
  pub badge : DueBadge

unfoldable pub row_of : Zone → ℕ → Item → Row
unfolding subtitle
row_of z now item = record {
  title = item.title;
  subtitle = subtitle item;
  highlight = row_highlight item.due_date now;
  badge = due_badge z item.due_date now;
}

-- The rows; `none` stands for the line "No current borrowings".
unfoldable pub current_rows : Zone → ℕ → Option MemberData → Option (List Row)
current_rows z now none = none
current_rows z now (some d) = elim d.current_borrowings [
  | [] ↦ none
  | item ∷ items ↦ some (row_of z now item ∷ map (row_of z now) items)
]

-- A row of top books: the genre if it is there, and a `BorrowButton` for the id or "N/A".
pub record TopRow : Type 0 where
  pub title : String
  pub author : String
  pub genre : Option String
  pub borrowings_count : ℕ
  pub borrow_button : Option ℕ

abbrev present : Option String → Option String
present none = none
present (some text) = if truthy text then some text else none

unfoldable pub top_row : TopBook → TopRow
top_row b = record {
  title = b.title;
  author = b.author;
  genre = present b.genre;
  borrowings_count = b.borrowings_count;
  borrow_button = if b.can_borrow then some b.id else none;
}

unfoldable pub top_rows : Option MemberData → List TopRow
unfolding top_row
top_rows none = []
top_rows (some d) = map top_row d.top_books

-- A row of the history; `none` for a time stands for "-".
pub record HistoryRow : Type 0 where
  pub time : Option String
  pub title : Option String
  pub status : Option String

unfoldable pub history_row : Item → HistoryRow
history_row item = record {
  time = present item.created_at;
  title = item.title;
  status = item.status;
}

unfoldable pub history_rows : Option MemberData → List HistoryRow
unfolding history_row
history_rows none = []
history_rows (some d) = map history_row d.history

-- `BookResult`, with an undefined `can_borrow` as false.
pub record BookResult : Type 0 where
  pub id : ℕ
  pub title : String
  pub author : String
  pub can_borrow : Bool

-- A row of the quick search: a `BorrowButton` for the id, or "N/A".
pub record FoundRow : Type 0 where
  pub title : String
  pub author : String
  pub borrow_button : Option ℕ

unfoldable pub found_row : BookResult → FoundRow
found_row b = record {
  title = b.title;
  author = b.author;
  borrow_button = if b.can_borrow then some b.id else none;
}

-- The list under the box, which stands while there is a text.
unfoldable pub found_rows : Box BookResult → Option (List FoundRow)
unfolding shown found_row
found_rows b = elim (shown b) [ none ↦ none | some results ↦ some (map found_row results) ]
