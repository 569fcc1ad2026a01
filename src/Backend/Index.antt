-- ===== src/Backend/Index.antt =====
-- `BorrowingsController#index`.
use ror_books_test.Prelude.{
  ℕ, ◌/◌, ◌==◌, ltb, leb, String, str_eq, Option, none, some, Bool, true, false, ◌&&◌, ◌||◌, List,
  keep, if◌then◌else◌,
}
use ror_books_test.Prelude.Sorting.{sort_by}
use ror_books_test.Api.{User}
use ror_books_test.Dates.{day_ms, Status, borrowed, returned, overdue}
use ror_books_test.Backend.Tables.{Borrowing, Database, is_librarian}
use ror_books_test.Backend.Listing.{page_rows}
use ror_books_test.Backend.Search.{Queries, text_or_empty, text_search}

-- The parameters of the URL, with `none` for one that is not sent.
pub record IndexParams : Type 0 where
  pub status : Option String
  pub q : Option String
  pub date : Option String
  pub sort : Option String
  pub direction : Option String
  pub page : ℕ

-- `Borrowing.statuses`
unfoldable pub status_of : String → Option Status
status_of text =
    if str_eq text "borrowed"
    then some borrowed
    else if str_eq text "returned"
    then some returned
    else if str_eq text "overdue"
    then some overdue
    else none

abbrev pub same_status : Status → Status → Bool
same_status borrowed borrowed = true
same_status returned returned = true
same_status overdue overdue = true
same_status a b = false

-- A direction of the order.
pub data Dir : Type 0 where
  asc desc : Dir

-- The column and the direction that the list is ordered by.
pub record Ordering : Type 0 where
  pub by_due_date : Bool
  pub dir : Dir

abbrev is_text : Option String → String → Bool
is_text none text = false
is_text (some sent) text = str_eq sent text

abbrev dir_of : String → Dir → Dir
dir_of text default_dir =
    if str_eq text "asc" then asc else if str_eq text "desc" then desc else default_dir

unfoldable pub ordering_of : Queries → IndexParams → Ordering
ordering_of rb p =
    let direction = rb.downcase (text_or_empty p.direction) in
    if is_text p.sort "due_date"
    then record { by_due_date = true; dir = dir_of direction asc }
    else record { by_due_date = false; dir = dir_of direction desc }

-- `order(column: dir, id: dir)`
abbrev pub key_le : Bool → Borrowing → Borrowing → Bool
key_le by_due_date a b =
    let x = if by_due_date then a.due_date else a.borrowed_at in
    let y = if by_due_date then b.due_date else b.borrowed_at in
    ltb x y || (x == y && leb a.id b.id)

unfoldable pub row_le : Ordering → Borrowing → Borrowing → Bool
row_le o a b = elim o.dir [ asc ↦ key_le o.by_due_date a b | desc ↦ key_le o.by_due_date b a ]

module _ (rb : Queries) where
  abbrev pub present : Option String → Option String
  present none = none
  present (some text) = if rb.blank text then none else some text

  abbrev pub status_filter : Option Status → Borrowing → Bool
  status_filter none b = true
  status_filter (some status) b = same_status b.status status

  abbrev pub status_wanted : Option String → Option Status
  status_wanted none = none
  status_wanted (some text) = if str_eq text "all" then none else status_of text

  abbrev pub search_filter : String → Database → Borrowing → Bool
  search_filter q db b = if rb.blank q then true else text_search rb q db b

  abbrev pub day_filter : Option ℕ → Borrowing → Bool
  day_filter none b = true
  day_filter (some d) b = b.borrowed_at / day_ms == d

  abbrev pub day_wanted : Option String → Option ℕ
  day_wanted none = none
  day_wanted (some text) = rb.parse_date text

  abbrev pub own_filter : User → Borrowing → Bool
  own_filter user b = is_librarian user || b.user_id == user.id

  -- Whether a row is listed at all.
  unfoldable pub is_listed : User → IndexParams → Database → Borrowing → Bool
  unfolding status_of
  is_listed user p db b =
      own_filter user b
      && (status_filter (status_wanted (present p.status)) b
          && (search_filter (rb.strip (text_or_empty p.q)) db b
              && day_filter (day_wanted (present p.date)) b))

  -- All the rows that the pages are cut from.
  unfoldable pub listed_rows : User → IndexParams → Database → List Borrowing
  unfolding is_listed ordering_of row_le sort_by
  listed_rows user p db =
      sort_by (row_le (ordering_of rb p)) (keep (is_listed user p db) db.borrowings)

  unfoldable pub index : User → IndexParams → Database → List Borrowing
  unfolding listed_rows page_rows
  index user p db = page_rows p.page (listed_rows user p db)
