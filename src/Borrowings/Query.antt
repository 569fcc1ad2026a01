-- ===== src/Borrowings/Query.antt =====
-- The filters, the two sortable headers and the pager, which the two pages share word for word, and
-- the parameters of their request.
use ror_books_test.Prelude.{
  ℕ, String, Option, none, some, Bool, true, false, ◌||◌, str_eq, truthy, if◌then◌else◌,
}
use ror_books_test.Dates.{Status, borrowed, returned, overdue}
use ror_books_test.Paging.{click_prev, click_next}

pub data Sort : Type 0 where
  borrowed_at due_date : Sort

pub data Direction : Type 0 where
  asc desc : Direction

pub data StatusFilter : Type 0 where
  all : StatusFilter
  only : Status → StatusFilter

-- The states `page`, `sort`, `status`, `direction`, `q` and `date`, on which `load` depends.
pub record Filters : Type 0 where
  pub page : ℕ
  pub sort : Sort
  pub status : StatusFilter
  pub direction : Direction
  pub q : String
  pub date : String

-- The first value of `status`, by the parameter `status` of the URL.
unfoldable pub initial_status : Option String → StatusFilter
initial_status none = all
initial_status (some text) =
    if str_eq text "borrowed"
    then only borrowed
    else if str_eq text "returned"
    then only returned
    else if str_eq text "overdue"
    then only overdue
    else all

unfoldable pub initial : Option String → Filters
unfolding initial_status
initial status_param = record {
  page = 1;
  sort = borrowed_at;
  status = initial_status status_param;
  direction = desc;
  q = "";
  date = "";
}

unfoldable pub set_q : String → Filters → Filters
set_q text f = record f { q = text; page = 1 }

unfoldable pub set_date : String → Filters → Filters
set_date text f = record f { date = text; page = 1 }

unfoldable pub clear : Filters → Filters
clear f = record f { q = ""; date = ""; page = 1 }

-- The button "Clear" stands while `q || date`.
abbrev pub clear_stands : Filters → Bool
clear_stands f = truthy f.q || truthy f.date

unfoldable pub set_status : StatusFilter → Filters → Filters
set_status status f = record f { status = status; page = 1 }

abbrev pub flip : Direction → Direction
flip asc = desc
flip desc = asc

abbrev pub is_borrowed_at : Sort → Bool
is_borrowed_at borrowed_at = true
is_borrowed_at due_date = false

abbrev pub is_due_date : Sort → Bool
is_due_date borrowed_at = false
is_due_date due_date = true

-- A click on the header "Borrowed".
unfoldable pub borrowed_header : Filters → Filters
borrowed_header f =
    if is_borrowed_at f.sort
    then record f { direction = flip f.direction; page = 1 }
    else record f { sort = borrowed_at; direction = desc; page = 1 }

-- A click on the header "Due".
unfoldable pub due_header : Filters → Filters
due_header f =
    if is_due_date f.sort
    then record f { direction = flip f.direction; page = 1 }
    else record f { sort = due_date; direction = asc; page = 1 }

-- `aria-sort` of the two headers, which is also when and where the arrow stands.
abbrev pub borrowed_aria : Filters → Option Direction
borrowed_aria f = if is_borrowed_at f.sort then some f.direction else none

abbrev pub due_aria : Filters → Option Direction
due_aria f = if is_due_date f.sort then some f.direction else none

unfoldable pub prev : ℕ → Filters → Filters
prev rows f = record f { page = click_prev rows f.page }

unfoldable pub next : ℕ → Filters → Filters
next rows f = record f { page = click_next rows f.page }

-- The `params` of the request: `q || undefined` and `date || undefined`.
pub record Params : Type 0 where
  pub page : ℕ
  pub sort : Sort
  pub status : StatusFilter
  pub direction : Direction
  pub q : Option String
  pub date : Option String

abbrev pub or_undefined : String → Option String
or_undefined text = if truthy text then some text else none

unfoldable pub params : Filters → Params
params f = record {
  page = f.page;
  sort = f.sort;
  status = f.status;
  direction = f.direction;
  q = or_undefined f.q;
  date = or_undefined f.date;
}
