-- ===== src/Joint/Filters.antt =====
-- The filters of the borrowing pages, as the server reads them.
use ror_books_test.Prelude.{ℕ, ◌≤◌, ◌≡◌, refl, String, Option, none, some, false, arith}
use ror_books_test.Dates.{Status, borrowed, returned, overdue}
use ror_books_test.Borrowings.{
  Sort, borrowed_at, due_date, Direction, StatusFilter, all, only, Params, params, Filters,
  is_due_date,
}
use ror_books_test.Borrowings as Borrowings
use ror_books_test.Backend.{
  IndexParams, Queries, Ordering, Dir, ordering_of, status_of, status_wanted, present, page_number,
}
use ror_books_test.Backend as Backend

-- The values of the states are the texts of the URL.
abbrev sort_text : Sort → String
sort_text borrowed_at = "borrowed_at"
sort_text due_date = "due_date"

abbrev direction_text : Direction → String
direction_text Borrowings.asc = "asc"
direction_text Borrowings.desc = "desc"

abbrev status_text : StatusFilter → String
status_text all = "all"
status_text (only borrowed) = "borrowed"
status_text (only returned) = "returned"
status_text (only overdue) = "overdue"

unfoldable pub wire : Params → IndexParams
wire p = record {
  status = some (status_text p.status);
  q = p.q;
  date = p.date;
  sort = some (sort_text p.sort);
  direction = some (direction_text p.direction);
  page = p.page;
}

-- What is meant by the states.
abbrev pub meant_dir : Direction → Dir
meant_dir Borrowings.asc = Backend.asc
meant_dir Borrowings.desc = Backend.desc

abbrev pub meant_status : StatusFilter → Option Status
meant_status all = none
meant_status (only status) = some status

-- What Ruby makes of the words that are sent.
pub record IsRuby (rb : Queries) : Type 0 where
  pub asc_is : rb.downcase "asc" ≡ "asc"
  pub desc_is : rb.downcase "desc" ≡ "desc"
  pub all_is : rb.blank "all" ≡ false
  pub borrowed_is : rb.blank "borrowed" ≡ false
  pub returned_is : rb.blank "returned" ≡ false
  pub overdue_is : rb.blank "overdue" ≡ false

module _ (rb : Queries) (ruby : IsRuby rb) where
  ordering_read :
      (page : ℕ) (sort : Sort) (status : StatusFilter) (direction : Direction)
      (q date : Option String)
      → ordering_of rb (
          wire (record {
            page = page;
            sort = sort;
            status = status;
            direction = direction;
            q = q;
            date = date;
          }))
        ≡ record { by_due_date = is_due_date sort; dir = meant_dir direction }
  unfolding ordering_of wire
  ordering_read page borrowed_at status Borrowings.asc q date = rw ruby.asc_is refl
  ordering_read page borrowed_at status Borrowings.desc q date = rw ruby.desc_is refl
  ordering_read page due_date status Borrowings.asc q date = rw ruby.asc_is refl
  ordering_read page due_date status Borrowings.desc q date = rw ruby.desc_is refl

  status_read :
      (status : StatusFilter)
      → status_wanted rb (present rb (some (status_text status))) ≡ meant_status status
  unfolding status_of
  status_read all = rw ruby.all_is refl
  status_read (only borrowed) = rw ruby.borrowed_is refl
  status_read (only returned) = rw ruby.returned_is refl
  status_read (only overdue) = rw ruby.overdue_is refl

  -- The server reads from the request of a borrowing page the column, the direction, the status and
  -- the page that the page's states mean.
  pub wire-params :
      (f : Filters)
      → 1 ≤ f.page
      → let read = wire (params f) in
        (ordering_of rb read
          ≡ record { by_due_date = is_due_date f.sort; dir = meant_dir f.direction })
        × (status_wanted rb (present rb read.status) ≡ meant_status f.status)
        × (page_number read.page ≡ f.page)
  unfolding params wire
  wire-params f h =
      (ordering_read _ f.sort f.status f.direction _ _, status_read f.status, ground (arith, h))
