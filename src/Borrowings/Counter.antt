-- ===== src/Borrowings/Counter.antt =====
-- The librarian's page: the list, and the dialog in which a return is confirmed.
use Prim.Native.String
use ror_books_test.Prelude.{
  ℕ, String, Option, none, some, Bool, true, false, ◌&&◌, ◌||◌, List, [], ◌∷◌, ◌++◌, ◌==◌, str_eq,
  truthy, trim, if◌then◌else◌, length, any, ltb, ◌-◌,
}
use ror_books_test.Api.{Reply, ok, failed, or_else}
use ror_books_test.Dates.{Status, borrowed, returned, overdue}
use ror_books_test.Paging.{Listing, ListReply, mount, change_key, deliver, reload, Pager, pager}
use ror_books_test.Borrowings.Query.{
  Direction, asc, desc, StatusFilter, all, only, Filters, initial, is_borrowed_at, or_undefined,
}

pub record Person : Type 0 where
  pub email : String
  pub first_name : Option String
  pub last_name : Option String

pub record Borrowing : Type 0 where
  pub id : ℕ
  pub title : String
  pub author : String
  pub user : Option Person
  pub borrowed_at : ℕ
  pub due_date : ℕ
  pub status : Status

abbrev is_present : Option String → Bool
is_present none = false
is_present (some text) = truthy text

-- The member's cell: the trimmed name, or the email of a member without one.
unfoldable pub member_cell : Option Person → String
member_cell none = "-"
member_cell (some u) =
    if is_present u.first_name || is_present u.last_name
    then trim (String.◌++◌ (or_else u.first_name "") (String.◌++◌ " " (or_else u.last_name "")))
    else u.email

-- The button "Return" stands in the rows of books that are borrowed.
unfoldable pub has_return : Borrowing → Bool
has_return b = elim b.status [ borrowed ↦ true | returned ↦ false | overdue ↦ false ]

abbrev status_number : StatusFilter → ℕ
status_number all = 0
status_number (only borrowed) = 1
status_number (only returned) = 2
status_number (only overdue) = 3

abbrev is_asc : Direction → Bool
is_asc asc = true
is_asc desc = false

abbrev same_bool : Bool → Bool → Bool
same_bool true b = b
same_bool false true = false
same_bool false false = true

-- Whether the effect sees no change of its dependencies.
abbrev pub same_filters : Filters → Filters → Bool
same_filters a b =
    a.page == b.page
    && same_bool (is_borrowed_at a.sort) (is_borrowed_at b.sort)
    && status_number a.status == status_number b.status
    && same_bool (is_asc a.direction) (is_asc b.direction)
    && str_eq a.q b.q
    && str_eq a.date b.date

-- `closing` holds the places, among the requests of the list in flight, of those that a return waits
-- for.
pub record Desk : Type 0 where
  pub list : Listing Filters Borrowing
  pub returning_id : Option ℕ
  pub return_comment : String
  pub closing : List ℕ
  pub alerts : List String

abbrev pub opened : Option String → Desk
opened status_param = record {
  list = mount (initial status_param);
  returning_id = none;
  return_comment = "";
  closing = [];
  alerts = [];
}

-- A control changes the filters.
unfoldable pub change_filters : (Filters → Filters) → Desk → Desk
change_filters change d = record d { list = change_key same_filters (change d.list.key) d.list }

unfoldable pub return_clicked : ℕ → Desk → Desk
return_clicked id d = record d { returning_id = some id; return_comment = "" }

unfoldable pub comment_typed : String → Desk → Desk
comment_typed text d = record d { return_comment = text }

-- "Cancel", the backdrop, and the end of "Confirm Return".
unfoldable pub close_return : Desk → Desk
close_return d = record d { returning_id = none; return_comment = "" }

-- The places once the request at place `i` is gone.
abbrev places_without : ℕ → List ℕ → List ℕ
places_without i [] = []
places_without i (k ∷ ks) =
    let rest = places_without i ks in if k == i then rest else (if ltb i k then k - 1 else k) ∷ rest

-- The request of `load` at place `i` is answered; a return that waits for it ends.
unfoldable pub borrowings_answered : ℕ → ListReply Borrowing → Desk → Desk
unfolding close_return
borrowings_answered i reply d =
    let after = record d { list = deliver i reply d.list; closing = places_without i d.closing } in
    if any (λ k. k == i) d.closing then close_return after else after

-- A return that is under way: what is sent, and the filters that its handler was made for.
pub record Return : Type 0 where
  pub id : ℕ
  pub comment : Option String
  pub filters : Filters

-- "Confirm Return" up to the request of `onReturn`.
unfoldable pub confirm_clicked : Desk → Desk × Option Return
unfolding close_return
confirm_clicked d = elim d.returning_id [
  | none ↦ (close_return d, none)
  | some id ↦
      (d, some (record { id = id; comment = or_undefined d.return_comment; filters = d.list.key }))
]

-- `onReturn` from the answer on: the list is loaded for the filters of the click, and the handler
-- waits for that; a refusal closes the dialog at once.
unfoldable pub return_answered : Return → Reply (Unit {0}) → Desk → Desk
unfolding close_return
return_answered r (ok _) d = record d {
  list = reload r.filters d.list;
  closing = d.closing ++ length d.list.in_flight ∷ [];
}
return_answered r (failed e) d =
    close_return (record d { alerts = d.alerts ++ "Failed to return book" ∷ [] })

-- What stands on the page besides its inputs; the column of members is the librarian's.
pub record View : Type 0 where
  pub rows : List Borrowing
  pub modal_open : Bool
  pub pager : Option Pager

unfoldable pub view : Desk → View
view d = record {
  rows = d.list.items;
  modal_open = elim d.returning_id [ none ↦ false | some id ↦ true ];
  pager = pager d.list.key.page (length d.list.items);
}
