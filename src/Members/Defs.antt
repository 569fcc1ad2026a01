-- ===== src/Members/Defs.antt =====
-- The librarian's page of members. Its guard for other users is `members_route` of the frame.
use ror_books_test.Prelude.{
  ℕ, String, Option, none, some, Bool, false, not, List, [], ◌∷◌, ◌++◌, length, if◌then◌else◌,
}
use ror_books_test.Api.{Reply, ok, failed, Errors, map_errors, response_errors}
use ror_books_test.Auth.{Outcome, done}
use ror_books_test.Forms.{MemberForm, new_member_errors, has_errors}
use ror_books_test.Paging.{
  Search, no_search, same_search, type_query, click_prev, click_next, Pager, pager, Listing, mount,
  change_key, deliver, update_items, ListReply, replace_row, remove_row,
}

pub record Member : Type 0 where
  pub id : ℕ
  pub email : String
  pub first_name : Option String
  pub last_name : Option String

abbrev pub blank_member : MemberForm
blank_member = record {
  id = none;
  email = some "";
  first_name = some "";
  last_name = some "";
  password = some "";
}

pub record Page : Type 0 where
  pub list : Listing Search Member
  pub creating : Bool
  pub form : MemberForm
  pub create_errors : Errors
  pub alerts : List String

abbrev pub opened : Page
opened = record {
  list = mount no_search;
  creating = false;
  form = blank_member;
  create_errors = [];
  alerts = [];
}

abbrev search_for : Search → Page → Page
search_for key p = record p { list = change_key same_search key p.list }

pub search_box : String → Page → Page
search_box text p = search_for (type_query text p.list.key) p

pub prev_clicked : Page → Page
prev_clicked p =
    let key = p.list.key in
    search_for (record key { page = click_prev (length p.list.items) key.page }) p

pub next_clicked : Page → Page
next_clicked p =
    let key = p.list.key in
    search_for (record key { page = click_next (length p.list.items) key.page }) p

-- `load` from the answer on.
pub members_answered : ℕ → ListReply Member → Page → Page
members_answered i reply p = record p { list = deliver i reply p.list }

pub toggle_creating : Page → Page
toggle_creating p = record p { creating = not p.creating }

pub close_creating : Page → Page
close_creating p = record p { creating = false }

pub edit_new_member : MemberForm → Page → Page
edit_new_member form p = record p { form = form }

abbrev alert : String → Page → Page
alert text p = record p { alerts = p.alerts ++ text ∷ [] }

-- `onCreate` up to its request: the page, and the member that is sent.
unfoldable pub create_clicked : Page → Page × Option MemberForm
create_clicked p =
    let errs = new_member_errors p.form in
    (record p { create_errors = errs }, if has_errors errs then none else some p.form)

abbrev create_failed : Option Errors → Page → Page
create_failed none p = alert "Failed to create" p
create_failed (some errs) p = record p { create_errors = errs }

-- `onCreate` from the answer on.
unfoldable pub create_answered : Reply (Option Member) → Page → Page
create_answered (ok (some m)) p = record p {
  list = update_items (λ prev. m ∷ prev) p.list;
  creating = false;
  form = blank_member;
  create_errors = [];
}
create_answered (ok none) p = alert "Failed to create member: Invalid response" p
create_answered (failed e) p =
    create_failed (elim (response_errors e) [ none ↦ none | some errs ↦ some (map_errors errs) ]) p

-- `onUpdate` from the answer on. It catches every error itself, so it always returns.
unfoldable pub update_answered : ℕ → Reply (Option Member) → Page → Page × Outcome (Unit {0})
update_answered id (ok (some m)) p =
    (record p { list = update_items (replace_row (λ x. x.id) id m) p.list }, done tt)
update_answered id (ok none) p = (alert "Failed to update member: Invalid response" p, done tt)
update_answered id (failed e) p = (alert "Failed to update member" p, done tt)

-- `onDelete` up to its request, by the answer to `confirm`: the id that is sent.
pub delete_clicked : Bool → ℕ → Option ℕ
delete_clicked confirmed id = if confirmed then some id else none

-- `onDelete` from the answer on.
unfoldable pub delete_answered : ℕ → Reply (Unit {0}) → Page → Page
delete_answered id (ok _) p = record p { list = update_items (remove_row (λ x. x.id) id) p.list }
delete_answered id (failed e) p = alert "Failed to delete member" p

-- What stands on the page besides its inputs.
pub record View : Type 0 where
  pub new_button : String
  pub modal_open : Bool
  pub rows : List Member
  pub pager : Option Pager

unfoldable pub view : Page → View
view p = record {
  new_button = if p.creating then "Cancel" else "New Member";
  modal_open = p.creating;
  rows = p.list.items;
  pager = pager p.list.key.page (length p.list.items);
}
