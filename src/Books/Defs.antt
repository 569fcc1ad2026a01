-- ===== src/Books/Defs.antt =====
-- The librarian's page of books: search, pager, the form for a new book, and the rows.
use ror_books_test.Prelude.{
  ℕ, String, Option, none, some, Bool, true, false, not, ◌&&◌, List, [], ◌∷◌, ◌++◌, length,
  if◌then◌else◌,
}
use ror_books_test.Api.{
  Reply, ok, failed, Errors, map_errors, response_errors, User, librarian, member,
}
use ror_books_test.Forms.{Number, whole, BookForm, book_errors, has_errors}
use ror_books_test.Paging.{
  Search, no_search, same_search, type_query, click_prev, click_next, Pager, pager, Listing, mount,
  change_key, deliver, update_items, ListReply, replace_row, remove_row,
}

pub record Book : Type 0 where
  pub id : ℕ
  pub title : String
  pub author : String
  pub genre : String
  pub isbn : String
  pub total_copies : Number

abbrev pub blank_book : BookForm
blank_book = record {
  id = none;
  title = some "";
  author = some "";
  genre = some "";
  isbn = some "";
  total_copies = some (whole 1);
}

pub record Page : Type 0 where
  pub list : Listing Search Book
  pub creating : Bool
  pub new_book : BookForm
  pub create_errors : Errors
  pub alerts : List String

abbrev pub opened : Page
opened = record {
  list = mount no_search;
  creating = false;
  new_book = blank_book;
  create_errors = [];
  alerts = [];
}

abbrev search_for : Search → Page → Page
search_for key p = record p { list = change_key same_search key p.list }

pub search_box : String → Page → Page
search_box text p = search_for (type_query text p.list.key) p

pub prev_clicked : Page → Page
prev_clicked p =
    let key = p.list.key in
    search_for (record key { page = click_prev (length p.list.items) key.page }) p

pub next_clicked : Page → Page
next_clicked p =
    let key = p.list.key in
    search_for (record key { page = click_next (length p.list.items) key.page }) p

-- The effect's request at place `i` is answered.
pub books_answered : ℕ → ListReply Book → Page → Page
books_answered i reply p = record p { list = deliver i reply p.list }

pub toggle_creating : Page → Page
toggle_creating p = record p { creating = not p.creating }

pub close_creating : Page → Page
close_creating p = record p { creating = false }

pub edit_new_book : BookForm → Page → Page
edit_new_book form p = record p { new_book = form }

-- "Create", up to the request: the page, and the book that is sent.
unfoldable pub create_clicked : Page → Page × Option BookForm
create_clicked p =
    let errs = book_errors p.new_book in
    (record p { create_errors = errs }, if has_errors errs then none else some p.new_book)

abbrev alert : String → Page → Page
alert text p = record p { alerts = p.alerts ++ text ∷ [] }

abbrev create_failed : Option Errors → Page → Page
create_failed none p = alert "Failed to create" p
create_failed (some errs) p = record p { create_errors = errs }

-- "Create", from the answer on.
unfoldable pub create_answered : Reply (Option Book) → Page → Page
create_answered (ok (some book)) p = record p {
  list = update_items (λ prev. book ∷ prev) p.list;
  creating = false;
  new_book = blank_book;
  create_errors = [];
}
create_answered (ok none) p = alert "Failed to create book: Invalid response" p
create_answered (failed e) p =
    create_failed (elim (response_errors e) [ none ↦ none | some errs ↦ some (map_errors errs) ]) p

-- `onChange` and `onDelete` of a row.
unfoldable pub book_changed : Book → Page → Page
book_changed updated p = record p {
  list = update_items (replace_row (λ b. b.id) updated.id updated) p.list;
}

unfoldable pub book_deleted : ℕ → Page → Page
book_deleted id p = record p { list = update_items (remove_row (λ b. b.id) id) p.list }

abbrev is_librarian : Option User → Bool
is_librarian none = false
is_librarian (some user) = elim user.role [ librarian ↦ true | member ↦ false ]

-- What stands on the page besides its inputs, for the user of the context.
pub record View : Type 0 where
  pub new_button : Option String
  pub modal_open : Bool
  pub rows : List Book
  pub has_editors : Bool
  pub pager : Option Pager

unfoldable pub view : Option User → Page → View
view user p = record {
  new_button =
      if is_librarian user then some (if p.creating then "Cancel" else "New Book") else none;
  modal_open = p.creating && is_librarian user;
  rows = p.list.items;
  has_editors = is_librarian user;
  pager = pager p.list.key.page (length p.list.items);
}
