-- ===== src/Backend/Lending.antt =====
-- app/models/book.rb, app/models/borrowing.rb, app/services/overdue_service.rb and the actions of
-- app/controllers/borrowings_controller.rb that write. The time is an argument; the time zone is UTC.
use ror_books_test.Prelude.{
  ℕ, ◌+◌, ◌-◌, ◌*◌, ◌/◌, ◌==◌, ltb, leb, String, Option, none, some, Bool, true, false, not, ◌&&◌,
  List, [], ◌∷◌, ◌++◌, map, any, count, keep, if◌then◌else◌,
}
use ror_books_test.Api.{User}
use ror_books_test.Dates.{ℤ, pos, negsuc, is_at_most, day_ms, Status, borrowed, returned, overdue}
use ror_books_test.Backend.Tables.{
  Book, Borrowing, Database, Response, rendered, forbidden, not_found, record_invalid, is_librarian,
  is_member, find_book, find_borrowing,
}

abbrev pub is_borrowed : Status → Bool
is_borrowed borrowed = true
is_borrowed returned = false
is_borrowed overdue = false

abbrev pub is_nil : Option ℕ → Bool
is_nil none = true
is_nil (some t) = false

-- `Borrowing.active`
abbrev pub is_active : Borrowing → Bool
is_active b = is_borrowed b.status && is_nil b.returned_at

abbrev pub active_on : ℕ → Borrowing → Bool
active_on book_id b = b.book_id == book_id && is_active b

abbrev pub active_for : ℕ → ℕ → Borrowing → Bool
active_for user_id book_id b = b.user_id == user_id && active_on book_id b

abbrev pub active_count : ℕ → Database → ℕ
active_count book_id db = count (active_on book_id) db.borrowings

abbrev pub minus : ℕ → ℕ → ℤ
minus a b = if leb b a then pos (a - b) else negsuc (b - a - 1)

-- `available_copies`
unfoldable pub available_copies : Database → Book → ℤ
available_copies db book = minus book.total_copies (active_count book.id db)

-- The column `can_borrow` of `with_can_borrow_for`.
unfoldable pub can_borrow : Option User → Database → Book → Bool
can_borrow none db book = false
can_borrow (some user) db book =
    is_member user
    && (ltb (active_count book.id db) book.total_copies
        && not (any (active_for user.id book.id) db.borrowings))

abbrev pub already_held : String
already_held = "User already has an active borrowing for this book"

abbrev pub none_left : String
none_left = "No available copies for this book"

abbrev pub message_if : Bool → String → List String
message_if true text = text ∷ []
message_if false text = []

-- The two validations of a new borrowing, in their order.
unfoldable pub borrow_errors : Database → User → Book → List String
unfolding available_copies
borrow_errors db user book =
    message_if (any (active_for user.id book.id) db.borrowings) already_held
    ++ message_if (is_at_most (available_copies db book) 0) none_left

-- `set_defaults`
unfoldable pub new_borrowing : ℕ → User → Book → Database → Borrowing
new_borrowing now user book db = record {
  id = db.next_borrowing;
  user_id = user.id;
  book_id = book.id;
  borrowed_at = now;
  due_date = (now + 14 * day_ms) / day_ms;
  returned_at = none;
  status = borrowed;
  return_comment = none;
}

unfoldable pub insert : Borrowing → Database → Database
insert row db = record db {
  borrowings = db.borrowings ++ row ∷ [];
  next_borrowing = db.next_borrowing + 1;
}

-- `Borrowing.create!`, by the errors of the validations: it raises, or it inserts.
unfoldable pub create_or_raise :
    List String → ℕ → User → Book → Database → Response Borrowing × Database
unfolding new_borrowing insert record_invalid
create_or_raise [] now user book db =
    let row = new_borrowing now user book db in (rendered row, insert row db)
create_or_raise (m ∷ ms) now user book db = (record_invalid (m ∷ ms), db)

-- `BorrowingsController#create`
unfoldable pub create_borrowing : ℕ → User → ℕ → Database → Response Borrowing × Database
unfolding create_or_raise borrow_errors
create_borrowing now user book_id db = elim (find_book book_id db) [
  | none ↦ (not_found, db)
  | some book ↦ create_or_raise (borrow_errors db user book) now user book db
]

-- `comment.presence`; what is blank is up to Active Support.
abbrev presence : (String → Bool) → Option String → Option String
presence blank none = none
presence blank (some text) = if blank text then none else some text

-- `return!`
unfoldable pub give_back : (String → Bool) → ℕ → Option String → Borrowing → Borrowing
give_back blank now comment b = record b {
  status = returned;
  returned_at = some now;
  return_comment = presence blank comment;
}

-- `BorrowingsController#return_book`: the row is looked up before the role is tested.
unfoldable pub return_book :
    (String → Bool) → ℕ → User → ℕ → Option String → Database → Response Borrowing × Database
unfolding give_back
return_book blank now user id comment db = elim (find_borrowing id db) [
  | none ↦ (not_found, db)
  | some row ↦
      if is_librarian user
      then (
        rendered (give_back blank now comment row),
        record db {
          borrowings =
              map (λ b. if b.id == id then give_back blank now comment b else b) db.borrowings;
        },
      )
      else (forbidden, db)
]

-- The condition of the relation `overdue_borrowings`.
abbrev pub is_late : ℕ → Borrowing → Bool
is_late today b = is_borrowed b.status && ltb b.due_date today

abbrev pub mark : ℕ → Borrowing → Borrowing
mark today b = if is_late today b then record b { status = overdue } else b

-- What the service has done: the count, and the rows that were notified of.
pub record Marking : Type 0 where
  pub count : ℕ
  pub notified : List Borrowing

-- `OverdueService.mark_overdue_books`. The relation is not loaded by `empty?` and `update_all`, so
-- `each` reads the rows that fit its condition after the update.
unfoldable pub mark_overdue_books : ℕ → Database → Marking × Database
mark_overdue_books now db =
    let today = now / day_ms in
    let updated_count = count (is_late today) db.borrowings in
    let after = record db { borrowings = map (mark today) db.borrowings } in
    if updated_count == 0
    then (record { count = 0; notified = [] }, db)
    else (record { count = updated_count; notified = keep (is_late today) after.borrowings }, after)

-- `DashboardsController#mark_overdue`
unfoldable pub mark_overdue : ℕ → User → Database → Response Marking × Database
unfolding mark_overdue_books
mark_overdue now user db =
    let (result, after) = mark_overdue_books now db in
    if is_librarian user then (rendered result, after) else (forbidden, db)
