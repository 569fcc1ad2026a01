-- ===== src/Tests/Lists.antt =====
-- The pager, the lists that are fetched, the filters, and the returns.
use ror_books_test.Prelude.{
  ℕ, arith, ◌≡◌, ◌≤◌, refl, none, some, Bool, true, false, List, [], ◌∷◌, ◌==◌,
}
use ror_books_test.Api.{ok, failed}
use ror_books_test.Paging
use ror_books_test.Paging.{Listing, ListReply, shown_items, page_size, click_next, click_prev}
use ror_books_test.Dates.{borrowed}
use ror_books_test.Borrowings
use ror_books_test.Borrowings.{
  Filters, Desk, Borrowing, Return, initial, due_header, borrowed_header, clear, clear_stands,
  params, borrowed_aria, due_aria, asc, desc, borrowed_at, due_date,
}
use ror_books_test.Borrowings.Headers
use ror_books_test.Borrowings.Returns
use ror_books_test.Tests.Data.{refusal}

abbrev nat_eq : ℕ → ℕ → Bool
nat_eq a b = a == b

-- The server holds under each number that number alone, and fails on 9.
abbrev serve : ℕ → ListReply ℕ
serve n = elim (n == 9) [ true ↦ failed refusal | false ↦ ok (some (n ∷ [])) ]

abbrev typing : List (Paging.Event ℕ)
typing = Paging.change 1 ∷ Paging.answer ∷ Paging.change 2 ∷ Paging.change 2 ∷ []

drain-run_example :
    let l = Paging.run nat_eq serve typing (Paging.mount 0) in
    let settled = Paging.drain nat_eq serve l.in_flight l in
    (settled.in_flight ≡ []) × (settled.key ≡ l.key) × (settled.items ≡ shown_items (serve l.key))
drain-run_example = Paging.drain-run nat_eq serve 0 typing

abbrev controls : List Headers.Control
controls =
    Headers.due_clicked ∷ Headers.next_clicked 25 ∷ Headers.due_clicked ∷ Headers.type_q "emma" ∷ []

run-params_example :
    let f = Headers.run controls (initial (some "overdue")) in
    (1 ≤ (params f).page) × Headers.IsMarked f
run-params_example = Headers.run-params (some "overdue") controls

abbrev start : Filters
start = record {
  page = 1;
  sort = borrowed_at;
  status = Borrowings.all;
  direction = desc;
  q = "emma";
  date = "";
}

abbrev loan : Borrowing
loan = record {
  id = 5;
  title = "Emma";
  author = "Austen";
  user = none;
  borrowed_at = 0;
  due_date = 0;
  status = borrowed;
}

abbrev desk : Desk
desk = record {
  list = record { key = start; items = loan ∷ []; in_flight = start ∷ start ∷ [] };
  returning_id = some 5;
  return_comment = "";
  closing = [];
  alerts = [];
}

abbrev the_return : Return
the_return = record { id = 5; comment = none; filters = start }

abbrev all_returned : Filters → ListReply Borrowing
all_returned f = ok (some [])

confirmed : (Borrowings.confirm_clicked desk).1 ≡ some the_return
unfolding Borrowings.confirm_clicked
confirmed = refl

-- The answers of the two requests before that of the return, the second first.
abbrev earlier : List (ℕ × ListReply Borrowing)
earlier = (1, ok (some (loan ∷ []))) ∷ (0, ok none) ∷ []

return_accepted_example :
    let waiting =
      Returns.answer_all earlier
        (Borrowings.return_answered the_return (ok tt) (Borrowings.confirm_clicked desk).0) in
    let after = Borrowings.borrowings_answered 0 (all_returned start) waiting in
    ((Borrowings.view waiting).modal_open ≡ true)
    × (after.list.key ≡ start)
    × (after.list.items ≡ shown_items (all_returned start))
    × ((Borrowings.view after).modal_open ≡ false)
    × (after.return_comment ≡ "")
    × (after.alerts ≡ [])
unfolding Returns.AreOlder
return_accepted_example =
    Returns.return_accepted all_returned desk the_return earlier confirmed refl
      (omega arith, (omega arith, tt))
