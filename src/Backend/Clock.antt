-- ===== src/Backend/Clock.antt =====
-- The status of a borrowing against its dates, as time goes on.
use ror_books_test.Prelude.{
  ℕ, ◌/◌, ◌≡◌, ◌≤◌, ◌<◌, ◌↔◌, String, Option, Bool, true, false, List, [], ◌∷◌, All, All-imp, arith,
}
use ror_books_test.Api.{User}
use ror_books_test.Dates.{day_ms, Status, borrowed, returned, overdue}
use ror_books_test.Backend.Tables.{Book, Borrowing, Database}
use ror_books_test.Backend.Lending.{is_nil, new_borrowing, give_back, mark}
use ror_books_test.Backend.Figures.{is_overdue}
use ror_books_test.Backend.Rows.{IsKept, handle_rows}
use ror_books_test.Backend.Requests.{Rails, handle}
use ror_books_test.Backend.Reachable.{Call, serve}

abbrev pub is_returned : Status → Bool
is_returned returned = true
is_returned borrowed = false
is_returned overdue = false

-- Only a borrowing past its due date is marked overdue.
abbrev pub IsPast : ℕ → Borrowing → Type 0
IsPast today b = is_overdue b.status ≡ true → b.due_date < today

-- And a borrowing has a time of return exactly if it is returned.
abbrev pub IsTidy : ℕ → Borrowing → Type 0
IsTidy today b = IsPast today b × ((is_nil b.returned_at ≡ false) ↔ (is_returned b.status ≡ true))

new_IsTidy :
    (now today : ℕ) (user : User) (book : Book) (db : Database)
    → IsTidy today (new_borrowing now user book db)
unfolding new_borrowing
new_IsTidy now today user book db = ground arith

give_back-IsTidy :
    (blank : String → Bool) (now today : ℕ) (comment : Option String) (b : Borrowing)
    → IsTidy today (give_back blank now comment b)
unfolding give_back
give_back-IsTidy blank now today comment b = ground arith

mark-IsTidy : (today : ℕ) (b : Borrowing) → IsTidy today b → IsTidy today (mark today b)
mark-IsTidy today b h = ground (arith, h)

later-IsTidy : (day today : ℕ) → day ≤ today → (b : Borrowing) → IsTidy day b → IsTidy today b
later-IsTidy day today le b h = (λ k. omega (arith, le, h.0 k), h.1)

kept : (rails : Rails) (now : ℕ) → IsKept rails now (IsTidy (now / day_ms))
kept rails now = record {
  new_row = λ user book db. new_IsTidy now (now / day_ms) user book db;
  given_back = λ comment b h. give_back-IsTidy rails.blank now (now / day_ms) comment b;
  marked = λ b h. mark-IsTidy (now / day_ms) b h;
}

-- The requests come on this day or later, and none before an earlier one's day.
unfoldable pub IsInOrder : ℕ → List Call → Type 0
IsInOrder day [] = Unit
IsInOrder day (c ∷ cs) = (day ≤ c.now / day_ms) × IsInOrder (c.now / day_ms) cs

unfoldable pub last_day : ℕ → List Call → ℕ
last_day day [] = day
last_day day (c ∷ cs) = last_day (c.now / day_ms) cs

module _ (rails : Rails) where
  -- If every borrowing is marked overdue only past its due date, and has a time of return exactly if
  -- it is returned, then so it is after any requests of any users, whose days are in order.
  pub serve-IsTidy :
      (cs : List Call) (day : ℕ) (db : Database)
      → IsInOrder day cs
      → All (IsTidy day) db.borrowings
      → All (IsTidy (last_day day cs)) (serve rails cs db).borrowings
  unfolding serve IsInOrder last_day
  serve-IsTidy [] day db order h = h
  serve-IsTidy (c ∷ cs) day db order h =
      let today = c.now / day_ms in
      let later =
        All-imp (IsTidy day) (IsTidy today) (later-IsTidy day today order.0) db.borrowings h in
      serve-IsTidy cs today (handle rails c.now c.session c.request db).1 order.1
        (handle_rows rails c.now (IsTidy today) (kept rails c.now) c.session c.request db later)
