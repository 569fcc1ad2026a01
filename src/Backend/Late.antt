-- ===== src/Backend/Late.antt =====
-- The overdue check of app/services/overdue_service.rb.
use ror_books_test.Prelude.{
  ℕ, ◌+◌, ◌/◌, ◌≡◌, refl, ap, ◌==◌, Bool, false, ◌&&◌, Bool-cases, List, [], ◌∷◌, map, count, keep,
  arith, inl, inr,
}
use ror_books_test.Dates.{day_ms}
use ror_books_test.Backend.Tables.{Borrowing, Database}
use ror_books_test.Backend.Lending.{
  mark_overdue_books, mark, is_late, active_on, active_count, is_nil,
}

-- A copy that has not come back, whatever its status.
abbrev pub is_out : ℕ → Borrowing → Bool
is_out book_id b = b.book_id == book_id && is_nil b.returned_at

mark_cases :
    (today : ℕ) (b : Borrowing)
    → (is_late today (mark today b) ≡ false) × (mark today (mark today b) ≡ mark today b)
mark_cases today b = ground arith

keep-mark : (today : ℕ) (bs : List Borrowing) → keep (is_late today) (map (mark today) bs) ≡ []
keep-mark today [] = refl
keep-mark today (b ∷ bs) = rw (keep, (mark_cases today b).0) (keep-mark today bs)

count-mark : (today : ℕ) (bs : List Borrowing) → count (is_late today) (map (mark today) bs) ≡ 0
count-mark today [] = refl
count-mark today (b ∷ bs) = rw (count, (mark_cases today b).0) (count-mark today bs)

-- Nobody is notified of an overdue book: by the time the rows are read for it, none fits.
pub nobody_notified : (now : ℕ) (db : Database) → (mark_overdue_books now db).0.notified ≡ []
unfolding mark_overdue_books
nobody_notified now db = ground (arith, keep-mark (now / day_ms) db.borrowings)

map-mark :
    (today : ℕ) (bs : List Borrowing) → count (is_late today) bs ≡ 0 → map (mark today) bs ≡ bs
map-mark today [] h = refl
map-mark today (b ∷ bs) h = elim (Bool-cases (is_late today b)) [
  | inl late ↦ absurd (ground (arith, late, h))
  | inr early ↦ rw early (ap (λ rest. b ∷ rest) (map-mark today bs (ground (arith, early, h))))
]

-- The outcome in one piece, whether or not a row is late.
pub mark_overdue_books_lem :
    (now : ℕ) (db : Database)
    → ((mark_overdue_books now db).0.count ≡ count (is_late (now / day_ms)) db.borrowings)
      × ((mark_overdue_books now db).1
          ≡ record db { borrowings = map (mark (now / day_ms)) db.borrowings })
unfolding mark_overdue_books
mark_overdue_books_lem now db =
    let today = now / day_ms in
    elim (Bool-cases (count (is_late today) db.borrowings == 0)) [
      | inl none_late ↦
          let zero_late : count (is_late today) db.borrowings ≡ 0 = ground (arith, none_late) in
          rw (none_late, map-mark today db.borrowings zero_late, zero_late) (refl, refl)
      | inr some_late ↦ rw some_late (refl, refl)
    ]

quiet :
    (now : ℕ) (db : Database)
    → count (is_late (now / day_ms)) db.borrowings ≡ 0
    → ((mark_overdue_books now db).0.count ≡ 0) × ((mark_overdue_books now db).1 ≡ db)
unfolding mark_overdue_books
quiet now db h = ground (arith, h)

-- The check is done once: right after it, a second one on the same day counts nothing and changes
-- nothing.
pub mark_overdue_books_idem :
    (now : ℕ) (db : Database)
    → let after = (mark_overdue_books now db).1 in
      ((mark_overdue_books now after).0.count ≡ 0) × ((mark_overdue_books now after).1 ≡ after)
mark_overdue_books_idem now db =
    quiet now (mark_overdue_books now db).1
      (rw (mark_overdue_books_lem now db).1 (count-mark (now / day_ms) db.borrowings))

abbrev pub late_on : ℕ → ℕ → Borrowing → Bool
late_on today book_id b = is_late today b && active_on book_id b

count-active-mark :
    (today book_id : ℕ) (bs : List Borrowing)
    → count (active_on book_id) (map (mark today) bs) + count (late_on today book_id) bs
      ≡ count (active_on book_id) bs
count-active-mark today book_id [] = refl
count-active-mark today book_id (b ∷ bs) = ground (arith, count-active-mark today book_id bs)

count-out-mark :
    (today book_id : ℕ) (bs : List Borrowing)
    → count (is_out book_id) (map (mark today) bs) ≡ count (is_out book_id) bs
count-out-mark today book_id [] = refl
count-out-mark today book_id (b ∷ bs) = ground (arith, count-out-mark today book_id bs)

-- The check frees the copies of late borrowings: of each book as many copies more count as
-- available as borrowings of it were late, and yet as many are out as before.
pub marking_frees :
    (now book_id : ℕ) (db : Database)
    → let after = (mark_overdue_books now db).1 in
      (active_count book_id after + count (late_on (now / day_ms) book_id) db.borrowings
        ≡ active_count book_id db)
      × (count (is_out book_id) after.borrowings ≡ count (is_out book_id) db.borrowings)
marking_frees now book_id db =
    let today = now / day_ms in
    rw (mark_overdue_books_lem now db).1
      (count-active-mark today book_id db.borrowings, count-out-mark today book_id db.borrowings)
