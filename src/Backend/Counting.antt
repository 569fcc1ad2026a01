-- ===== src/Backend/Counting.antt =====
-- What an overdue check does to the librarian's figures.
use ror_books_test.Prelude.{ℕ, ◌+◌, ◌/◌, ◌≡◌, refl, List, [], ◌∷◌, map, count, arith}
use ror_books_test.Dates.{day_ms}
use ror_books_test.Backend.Tables.{Borrowing, Database}
use ror_books_test.Backend.Lending.{is_borrowed, is_late, mark, mark_overdue_books}
use ror_books_test.Backend.Late.{mark_overdue_books_lem}
use ror_books_test.Backend.Figures.{is_overdue, is_due_soon, librarian_counts}

borrowed_moves :
    (today : ℕ) (bs : List Borrowing)
    → count (λ b. is_borrowed b.status) (map (mark today) bs) + count (is_late today) bs
      ≡ count (λ b. is_borrowed b.status) bs
borrowed_moves today [] = refl
borrowed_moves today (b ∷ bs) = ground (arith, borrowed_moves today bs)

overdue_moves :
    (today : ℕ) (bs : List Borrowing)
    → count (λ b. is_overdue b.status) (map (mark today) bs)
      ≡ count (λ b. is_overdue b.status) bs + count (is_late today) bs
overdue_moves today [] = refl
overdue_moves today (b ∷ bs) = ground (arith, overdue_moves today bs)

soon_stays :
    (today : ℕ) (bs : List Borrowing)
    → count (is_due_soon today) (map (mark today) bs) ≡ count (is_due_soon today) bs
soon_stays today [] = refl
soon_stays today (b ∷ bs) = ground (arith, soon_stays today bs)

-- An overdue check moves as many borrowings as it reports from the figure "Currently borrowed" to
-- that of the overdue books, and changes neither the number of books nor the figure "Due soon".
pub marking_moves :
    (now : ℕ) (db : Database)
    → let (marking, after) = mark_overdue_books now db in
      let old = librarian_counts now db in
      let new = librarian_counts now after in
      (new.currently_borrowed + marking.count ≡ old.currently_borrowed)
      × (new.overdue_books_count ≡ old.overdue_books_count + marking.count)
      × (new.due_today ≡ old.due_today)
      × (new.total_books ≡ old.total_books)
unfolding librarian_counts
marking_moves now db =
    let today = now / day_ms in
    let (counted, stored) = mark_overdue_books_lem now db in
    rw (stored, counted)
      (
        borrowed_moves today db.borrowings,
        overdue_moves today db.borrowings,
        soon_stays today db.borrowings,
        refl,
      )
