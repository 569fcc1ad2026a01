-- ===== src/Tests/Seeds.antt =====
-- The task `db:seed_bestsellers`, and what a borrow button offers.
use ror_books_test.Prelude.{
  ℕ, ◌≡◌, refl, String, Option, none, some, Bool, true, false, not, ◌&&◌, all, List, All, [], ◌∷◌,
  ◌++◌, is_blank, arith,
}
use ror_books_test.Backend.{Book, Database}
use ror_books_test.Backend.Seeds.{
  Listing, isbn_of, Seeding, seed_one, seed_all, seed_bestsellers, numbered,
}
use ror_books_test.Backend.Seeds.Bestsellers.{bestsellers}
use ror_books_test.Dates.{day_ms}
use ror_books_test.Backend.{BookParams, absent, Devise}
use ror_books_test.Backend.Requests.{post_book, put_book, delete_book}
use ror_books_test.Backend.Reachable.{Call, serve}
use ror_books_test.Backend.Shelved.{IsShelved}
use ror_books_test.Backend.Shelved.Requests
use ror_books_test.BorrowButton.{mounted, borrow, escape, cancel, confirm}
use ror_books_test.Markup.Nodes.{handler, gather_all, clicks, children}
use ror_books_test.Markup.BorrowButton.{borrow_button_nodes}
use ror_books_test.Markup.BorrowButton.Offers
use ror_books_test.Backend.Seeds.Rows.{IsKeyed}
use ror_books_test.Backend.Seeds.Rounds.{IsSeeded}
use ror_books_test.Backend.Seeds.Ends
use ror_books_test.Tests.Tables.{tables}

first_isbn : isbn_of 1 ≡ "9990000000001"
unfolding isbn_of
first_isbn = refl

last_isbn : isbn_of 100 ≡ "9990000000100"
unfolding isbn_of
last_isbn = refl

-- The tables of the tests, with the first book of the list under an older title.
abbrev before : Database
before = record tables {
  books =
      tables.books
      ++ record {
        id = 3;
        title = "Don Quijote";
        author = "Miguel de Cervantes";
        genre = "Classic";
        isbn = "9990000000001";
        total_copies = 10;
      }
        ∷ [];
  next_book = 4;
}

before-IsKeyed : IsKeyed before
before-IsKeyed = record {
  keyed = (refl, (refl, (refl, tt)));
  fresh = (omega arith, (omega arith, (omega arith, tt)));
}

abbrev counts : Option Seeding → Option (ℕ × ℕ)
counts none = none
counts (some t) = some (t.created, t.updated)

hundred_rounds : counts (seed_bestsellers is_blank bestsellers before) ≡ some (99, 1)
unfolding seed_bestsellers seed_all seed_one isbn_of ror_books_test.Prelude.Texts.is_blank
    ror_books_test.Prelude.Texts.is_space ror_books_test.Backend.save_changed
    ror_books_test.Backend.changed_book_errors ror_books_test.Backend.assign_book
    ror_books_test.Backend.save_book ror_books_test.Backend.new_book_errors
hundred_rounds = refl

is_filled : String × Listing → Bool
is_filled (isbn, l) =
    not (is_blank isbn)
    && (not (is_blank l.title) && (not (is_blank l.author) && not (is_blank l.genre)))

all-IsFilled :
    (es : List (String × Listing)) → all is_filled es ≡ true → All (Ends.IsFilled is_blank) es
unfolding is_filled
all-IsFilled [] h = tt
all-IsFilled (e ∷ es) h = (
  (ground (arith, h), ground (arith, h), ground (arith, h), ground (arith, h)),
  all-IsFilled es (ground (arith, h)),
)

bestsellers-IsFilled : All (Ends.IsFilled is_blank) (numbered 0 bestsellers)
unfolding is_filled isbn_of ror_books_test.Prelude.Texts.is_blank
    ror_books_test.Prelude.Texts.is_space
bestsellers-IsFilled = all-IsFilled (numbered 0 bestsellers) refl

seed_bestsellers-IsSeeded_example :
    (t : Seeding) × (seed_bestsellers is_blank bestsellers before ≡ some t)
    × All (IsSeeded t.db) (numbered 0 bestsellers)
    × (seed_bestsellers is_blank bestsellers t.db
        ≡ some (record { db = t.db; created = 0; updated = 0 }))
seed_bestsellers-IsSeeded_example =
    Ends.seed_bestsellers-IsSeeded is_blank bestsellers before bestsellers-IsFilled (omega arith)
      before-IsKeyed (refl, (refl, (refl, tt)))

-- An open dialog before the confirmation.
borrow_button_nodes-clicks_example :
    gather_all clicks
      (children (borrow_button_nodes "Nov 26, 2026" (record mounted { is_open = true })))
    ≡ handler borrow ∷ handler escape ∷ handler cancel ∷ handler confirm ∷ []
borrow_button_nodes-clicks_example =
    Offers.borrow_button_nodes-clicks "Nov 26, 2026" (record mounted { is_open = true })

-- A librarian adds a book, tries to give another one its ISBN, changes that ISBN and deletes a book.
abbrev emma_again : BookParams
emma_again = record {
  title = some "Emma";
  author = some "Jane Austen";
  genre = some "Novel";
  isbn = some "9990000000001";
  total_copies = absent;
}

abbrev only_isbn : String → BookParams
only_isbn isbn = record {
  title = none;
  author = none;
  genre = none;
  isbn = some isbn;
  total_copies = absent;
}

abbrev lenient : Devise
lenient = record { errors = λ user password db. []; full_messages = λ errors. [] }

abbrev shelving : List Call
shelving =
    record { now = day_ms; session = some 1; request = post_book emma_again }
    ∷ record { now = day_ms; session = some 1; request = put_book 2 (only_isbn "9990000000001") }
    ∷ record { now = day_ms; session = some 1; request = put_book 3 (only_isbn "9990000000002") }
    ∷ record { now = day_ms; session = some 1; request = delete_book 1 }
    ∷ []

serve-IsShelved_example :
    let after = serve (record { blank = is_blank; devise = lenient }) shelving tables in
    IsShelved after.books after.next_book
serve-IsShelved_example =
    Requests.serve-IsShelved (record { blank = is_blank; devise = lenient }) shelving tables
      (record {
        keyed = (refl, (refl, tt));
        fresh = (omega arith, (omega arith, tt));
        unique = (refl, (refl, tt));
      })
