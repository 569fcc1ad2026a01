-- ===== src/Tests/Tables.antt =====
-- The tables of the tests: a librarian, a member and two books.
use ror_books_test.Prelude.{◌*◌, none, true, [], ◌∷◌, is_blank}
use ror_books_test.Dates.{day_ms, borrowed}
use ror_books_test.Backend.{Book, Borrowing, Database, Queries}
use ror_books_test.Tests.Data.{ann, bob}

abbrev pub dune : Book
dune = record {
  id = 1;
  title = "Dune";
  author = "Frank Herbert";
  genre = "Novel";
  isbn = "978-0441013593";
  total_copies = 1;
}

abbrev pub emma : Book
emma = record {
  id = 2;
  title = "Emma";
  author = "Jane Austen";
  genre = "Novel";
  isbn = "978-0141439587";
  total_copies = 2;
}

-- Bob has had Emma since day 3, and it is due on day 17.
abbrev pub lent_emma : Borrowing
lent_emma = record {
  id = 1;
  user_id = 2;
  book_id = 2;
  borrowed_at = 3 * day_ms;
  due_date = 17;
  returned_at = none;
  status = borrowed;
  return_comment = none;
}

abbrev pub tables : Database
tables = record {
  books = dune ∷ emma ∷ [];
  users = ann ∷ bob ∷ [];
  borrowings = lent_emma ∷ [];
  next_book = 3;
  next_user = 3;
  next_borrowing = 2;
}

abbrev pub ruby : Queries
ruby = record {
  blank = is_blank;
  strip = λ text. text;
  ilike = λ text like. true;
  parse_date = λ text. none;
  downcase = λ text. text;
}
