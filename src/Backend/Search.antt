-- ===== src/Backend/Search.antt =====
-- The searches of app/models: `Book.search`, `User.search_by_name_or_email`, `Borrowing.text_search`.
use Prim.Native.String
use ror_books_test.Prelude.{
  ℕ, ◌==◌, String, Option, none, some, Bool, true, false, ◌||◌, find, if◌then◌else◌,
}
use ror_books_test.Api.{User}
use ror_books_test.Backend.Tables.{Book, Borrowing, Database, find_book}

-- What the actions ask of Ruby, Rails and the database: `blank?`, `strip`, `ILIKE` of a text and a
-- pattern, `Date.parse` and `downcase`.
pub record Queries : Type 0 where
  pub blank : String → Bool
  pub strip : String → String
  pub ilike : String → String → Bool
  pub parse_date : String → Option ℕ
  pub downcase : String → String

-- `params[:q].to_s`
abbrev pub text_or_empty : Option String → String
text_or_empty none = ""
text_or_empty (some text) = text

module _ (rb : Queries) where
  -- `"%#{query.strip}%"`
  abbrev pub pattern_of : String → String
  pattern_of query = String.◌++◌ "%" (String.◌++◌ (rb.strip query) "%")

  -- A column without a value is like nothing.
  abbrev pub is_like : Option String → String → Bool
  is_like none like = false
  is_like (some text) like = rb.ilike text like

  unfoldable pub book_found : Option String → Book → Bool
  book_found none b = true
  book_found (some query) b =
      let like = pattern_of query in
      if rb.blank query
      then true
      else rb.ilike b.title like || (rb.ilike b.author like || rb.ilike b.genre like)

  unfoldable pub user_found : String → User → Bool
  user_found query u =
      let like = pattern_of query in
      if rb.blank query
      then true
      else rb.ilike u.email like || (is_like u.first_name like || is_like u.last_name like)

  -- The columns of the book and of the user that a borrowing is joined with.
  abbrev pub joined_book : String → Option Book → Bool
  joined_book like none = false
  joined_book like (some b) = rb.ilike b.title like || rb.ilike b.author like

  abbrev pub joined_user : String → Option User → Bool
  joined_user like none = false
  joined_user like (some u) =
      rb.ilike u.email like || (is_like u.first_name like || is_like u.last_name like)

  unfoldable pub text_search : String → Database → Borrowing → Bool
  text_search query db b =
      let like = pattern_of query in
      if rb.blank query
      then true
      else joined_book like (find_book b.book_id db)
        || joined_user like (find (λ u. u.id == b.user_id) db.users)
