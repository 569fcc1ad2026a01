-- ===== src/Backend/Members.antt =====
-- What the list of members may show.
use ror_books_test.Prelude.{
  ℕ, String, ◌≤◌, ◌≡◌, refl, Option, true, List, keep, All, All-imp, All-kept, length, arith,
}
use ror_books_test.Api.{User}
use ror_books_test.Backend.Tables.{Database, rendered, is_librarian, is_member}
use ror_books_test.Backend.Listing.{page_rows}
use ror_books_test.Backend.Pages.{All-page_rows, length-page_rows_le}
use ror_books_test.Backend.Search.{Queries}
use ror_books_test.Backend.Directory.{members_index, is_found_member}

found_is_member :
    (rb : Queries) (q : Option String) (u : User)
    → is_found_member rb q u ≡ true
    → is_member u ≡ true
found_is_member rb q u h = ground (arith, h)

-- The rows that the list is cut from are members.
found_members :
    (rb : Queries) (q : Option String) (us : List User)
    → All (λ u. is_member u ≡ true) (keep (is_found_member rb q) us)
found_members rb q us =
    All-imp (λ u. is_found_member rb q u ≡ true) (λ u. is_member u ≡ true) (found_is_member rb q) _
      (All-kept (is_found_member rb q) us)

-- A page of the list of members, for a librarian, holds members alone, at most 25, whatever is
-- searched for, where the database hands out rows of the table only.
pub members_index-rows :
    (rb : Queries) (arrange : List User → List User) (user : User) (q : Option String) (page : ℕ)
    (db : Database)
    → ((P : User → Type 0) (us : List User) → All P us → All P (arrange us))
    → is_librarian user ≡ true
    → (rows : List User) × (members_index rb arrange user q page db ≡ rendered rows)
      × All (λ u. is_member u ≡ true) rows
      × (length rows ≤ 25)
unfolding members_index
members_index-rows rb arrange user q page db only librarian =
    let found = keep (is_found_member rb q) db.users in
    (
      page_rows page (arrange found),
      rw librarian refl,
      All-page_rows page (arrange found) (λ u. is_member u ≡ true)
          (only (λ u. is_member u ≡ true) found (found_members rb q db.users)),
      length-page_rows_le page (arrange found),
    )
