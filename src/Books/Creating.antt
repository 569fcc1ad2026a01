-- ===== src/Books/Creating.antt =====
-- The form for a new book and the table that it adds to.
use ror_books_test.Prelude.{
  ℕ, ◌≡◌, ◌≢◌, ◌↔◌, ◌⊎◌, refl, Option, none, some, length, arith, map, All,
}
use ror_books_test.Api.{Reply, ok, failed, User}
use ror_books_test.Forms.{BookForm}
use ror_books_test.Forms.Validation.{IsComplete, book_errors-nil_iff}
use ror_books_test.Paging.{pager, page_size, map-replace_row, All-remove_row}
use ror_books_test.Books.Defs.{
  Book, Page, create_clicked, create_answered, book_changed, book_deleted, view,
}

-- "Create" sends a book exactly when the form is complete, and then sends the form as it stands.
pub create_clicked_iff :
    (p : Page) (form : BookForm)
    → ((create_clicked p).1 ≡ some form) ↔ ((p.new_book ≡ form) × IsComplete p.new_book)
unfolding create_clicked
create_clicked_iff p form = ground (arith, book_errors-nil_iff p.new_book)

-- An answer that brings no book leaves the rows, the form and the open dialog as they were, so
-- nothing that was typed is lost; it changes the alerts or the texts beside the fields, never both.
pub create_refused_kept :
    (p : Page) (reply : Reply (Option Book))
    → ((book : Book) → reply ≢ ok (some book))
    → let after = create_answered reply p in
      (after.list ≡ p.list)
      × (after.new_book ≡ p.new_book)
      × (after.creating ≡ p.creating)
      × ((after.alerts ≡ p.alerts) ⊎ (after.create_errors ≡ p.create_errors))
unfolding create_answered
create_refused_kept p (ok (some book)) h = absurd (h book refl)
create_refused_kept p (ok none) h = ground arith
create_refused_kept p (failed e) h = ground arith

-- On a first page that is full, a new book makes the pager disappear, though there are now more
-- books than a page holds: the table has 26 rows, and the pager asks for exactly 25.
pub create_hides_pager :
    (p : Page) (user : Option User) (book : Book)
    → p.list.key.page ≡ 1
    → length p.list.items ≡ page_size
    → ((view user p).pager ≢ none) × ((view user (create_answered (ok (some book)) p)).pager ≡ none)
unfolding create_answered view pager
create_hides_pager p user book first full = ground arith

-- After a row is changed the table has the same ids in the same order, and after a row is deleted
-- none has its id.
pub row_callbacks :
    (p : Page) (updated : Book) (id : ℕ)
    → (map (λ b. b.id) (book_changed updated p).list.items ≡ map (λ b. b.id) p.list.items)
      × All (λ b. b.id ≢ id) (book_deleted id p).list.items
unfolding book_changed book_deleted
row_callbacks p updated id =
    (map-replace_row (λ b. b.id) updated p.list.items, All-remove_row (λ b. b.id) id p.list.items)
