-- ===== src/Markup/MemberBooks/Offers.antt =====
-- The borrow buttons of the member's page of books.
use ror_books_test.Prelude.{◌≡◌, refl, Option, none, some, List, [], ◌∷◌, map, keep, length, arith}
use mathlib.Core.List.{append-nil}
use ror_books_test.Paging.{Search, Pager, pager}
use ror_books_test.MemberPages.{Book}
use ror_books_test.Markup.Nodes.{Node, gather, gather_all, borrows, children}
use ror_books_test.Markup.Tables.{fixed_table, pager_nodes}
use ror_books_test.Markup.MemberBooks.{Event, prev, next, heads, row_node, books_page}

row_borrows :
    (bs : List Book)
    → gather_all borrows (children (map row_node bs))
      ≡ map (λ b. b.id) (keep (λ b. b.can_borrow) bs)
unfolding gather row_node
row_borrows [] = refl
row_borrows (b ∷ bs) = ground (arith, row_borrows bs)

table_borrows :
    (rows : List (Node Event))
    → gather borrows (fixed_table heads rows) ≡ gather_all borrows (children rows)
unfolding gather fixed_table
table_borrows rows = simp append-nil

pager_borrows : (p : Option Pager) → gather_all borrows (children (pager_nodes p prev next)) ≡ []
unfolding gather pager_nodes
pager_borrows none = refl
pager_borrows (some p) = refl

-- The rendered page of books has a borrow button for each row that can be borrowed, in the order of
-- the rows, and no other.
pub books_page-borrows :
    (s : Search) (bs : List Book)
    → gather borrows (books_page s bs) ≡ map (λ b. b.id) (keep (λ b. b.can_borrow) bs)
unfolding gather books_page
books_page-borrows s bs =
    rw (table_borrows (map row_node bs), row_borrows bs, pager_borrows (pager s.page (length bs)))
      (append-nil _)
