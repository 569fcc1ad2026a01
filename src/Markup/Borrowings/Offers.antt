-- ===== src/Markup/Borrowings/Offers.antt =====
-- What can be clicked on the librarian's page of borrowings.
use ror_books_test.Prelude.{
  ℕ, ◌≡◌, ◌==◌, ◌&&◌, ◌||◌, not, ltb, truthy, refl, ◌∙◌, String, Option, none, some, Bool, true,
  false, List, [], ◌∷◌, ◌++◌, map, keep, arith, if◌then◌else◌, Bool-cases, Option-cases, inl, inr,
  length,
}
use mathlib.Core.List.{append-nil}
use ror_books_test.Api.{User}
use ror_books_test.Dates.{StatusBadge, status_cell, due_soon, plain, borrowed, returned, overdue}
use ror_books_test.Dashboards.{is_librarian}
use ror_books_test.Paging.{pager}
use ror_books_test.Borrowings.{Filters, Borrowing, Desk, has_return, view, clear_stands}
use ror_books_test.Markup.Nodes.{
  Target, handler, gather, gather_all, clicks, children, property, gather_all-append,
}
use ror_books_test.Markup.Tables.{head_cell, body_cell, body_row, pager_nodes}
use ror_books_test.Markup.Clicks.{pager_events, pager_clicks, table_clicks}
use ror_books_test.Markup.Borrowings.Filters.{
  Event, cleared, borrowed_sorted, due_sorted, prev, next, return_closed, return_confirmed,
  return_asked, filter_bar, borrowed_head, due_head, status_node, book_cells,
}
use ror_books_test.Markup.Borrowings.Desk.{
  heads, cells, return_cell, row_node, return_dialog, borrowings_page,
}

bar_clicks :
    (placeholder : String) (f : Filters)
    → gather clicks (filter_bar (property "type" "text" ∷ []) placeholder f)
      ≡ (if clear_stands f then handler cleared ∷ [] else [])
unfolding gather filter_bar
bar_clicks placeholder f = ground arith

badge_clicks : (b : StatusBadge) → gather clicks (status_node b) ≡ []
unfolding gather status_node
badge_clicks (due_soon n) = refl
badge_clicks (plain borrowed) = refl
badge_clicks (plain returned) = refl
badge_clicks (plain overdue) = refl

abbrev return_events : Borrowing → List (Target Event)
return_events it = if has_return it then handler (return_asked it.id) ∷ [] else []

return_clicks : (it : Borrowing) → gather clicks (body_cell (return_cell it)) ≡ return_events it
unfolding gather body_cell return_cell
return_clicks it = ground arith

row_clicks :
    (user : Option User) (now : ℕ) (it : Borrowing)
    → gather clicks (row_node user now it) ≡ return_events it
unfolding gather row_node cells body_row book_cells
row_clicks user now it =
    let badge = badge_clicks (status_cell it.status it.due_date now) in
    elim (Bool-cases (is_librarian user)) [
      | inl e ↦ rw e (simp (append-nil, badge, return_clicks it))
      | inr e ↦ rw e (simp (append-nil, badge, return_clicks it))
    ]

rows_clicks :
    (user : Option User) (now : ℕ) (its : List Borrowing)
    → gather_all clicks (children (map (row_node user now) its))
      ≡ map (λ it. handler (return_asked it.id)) (keep has_return its)
unfolding gather
rows_clicks user now [] = refl
rows_clicks user now (it ∷ its) = ground (arith, row_clicks user now it, rows_clicks user now its)

head_clicks :
    (user : Option User) (f : Filters)
    → gather_all clicks (children (map head_cell (heads user f)))
      ≡ handler borrowed_sorted ∷ handler due_sorted ∷ []
unfolding gather heads head_cell borrowed_head due_head
head_clicks user f = elim (Bool-cases (is_librarian user)) [
  | inl e ↦ rw e (ground arith)
  | inr e ↦ rw e (ground arith)
]

-- The backdrop and "Cancel" close the dialog, and there is "Confirm Return".
abbrev dialog_events : Bool → List (Target Event)
dialog_events false = []
dialog_events true = handler return_closed ∷ handler return_closed ∷ handler return_confirmed ∷ []

dialog_clicks :
    (d : Desk) → gather_all clicks (children (return_dialog d)) ≡ dialog_events (view d).modal_open
unfolding gather return_dialog view
dialog_clicks d = elim (Option-cases d.returning_id) [ inl e ↦ rw e refl | inr (id, e) ↦ rw e refl ]

all_clicks :
    (user : Option User) (now : ℕ) (d : Desk)
    → gather clicks (borrowings_page user now d)
      ≡ (if clear_stands d.list.key then handler cleared ∷ [] else [])
        ++ (handler borrowed_sorted
              ∷ handler due_sorted
              ∷ map (λ it. handler (return_asked it.id)) (keep has_return d.list.items)
            ++ (dialog_events (view d).modal_open
                ++ pager_events (pager d.list.key.page (length d.list.items)) prev next))
unfolding gather borrowings_page view
all_clicks user now d =
    let rows = map (row_node user now) d.list.items in
    let pages = pager_nodes (pager d.list.key.page (length d.list.items)) prev next in
    rw
      (
        bar_clicks "Search member or book..." d.list.key,
        table_clicks (heads user d.list.key) rows,
        head_clicks user d.list.key,
        rows_clicks user now d.list.items,
        gather_all-append clicks (return_dialog d) pages,
        dialog_clicks d,
        pager_clicks (pager d.list.key.page (length d.list.items)) prev next,
      )
      refl

raw_pager :
    (page rows : ℕ)
    → pager_events (pager page rows) prev next
      ≡ (if (ltb 1 page || rows == 25) && not (page == 1) then handler prev ∷ [] else [])
        ++ (if (ltb 1 page || rows == 25) && not (ltb rows 25) then handler next ∷ [] else [])
unfolding pager
raw_pager page rows = ground arith

dialog_raw :
    (d : Desk)
    → dialog_events (view d).modal_open ≡ elim d.returning_id [
      | none ↦ []
      | some id ↦ handler return_closed ∷ handler return_closed ∷ handler return_confirmed ∷ []
    ]
unfolding view
dialog_raw d = elim (Option-cases d.returning_id) [ inl e ↦ rw e refl | inr (id, e) ↦ rw e refl ]

-- What can be clicked on the rendered page of borrowings, in both roles: "Clear" while there is a
-- search or a date; the two headers that sort; "Return" for each row whose status is borrowed, and
-- for no returned or overdue one; what closes, twice, and what confirms a return while one is asked
-- for; "Prev" and "Next" if the page is above 1 or has exactly 25 rows, but for "Prev" on page 1 and
-- "Next" below 25 rows; in this order, and nothing else.
pub borrowings_page-clicks :
    (user : Option User) (now : ℕ) (d : Desk)
    → let f = d.list.key in
      let rows = length d.list.items in
      gather clicks (borrowings_page user now d)
      ≡ (if truthy f.q || truthy f.date then handler cleared ∷ [] else [])
        ++ (handler borrowed_sorted
              ∷ handler due_sorted
              ∷ map
                  (λ it. handler (return_asked it.id))
                  (keep
                    (λ it. elim it.status [ borrowed ↦ true | returned ↦ false | overdue ↦ false ])
                    d.list.items)
            ++ (elim d.returning_id [
              | none ↦ []
              | some id ↦
                  handler return_closed ∷ handler return_closed ∷ handler return_confirmed ∷ []
            ]
                ++ ((if (ltb 1 f.page || rows == 25) && not (f.page == 1)
                      then handler prev ∷ []
                      else [])
                    ++ (if (ltb 1 f.page || rows == 25) && not (ltb rows 25)
                        then handler next ∷ []
                        else []))))
unfolding has_return
borrowings_page-clicks user now d =
    all_clicks user now d ∙ rw (dialog_raw d, raw_pager d.list.key.page (length d.list.items)) refl
