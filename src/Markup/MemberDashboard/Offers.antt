-- ===== src/Markup/MemberDashboard/Offers.antt =====
-- The borrow buttons and the links of the member's dashboard.
use ror_books_test.Prelude.{
  ℕ, ◌≡◌, refl, Option, none, some, List, [], ◌∷◌, ◌++◌, map, keep, arith, ltb, if◌then◌else◌,
}
use mathlib.Core.List.{append-nil}
use ror_books_test.Dates.{Zone, DueBadge, due_badge, overdue_since, due_today, due_in, due_on}
use ror_books_test.QuickSearch.{Box, shown}
use ror_books_test.Dashboards.{Item, TopBook, MemberData, BookResult}
use ror_books_test.Markup.Nodes.{
  handler, Node, Nodes, gather, gather_all, borrows, clicks, children,
}
use ror_books_test.Markup.MemberItems.{
  Event, go, badge_node, found_node, top_node, current_node, history_node,
}
use ror_books_test.Markup.MemberDashboard.{
  member_dashboard, tile_nodes, search_card, top_card, current_card, history_card, tops_of,
  current_of, history_of, current_nodes, found_list,
}

-- Nothing to borrow and nothing to click.
abbrev IsInert : Nodes Event → Type 0
IsInert ns = (gather_all borrows ns ≡ []) × (gather_all clicks ns ≡ [])

-- The borrow buttons of the nodes are those for the books that can be borrowed, and nothing else is
-- to be clicked.
abbrev IsOffering : List ℕ → Nodes Event → Type 0
IsOffering ids ns = (gather_all borrows ns ≡ ids) × (gather_all clicks ns ≡ [])

found_nodes-IsOffering :
    (bs : List BookResult)
    → IsOffering (map (λ b. b.id) (keep (λ b. b.can_borrow) bs)) (children (map found_node bs))
unfolding gather found_node
found_nodes-IsOffering [] = (refl, refl)
found_nodes-IsOffering (b ∷ bs) = ground (arith, found_nodes-IsOffering bs)

top_nodes-IsOffering :
    (bs : List TopBook)
    → IsOffering (map (λ b. b.id) (keep (λ b. b.can_borrow) bs)) (children (map top_node bs))
unfolding gather top_node
top_nodes-IsOffering [] = (refl, refl)
top_nodes-IsOffering (b ∷ bs) = ground (arith, top_nodes-IsOffering bs)

badge-IsInert : (due : ℕ) (b : DueBadge) → IsInert (children (badge_node due b ∷ []))
unfolding gather badge_node ror_books_test.Markup.Parts.badge
badge-IsInert due overdue_since = (refl, refl)
badge-IsInert due due_today = (refl, refl)
badge-IsInert due (due_in n) = (refl, refl)
badge-IsInert due due_on = (refl, refl)

current-IsInert :
    (z : Zone) (now : ℕ) (rs : List Item) → IsInert (children (map (current_node z now) rs))
unfolding gather current_node
current-IsInert z now [] = (refl, refl)
current-IsInert z now (r ∷ rs) =
    ground (arith, badge-IsInert r.due_date (due_badge z r.due_date now), current-IsInert z now rs)

history-IsInert : (rs : List Item) → IsInert (children (map history_node rs))
unfolding gather history_node
history-IsInert [] = (refl, refl)
history-IsInert (r ∷ rs) = ground (arith, history-IsInert rs)

-- The tiles offer nothing to borrow; the one for overdue books, which stands if there are some,
-- leads to them.
tiles_click :
    (d : MemberData)
    → (gather_all borrows (children (tile_nodes (some d))) ≡ [])
      × (gather_all clicks (children (tile_nodes (some d)))
          ≡ (if ltb 0 d.overdue_count then handler (go "/borrowings?status=overdue") ∷ [] else []))
unfolding gather tile_nodes
tiles_click d = ground arith

abbrev found_of : Option (List BookResult) → List BookResult
found_of none = []
found_of (some results) = results

found_list-IsOffering :
    (o : Option (List BookResult))
    → IsOffering (map (λ b. b.id) (keep (λ b. b.can_borrow) (found_of o))) (children (found_list o))
unfolding gather
found_list-IsOffering none = (refl, refl)
found_list-IsOffering (some bs) =
    let (b, c) = found_nodes-IsOffering bs in (simp (append-nil, b), simp (append-nil, c))

abbrev IsOfferingCard : List ℕ → Node Event → Type 0
IsOfferingCard ids n = (gather borrows n ≡ ids) × (gather clicks n ≡ [])

search_card-IsOffering :
    (b : Box BookResult)
    → IsOfferingCard
        (map (λ b. b.id) (keep (λ b. b.can_borrow) (found_of (shown b))))
        (search_card b)
unfolding gather search_card ror_books_test.Markup.Parts.titled_card
    ror_books_test.Markup.Parts.input
search_card-IsOffering b =
    let (i, c) = found_list-IsOffering (shown b) in (simp (append-nil, i), simp (append-nil, c))

top_card-IsOffering :
    (bs : List TopBook) (d : Option MemberData)
    → tops_of d ≡ bs
    → IsOfferingCard (map (λ b. b.id) (keep (λ b. b.can_borrow) bs)) (top_card d)
unfolding gather top_card ror_books_test.Markup.Parts.titled_card
top_card-IsOffering bs d e =
    let (b, c) = top_nodes-IsOffering bs in (simp (append-nil, e, b), simp (append-nil, e, c))

current_nodes-IsInert :
    (z : Zone) (now : ℕ) (rs : List Item) → IsInert (children (current_nodes z now rs))
unfolding gather
current_nodes-IsInert z now [] = (refl, refl)
current_nodes-IsInert z now (r ∷ rs) = current-IsInert z now (r ∷ rs)

current_card-IsOfferingCard :
    (z : Zone) (now : ℕ) (d : Option MemberData) → IsOfferingCard [] (current_card z now d)
unfolding gather current_card ror_books_test.Markup.Parts.titled_card
current_card-IsOfferingCard z now d =
    let (b, c) = current_nodes-IsInert z now (current_of d) in
    (simp (append-nil, b), simp (append-nil, c))

history_card-IsOfferingCard : (d : Option MemberData) → IsOfferingCard [] (history_card d)
unfolding gather history_card ror_books_test.Markup.Parts.titled_card
history_card-IsOfferingCard d =
    let (b, c) = history-IsInert (history_of d) in (simp (append-nil, b), simp (append-nil, c))

-- The rendered dashboard of a member has a borrow button for each result of the search on the
-- screen that can be borrowed, then one for each such top book, in their order and no other; and
-- nothing else on it can be clicked but the tile that leads to the overdue borrowings, which stands
-- if there are some.
pub member_dashboard-IsOffering :
    (z : Zone) (now : ℕ) (d : MemberData) (box : Box BookResult)
    → let page = member_dashboard z now (some d) box in
      (gather borrows page
        ≡ map (λ b. b.id) (keep (λ b. b.can_borrow) (found_of (shown box)))
          ++ map (λ b. b.id) (keep (λ b. b.can_borrow) d.top_books))
      × (gather clicks page
          ≡ (if ltb 0 d.overdue_count then handler (go "/borrowings?status=overdue") ∷ [] else []))
unfolding gather member_dashboard
member_dashboard-IsOffering z now d box =
    let (tile_b, tile_c) = tiles_click d in
    let (search_b, search_c) = search_card-IsOffering box in
    let (top_b, top_c) = top_card-IsOffering d.top_books (some d) refl in
    let (current_b, current_c) = current_card-IsOfferingCard z now (some d) in
    let (history_b, history_c) = history_card-IsOfferingCard (some d) in
    (
      simp (append-nil, tile_b, search_b, top_b, current_b, history_b),
      simp (append-nil, tile_c, search_c, top_c, current_c, history_c),
    )
