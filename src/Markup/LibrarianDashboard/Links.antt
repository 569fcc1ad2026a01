-- ===== src/Markup/LibrarianDashboard/Links.antt =====
-- What can be clicked on the librarian's dashboard, and who sees what.
use ror_books_test.Prelude.{
  Option, none, some, List, [], ◌∷◌, ◌++◌, map, ltb, truthy, if◌then◌else◌,
}
use ror_books_test.Api.{User, librarian, member}
use ror_books_test.QuickSearch.{Box}
use ror_books_test.Dashboards.{LibrarianData, Found}
use ror_books_test.Markup.Nodes.{handler, link, Target}
use ror_books_test.Markup.LibrarianDashboard.{Event, go}

-- One link for each book that the search shows.
search_links : Box Found → List (Target Event)
search_links b = if truthy b.q then map (λ o. link "/") b.results else []

-- The tiles of the figures.
tile_targets : Option LibrarianData → List (Target Event)
tile_targets none = []
tile_targets (some f) =
    (if ltb 0 f.currently_borrowed then handler (go "/borrowings?status=borrowed") ∷ [] else [])
    ++ ((if ltb 0 f.due_today then handler (go "/borrowings?status=borrowed") ∷ [] else [])
        ++ (if ltb 0 f.overdue_books_count
            then handler (go "/borrowings?status=overdue") ∷ []
            else []))

-- What only a librarian gets.
abbrev pub if_librarian : {A : Type 0} → Option User → List A → List A
if_librarian none xs = []
if_librarian (some u) xs = elim u.role [ librarian ↦ xs | member ↦ [] ]
