-- ===== src/Dashboards/Librarian.antt =====
-- The librarian's dashboard: its figures, the overdue check, and its two lists.
use Prim.Native.String
use ror_books_test.Prelude.{
  ℕ, String, Option, none, some, Bool, true, false, List, [], ◌∷◌, ◌++◌, ◌||◌, map, truthy, trim,
  if◌then◌else◌,
}
use ror_books_test.Api.{Reply, ok, failed, User, librarian, member, or_else}
use ror_books_test.Borrowings.{Person}

-- An entry of `recent_borrowings`; the time is a text, which the page only formats.
pub record Recent : Type 0 where
  pub id : ℕ
  pub created_at : String
  pub user : Option Person
  pub title : Option String

-- `LibrarianData`, with the entries of `top_genres` in their order.
pub record LibrarianData : Type 0 where
  pub total_books : ℕ
  pub currently_borrowed : ℕ
  pub due_today : ℕ
  pub overdue_books_count : ℕ
  pub top_genres : List (String × ℕ)
  pub recent_borrowings : List Recent

-- The body of `POST /dashboard/mark_overdue`.
pub record Marked : Type 0 where
  pub success : Bool
  pub message : String
  pub error : String

pub record Dashboard : Type 0 where
  pub figures : Option LibrarianData
  pub alerts : List String

abbrev pub is_librarian : Option User → Bool
is_librarian none = false
is_librarian (some user) = elim user.role [ librarian ↦ true | member ↦ false ]

-- The effect of the user's role: whether the figures are asked for.
unfoldable pub role_effect : Option User → Dashboard → Dashboard × Bool
role_effect user d = if is_librarian user then (d, true) else (record d { figures = none }, false)

-- The figures are answered; a refusal is not caught.
unfoldable pub figures_answered : Reply LibrarianData → Dashboard → Dashboard
figures_answered (ok figures) d = record d { figures = some figures }
figures_answered (failed e) d = d

abbrev alert : String → Dashboard → Dashboard
alert text d = record d { alerts = d.alerts ++ text ∷ [] }

-- `handleMarkOverdue`, by the answers to its two requests; each is used only if it is asked for.
abbrev refreshed : Reply LibrarianData → Dashboard → Dashboard
refreshed (ok figures) d = record d { figures = some figures }
refreshed (failed e) d = alert "Error occurred while marking overdue books" d

abbrev marked : Reply Marked → Reply LibrarianData → Dashboard → Dashboard
marked (ok body) refresh d =
    if body.success
    then refreshed refresh (alert body.message d)
    else alert (String.◌++◌ "Error: " body.error) d
marked (failed e) refresh d = alert "Error occurred while marking overdue books" d

unfoldable pub mark_overdue : Bool → Reply Marked → Reply LibrarianData → Dashboard → Dashboard
mark_overdue confirmed reply refresh d = if confirmed then marked reply refresh d else d

abbrev is_present : Option String → Bool
is_present none = false
is_present (some text) = truthy text

-- Who borrowed: the trimmed name, or the email of a member without one, if there is a member.
unfoldable pub borrower : Option Person → Option String
borrower none = none
borrower (some u) = some (
    if is_present u.first_name || is_present u.last_name
    then trim (String.◌++◌ (or_else u.first_name "") (String.◌++◌ " " (or_else u.last_name "")))
    else u.email)

-- A row of recent borrowings: when, who, and the title.
pub record RecentRow : Type 0 where
  pub time : String
  pub who : Option String
  pub title : Option String

unfoldable pub recent_row : Recent → RecentRow
unfolding borrower
recent_row r = record { time = r.created_at; who = borrower r.user; title = r.title }

-- The two lists under the search.
unfoldable pub genre_rows : Dashboard → List (String × ℕ)
genre_rows d = elim d.figures [ none ↦ [] | some f ↦ f.top_genres ]

unfoldable pub recent_rows : Dashboard → List RecentRow
unfolding recent_row
recent_rows d = elim d.figures [ none ↦ [] | some f ↦ map recent_row f.recent_borrowings ]

-- A row of the quick search, whose link leads to the dashboard.
pub record LinkRow : Type 0 where
  pub title : String
  pub author : String
  pub href : String

-- The title and the author of a result.
pub record Found : Type 0 where
  pub id : ℕ
  pub title : String
  pub author : String

unfoldable pub link_row : Found → LinkRow
link_row b = record { title = b.title; author = b.author; href = "/" }

-- `Stat`: its label, its value or "-", and its class name.
pub record Stat : Type 0 where
  pub label : String
  pub value : String
  pub class_name : String

unfoldable pub stat : String → Option String → Bool → Stat
stat label value clickable = record {
  label = label;
  value = elim value [ none ↦ "-" | some text ↦ text ];
  class_name =
      String.◌++◌ "border rounded p-3 cursor-pointer "
        (if clickable then "hover:bg-gray-50" else "");
}
