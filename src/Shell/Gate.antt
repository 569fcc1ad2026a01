-- ===== src/Shell/Gate.antt =====
-- What is on the screen for a state of the authentication context and a path. The router and React
-- are not modelled: a path that the table does not name is `not_found`, and a lazy page is shown as
-- loaded.
use ror_books_test.Prelude.{
  String, Option, none, some, Bool, true, false, ◌||◌, List, [], ◌∷◌, all, str_eq, if◌then◌else◌,
}
use ror_books_test.Api.{User, librarian, member}
use ror_books_test.Auth.{State}

-- The pages that the routes name.
pub data Page : Type 0 where
  librarian_dashboard librarian_books librarian_borrowings librarian_members : Page
  member_dashboard member_books member_borrowings : Page
  account login : Page

-- What a route puts in the outlet: a page, nothing, or a redirect of the page itself.
pub data Content : Type 0 where
  page : Page → Content
  nothing not_found : Content
  redirect : String → Content

pub data Screen : Type 0 where
  loading : Screen
  navigate : String → Screen
  -- The links of the header, if there is one, and the outlet.
  frame : Option (List (String × Bool)) → Content → Screen

-- `RoleRoute`
unfoldable pub role_route : Page → Page → Option User → Content
role_route for_librarian for_member none = nothing
role_route for_librarian for_member (some user) = elim user.role [
  | librarian ↦ page for_librarian
  | member ↦ page for_member
]

-- The guard at the top of `MembersPage`: only a user who is no librarian is sent away.
unfoldable pub members_route : Option User → Content
members_route none = page librarian_members
members_route (some user) = elim user.role [
  | librarian ↦ page librarian_members
  | member ↦ redirect "/"
]

-- The children of the route table.
unfoldable pub outlet : String → Option User → Content
unfolding role_route members_route
outlet path user =
    if str_eq path "/"
    then role_route librarian_dashboard member_dashboard user
    else if str_eq path "/dashboard"
    then role_route librarian_dashboard member_dashboard user
    else if str_eq path "/books"
    then role_route librarian_books member_books user
    else if str_eq path "/borrowings"
    then role_route librarian_borrowings member_borrowings user
    else if str_eq path "/members"
    then members_route user
    else if str_eq path "/account"
    then page account
    else if str_eq path "/login"
    then page login
    else not_found

-- `NavLink`: a target, and whether it is drawn as active.
unfoldable pub nav_link : String → Bool → String → String × Bool
nav_link path is_root_dashboard to =
    (to, if is_root_dashboard then str_eq path "/" || str_eq path "/dashboard" else str_eq path to)

unfoldable pub header : String → User → List (String × Bool)
unfolding nav_link
header path user =
    nav_link path true "/"
    ∷ nav_link path false "/books"
    ∷ nav_link path false "/borrowings"
    ∷ elim user.role [ librarian ↦ nav_link path false "/members" ∷ [] | member ↦ [] ]

-- `App`
unfoldable pub app : State → String → Screen
unfolding outlet header
app state path = if state.loading then loading else elim state.user [
  | none ↦ if str_eq path "/login" then frame none (outlet path none) else navigate "/login"
  | some user ↦ frame (some (header path user)) (outlet path (some user))
]

-- Whether the outlet stands on a screen. A page keeps its local state only while it does.
unfoldable pub shows_outlet : Screen → Bool
shows_outlet (frame links content) = true
shows_outlet _ = false

-- A page's state after a handler that went through the given states: React drops it when the
-- outlet leaves the screen, and a page that returns starts afresh.
unfoldable pub remount : {P : Type 0} → String → List State → P → P → P
unfolding app shows_outlet
remount path states fresh current =
    if all (λ s. shows_outlet (app s path)) states then current else fresh
