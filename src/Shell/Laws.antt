-- ===== src/Shell/Laws.antt =====
-- Access control of the frame.
use mathlib.Core.Path.{subst}
use ror_books_test.Prelude.{
  map, ◌++◌, Bool-cases, ◌≡◌, refl, ◌≢◌, inl, inr, String, Option, none, some, Bool, true, false,
  List, [], ◌∷◌, arith, str_eq, eq_iff,
}
use ror_books_test.Api.{User, Role, librarian, member}
use ror_books_test.Auth.{State}
use ror_books_test.Shell.Gate.{
  Page, librarian_dashboard, librarian_books, librarian_borrowings, librarian_members,
  member_dashboard, member_books, member_borrowings, account, login, page, frame, outlet, app,
  header, remount,
}

abbrev pub HasRole : Role → Option User → Type 0
HasRole role none = ⊥
HasRole role (some u) = u.role ≡ role

-- Who may see a page.
abbrev pub MaySee : Page → Option User → Type 0
MaySee login user = Unit
MaySee account user = user ≢ none
MaySee librarian_dashboard user = HasRole librarian user
MaySee librarian_books user = HasRole librarian user
MaySee librarian_borrowings user = HasRole librarian user
MaySee librarian_members user = HasRole librarian user
MaySee member_dashboard user = HasRole member user
MaySee member_books user = HasRole member user
MaySee member_borrowings user = HasRole member user

outlet-MaySee :
    (path : String) (u : User) (p : Page) → outlet path (some u) ≡ page p → MaySee p (some u)
unfolding outlet
outlet-MaySee path u librarian_dashboard h = ground arith
outlet-MaySee path u p h = ground arith

outlet-login : (p : Page) → outlet "/login" none ≡ page p → MaySee p none
unfolding outlet
outlet-login login h = tt
outlet-login p h = ground arith

app-MaySee_fields :
    (user : Option User) (waits : Bool) (text : Option String) (path : String)
    (links : Option (List (String × Bool))) (p : Page)
    → app (record { user = user; loading = waits; error = text }) path ≡ frame links (page p)
    → (waits ≡ false) × MaySee p user
unfolding app
app-MaySee_fields user true text path links p h = cc
app-MaySee_fields none false text path links p h = elim (Bool-cases (str_eq path "/login")) [
  | inl here ↦
      let at_login : outlet "/login" none ≡ page p =
        subst (λ q. outlet q none ≡ page p) ((eq_iff path "/login").0 here) (ground arith) in
      (refl, outlet-login p at_login)
  | inr away ↦ ground arith
]
app-MaySee_fields (some u) false text path links p h = (refl, outlet-MaySee path u p (ground arith))

-- A page stands on the screen only for a user who may see it, and never while the context loads:
-- the librarian's pages for a librarian, the member's for a member, the account page for any user,
-- and the login page for everybody.
pub app-MaySee :
    (state : State) (path : String) (links : Option (List (String × Bool))) (p : Page)
    → app state path ≡ frame links (page p)
    → (state.loading ≡ false) × MaySee p state.user
unfolding app
app-MaySee state path links p h =
    app-MaySee_fields state.user state.loading state.error path links p h

-- The targets of the header's links, in order, for every path and user: the members' link stands
-- there only for a librarian.
pub header_targets :
    (path : String) (u : User)
    → map (λ link. link.0) (header path u)
      ≡ ("/" ∷ "/books" ∷ "/borrowings" ∷ elim u.role [ librarian ↦ "/members" ∷ [] | member ↦ [] ])
unfolding header
header_targets path u = ground arith

-- While the context loads, no page is kept, so a handler that dispatches `loading` on the way
-- leaves a fresh page behind, whatever it did to the old one.
pub remount_of_loading :
    {P : Type 0} (path : String) (before after : List State) (s : State) (fresh current : P)
    → s.loading ≡ true
    → remount path (before ++ s ∷ after) fresh current ≡ fresh
unfolding remount
remount_of_loading path [] after s fresh current h = ground arith
remount_of_loading path (t ∷ before) after s fresh current h =
    ground (arith, remount_of_loading path before after s fresh current h)
