-- ===== src/Backend/Listed/Asked.antt =====
-- The list of borrowings against what a request asks for.
use Prim.Native.String
use ror_books_test.Prelude.{
  ℕ, ◌/◌, ◌≡◌, ◌⊎◌, refl, ap, ◌∙◌, ◌==◌, ltb, leb, String, str_eq, eq_iff, Option, none, some, Bool,
  true, false, not, ◌&&◌, ◌||◌, List, [], ◌∷◌, ◌++◌, any, count, find, arith, if◌then◌else◌,
  Bool-cases, Option-cases, inl, inr,
}
use mathlib.Core.Path.{subst, fun_ext}
use ror_books_test.Prelude.Sorting.{IsSorted}
use ror_books_test.Api.{User, Role, librarian, member}
use ror_books_test.Dates.{day_ms, Status, borrowed, returned, overdue}
use ror_books_test.Backend.Tables.{Book, Borrowing, Database, find_book}
use ror_books_test.Backend.Search.{
  Queries, text_or_empty, text_search, pattern_of, joined_book, joined_user,
}
use ror_books_test.Backend.Index.{
  IndexParams, row_le, ordering_of, status_of, is_listed, listed_rows, status_filter, status_wanted,
  search_filter, day_filter, day_wanted, own_filter, present,
}
use ror_books_test.Backend.Listed.{rows_lem}

-- The name of a status in a request.
abbrev name_of : Status → String
name_of borrowed = "borrowed"
name_of returned = "returned"
name_of overdue = "overdue"

abbrev is_name : String → Bool
is_name text = str_eq text "borrowed" || (str_eq text "returned" || str_eq text "overdue")

abbrev list_of : Option String → List String
list_of none = []
list_of (some text) = text ∷ []

abbrev book_texts : Option Book → List String
book_texts none = []
book_texts (some b) = b.title ∷ b.author ∷ []

abbrev user_texts : Option User → List String
user_texts none = []
user_texts (some u) = u.email ∷ (list_of u.first_name ++ list_of u.last_name)

Role-cases : (r : Role) → (r ≡ librarian) ⊎ (r ≡ member)
Role-cases librarian = inl refl
Role-cases member = inr refl

module _ (rb : Queries) where
  -- A status is asked for by its name; no text, a blank one and any other ask for all.
  abbrev asks_status : Option String → Status → Bool
  asks_status none status = true
  asks_status (some text) status =
      rb.blank text || (str_eq text (name_of status) || not (is_name text))

  -- A day is asked for by a text that is a date.
  abbrev asks_day : Option String → ℕ → Bool
  asks_day none day = true
  asks_day (some text) day =
      rb.blank text || elim (rb.parse_date text) [ none ↦ true | some d ↦ day == d ]

  -- A search asks for a text in the book or in the member of a borrowing.
  abbrev asks_text : String → Database → Borrowing → Bool
  asks_text q db b =
      rb.blank q
      || any (λ text. rb.ilike text (String.◌++◌ "%" (String.◌++◌ (rb.strip q) "%")))
          (book_texts (find_book b.book_id db)
            ++ user_texts (find (λ u. u.id == b.user_id) db.users))

  -- A librarian may see every borrowing, a member those of their own.
  abbrev may_see : User → Borrowing → Bool
  may_see user b = elim user.role [ librarian ↦ true | member ↦ b.user_id == user.id ]

  -- Whether a borrowing is asked for.
  abbrev pub is_asked : User → IndexParams → Database → Borrowing → Bool
  is_asked user p db b =
      may_see user b
      && (asks_status p.status b.status
          && (asks_text (rb.strip (text_or_empty p.q)) db b
              && asks_day p.date (b.borrowed_at / day_ms)))

  abbrev by_due : Option String → Bool
  by_due none = false
  by_due (some text) = str_eq text "due_date"

  -- Whether one borrowing may stand before another: by due date if that is asked for, otherwise by
  -- the time of borrowing, and by the id for equal ones; from the lowest on if "asc" is asked for, or
  -- if due dates are and not "desc", otherwise from the highest on.
  abbrev pub is_before : IndexParams → Borrowing → Borrowing → Bool
  is_before p a b =
      let due = by_due p.sort in
      let word = rb.downcase (text_or_empty p.direction) in
      let x = if due then a.due_date else a.borrowed_at in
      let y = if due then b.due_date else b.borrowed_at in
      if str_eq word "asc" || (due && not (str_eq word "desc"))
      then ltb x y || (x == y && leb a.id b.id)
      else ltb y x || (x == y && leb b.id a.id)

  -- The four texts that are looked for are different ones.
  apart :
      (text : String)
      → (str_eq text "all" ≡ true → is_name text ≡ false)
        × (str_eq text "borrowed" ≡ true
            → (str_eq text "returned" ≡ false) × (str_eq text "overdue" ≡ false))
        × (str_eq text "returned" ≡ true → str_eq text "overdue" ≡ false)
  apart text = (
    λ e. let same : text ≡ "all" = (eq_iff text "all").0 e in rw same refl,
    λ e. let same : text ≡ "borrowed" = (eq_iff text "borrowed").0 e in rw same (refl, refl),
    λ e. let same : text ≡ "returned" = (eq_iff text "returned").0 e in rw same refl,
  )

  status_at :
      (text : String) (status : Status) (b : Borrowing)
      → b.status ≡ status
      → status_filter rb (status_wanted rb (present rb (some text))) b
        ≡ asks_status (some text) status
  unfolding status_of
  status_at text borrowed b h = let (x, y, z) = apart text in rw h (ground (arith, x, y, z))
  status_at text returned b h = let (x, y, z) = apart text in rw h (ground (arith, x, y, z))
  status_at text overdue b h = let (x, y, z) = apart text in rw h (ground (arith, x, y, z))

  status_lem :
      (o : Option String) (b : Borrowing)
      → status_filter rb (status_wanted rb (present rb o)) b ≡ asks_status o b.status
  status_lem none b = refl
  status_lem (some text) b = status_at text b.status b refl

  day_lem :
      (o : Option String) (b : Borrowing)
      → day_filter rb (day_wanted rb (present rb o)) b ≡ asks_day o (b.borrowed_at / day_ms)
  day_lem none b = refl
  day_lem (some text) b = elim (Bool-cases (rb.blank text)) [
    | inl e ↦ rw e refl
    | inr e ↦ rw e (elim (Option-cases (rb.parse_date text)) [
      | inl none_ ↦ rw none_ refl
      | inr (d, some_) ↦ rw some_ refl
    ])
  ]

  matches : String → List String → Bool
  matches q texts =
      any (λ text. rb.ilike text (String.◌++◌ "%" (String.◌++◌ (rb.strip q) "%"))) texts

  user_lem :
      (q : String) (o : Option User) → joined_user rb (pattern_of rb q) o ≡ matches q (user_texts o)
  unfolding matches
  user_lem q none = refl
  user_lem q (some u) = elim (Option-cases u.first_name) [
    | inl f ↦ elim (Option-cases u.last_name) [
      | inl l ↦ rw (f, l) (ground arith)
      | inr (y, l) ↦ rw (f, l) (ground arith)
    ]
    | inr (x, f) ↦ elim (Option-cases u.last_name) [
      | inl l ↦ rw (f, l) (ground arith)
      | inr (y, l) ↦ rw (f, l) (ground arith)
    ]
  ]

  texts_lem :
      (q : String) (book : Option Book) (user : Option User)
      → (joined_book rb (pattern_of rb q) book || joined_user rb (pattern_of rb q) user)
        ≡ matches q (book_texts book ++ user_texts user)
  unfolding matches
  texts_lem q none user = user_lem q user
  texts_lem q (some b) user = let rest = user_lem q user in ground (arith, rest)

  text_lem :
      (q : String) (db : Database) (b : Borrowing) → search_filter rb q db b ≡ asks_text q db b
  unfolding text_search matches
  text_lem q db b =
      let same = texts_lem q (find_book b.book_id db) (find (λ u. u.id == b.user_id) db.users) in
      elim (Bool-cases (rb.blank q)) [ inl e ↦ rw e refl | inr e ↦ rw e same ]

  before_lem : (p : IndexParams) (a b : Borrowing) → row_le (ordering_of rb p) a b ≡ is_before p a b
  unfolding row_le ordering_of
  before_lem p a b = elim (Option-cases p.sort) [
    | inl e ↦ rw e (ground arith)
    | inr (text, e) ↦ rw e (ground arith)
  ]

  own_lem : (user : User) (b : Borrowing) → own_filter rb user b ≡ may_see user b
  own_lem user b = elim (Role-cases user.role) [ inl e ↦ rw e refl | inr e ↦ rw e refl ]

  asked_lem :
      (user : User) (p : IndexParams) (db : Database) (b : Borrowing)
      → is_listed rb user p db b ≡ is_asked user p db b
  unfolding is_listed
  asked_lem user p db b =
      let own : own_filter rb user b ≡ may_see user b = own_lem user b in
      rw
        (own, status_lem p.status b, text_lem (rb.strip (text_or_empty p.q)) db b, day_lem p.date b)
        refl

  -- The list that the pages are cut from holds what is asked for, each borrowing as often as the table
  -- does, and each stands before those that may follow it.
  pub listed_rows-IsSorted :
      (user : User) (p : IndexParams) (db : Database)
      → IsSorted (is_before p) (listed_rows rb user p db)
        × ((q : Borrowing → Bool)
            → count q (listed_rows rb user p db)
              ≡ count (λ b. is_asked user p db b && q b) db.borrowings)
  listed_rows-IsSorted user p db =
      let (sorted, counted) = rows_lem rb user p db in
      (
        subst (λ le. IsSorted le (listed_rows rb user p db))
            (fun_ext (λ a. fun_ext (λ b. before_lem p a b))) sorted,
        λ q.
            counted q
            ∙ ap (λ f. count (λ b. f b && q b) db.borrowings)
                (fun_ext (λ b. asked_lem user p db b)),
      )
