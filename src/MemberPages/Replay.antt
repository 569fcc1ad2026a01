-- ===== src/MemberPages/Replay.antt =====
-- What a member's table holds after any requests, told by the requests alone.
use ror_books_test.Prelude.{
  ◌≡◌, refl, ◌∙◌, Option, none, some, List, [], ◌∷◌, ◌++◌, Bool, true, false, Bool-cases, ◌⊎◌, inl,
  inr, if◌then◌else◌,
}
use mathlib.Core.List.{append_assoc, append-nil}
use ror_books_test.Api.{ok, failed, Reply-cases}
use ror_books_test.Paging.{Listing, ListReply, mount, change_key}
use ror_books_test.MemberPages.Defs.{Table, drawn, crashed, table_answered, table_changed}

pub data Event (K : Type 0) : Type 0 where
  change : (K → K) → Event K
  answer : Event K

-- The rows on the screen, if there is one.
pub shown_rows : {K A : Type 0} → Table K A → Option (List A)
shown_rows (drawn l) = some l.items
shown_rows crashed = none

module _ {K A : Type 0} (same : K → K → Bool) (serve : K → ListReply A) where
  -- The oldest request is answered, if there is one.
  oldest : List K → Table K A → Table K A
  oldest [] t = t
  oldest (k ∷ ks) t = table_answered 0 (serve k) t

  step : Event K → Table K A → Table K A
  step (change f) t = table_changed same f t
  step answer crashed = crashed
  step answer (drawn l) = oldest l.in_flight (drawn l)

  pub run : List (Event K) → Table K A → Table K A
  run [] t = t
  run (e ∷ es) t = run es (step e t)

  drain : List K → Table K A → Table K A
  drain [] t = t
  drain (k ∷ ks) t = drain ks (table_answered 0 (serve k) t)

  -- The requests in flight are answered, oldest first.
  pub settle : Table K A → Table K A
  settle (drawn l) = drain l.in_flight (drawn l)
  settle crashed = crashed

  -- The queries that are asked for, one for each change that is one.
  pub asked : K → List (Event K) → List K
  asked key [] = []
  asked key (answer ∷ es) = asked key es
  asked key (change f ∷ es) =
      let rest = asked (f key) es in
      let unchanged = asked key es in if same (f key) key then unchanged else f key ∷ rest

  abbrev after : ListReply A → List A → Option (List A)
  after (ok (some items)) rows = some items
  after (ok none) rows = none
  after (failed e) rows = some rows

  -- The rows of the last query that was not refused; none once an answer has no body.
  pub replay : List K → Option (List A) → Option (List A)
  replay [] rows = rows
  replay (k ∷ ks) none = none
  replay (k ∷ ks) (some rows) = replay ks (after (serve k) rows)

  replay-none : (ks : List K) → replay ks none ≡ none
  unfolding replay
  replay-none [] = refl
  replay-none (k ∷ ks) = refl

  drain-crashed : (ks : List K) → drain ks crashed ≡ crashed
  unfolding drain table_answered
  drain-crashed [] = refl
  drain-crashed (k ∷ ks) = drain-crashed ks

  run-crashed : (es : List (Event K)) → run es crashed ≡ crashed
  unfolding run step table_changed
  run-crashed [] = refl
  run-crashed (change f ∷ es) = run-crashed es
  run-crashed (answer ∷ es) = run-crashed es

  Answered : K → List K → Listing K A → Type 0
  Answered k ks l =
      ((table_answered 0 (serve k) (drawn l) ≡ crashed) × (after (serve k) l.items ≡ none))
      ⊎ ((next : Listing K A) × (table_answered 0 (serve k) (drawn l) ≡ drawn next)
          × (after (serve k) l.items ≡ some next.items)
          × (next.key ≡ l.key)
          × ((l.in_flight ≡ k ∷ ks) → (next.in_flight ≡ ks)))

  Answered-cases : (k : K) (ks : List K) (l : Listing K A) → Answered k ks l
  unfolding Answered table_answered
  Answered-cases k ks l = elim (Reply-cases (serve k)) [
    | inl (none, e) ↦ rw e (inl (refl, refl))
    | inl (some items, e) ↦ rw e (inr (_, refl, refl, refl, λ h. rw h refl))
    | inr (f, e) ↦ rw e (inr (_, refl, refl, refl, λ h. rw h refl))
  ]

  drain_lem :
      (ks : List K) (l : Listing K A) → shown_rows (drain ks (drawn l)) ≡ replay ks (some l.items)
  unfolding drain replay shown_rows Answered
  drain_lem [] l = refl
  drain_lem (k ∷ ks) l = elim (Answered-cases k ks l) [
    | inl (t, a) ↦ rw (t, a, drain-crashed ks, replay-none ks) refl
    | inr (next, t, a, _, _) ↦ rw (t, a) (drain_lem ks next)
  ]

  changed-old :
      (f : K → K) (l : Listing K A)
      → same (f l.key) l.key ≡ true
      → table_changed same f (drawn l) ≡ drawn l
  unfolding table_changed change_key
  changed-old f l old = rw old refl

  changed-new :
      (f : K → K) (l : Listing K A)
      → same (f l.key) l.key ≡ false
      → table_changed same f (drawn l)
        ≡ drawn (record l { key = f l.key; in_flight = l.in_flight ++ f l.key ∷ [] })
  unfolding table_changed change_key
  changed-new f l new = rw new refl

  abbrev Replays : List (Event K) → Listing K A → Type 0
  Replays es l =
      shown_rows (settle (run es (drawn l))) ≡ replay (l.in_flight ++ asked l.key es) (some l.items)

  replay-cong :
      {ks js : List K} {key other : K} (es : List (Event K)) (rows : Option (List A))
      → js ≡ ks
      → other ≡ key
      → replay (js ++ asked other es) rows ≡ replay (ks ++ asked key es) rows
  replay-cong es rows h e = rw (h, e) refl

  oldest-Replays :
      (ks : List K) (es : List (Event K)) (l : Listing K A)
      → l.in_flight ≡ ks
      → ((next : Listing K A) → Replays es next)
      → shown_rows (settle (run es (oldest ks (drawn l))))
        ≡ replay (ks ++ asked l.key es) (some l.items)
  unfolding oldest Answered replay settle shown_rows
  oldest-Replays [] es l h rest = rest l ∙ replay-cong es (some l.items) h refl
  oldest-Replays (k ∷ ks) es l h rest =
      let first_answered : shown_rows (settle (run es (table_answered 0 (serve k) (drawn l))))
          ≡ replay (ks ++ asked l.key es) (after (serve k) l.items) =
        elim (Answered-cases k ks l) [
          | inl (t, a) ↦ rw (t, a, run-crashed es, replay-none (ks ++ asked l.key es)) refl
          | inr (next, t, a, same_key, left) ↦
              rw (t, a) (rest next ∙ replay-cong es (some next.items) (left h) same_key)
        ] in
      first_answered

  run-Replays : (es : List (Event K)) (l : Listing K A) → Replays es l
  unfolding run step settle asked
  run-Replays [] l = rw (append-nil l.in_flight) (drain_lem l.in_flight l)
  run-Replays (change f ∷ es) l = elim (Bool-cases (same (f l.key) l.key)) [
    | inl old ↦ rw (changed-old f l old, old) (run-Replays es l)
    | inr new ↦
        rw (changed-new f l new, new)
          (rw append_assoc at
            (run-Replays es (record l { key = f l.key; in_flight = l.in_flight ++ f l.key ∷ [] })))
  ]
  run-Replays (answer ∷ es) l = oldest-Replays l.in_flight es l refl (λ next. run-Replays es next)

  -- If answers come back in the order of the requests, then after any changes of the query and any
  -- answers, once the requests in flight are answered the page shows the rows of the last query
  -- that was not refused, and nothing if an answer had no body.
  pub settle-run :
      (first : K) (es : List (Event K))
      → shown_rows (settle (run es (drawn (mount first))))
        ≡ replay (first ∷ asked first es) (some [])
  settle-run first es = run-Replays es (mount first)
