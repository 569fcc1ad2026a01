-- ===== src/Borrowings/Returns.antt =====
-- A return, from the confirmation to the list that shows it.
use ror_books_test.Prelude.{
  ℕ, zero, suc, ◌≡◌, ◌<◌, ◌-◌, ◌==◌, ltb, refl, ap, sym, ◌∙◌, Option, none, some, true, false, List,
  [], ◌∷◌, ◌++◌, arith, length,
}
use ror_books_test.Api.{ok, failed, Failure}
use ror_books_test.Paging.{ListReply, shown_items, deliver, change_key, reload}
use ror_books_test.Borrowings.Query.{Filters, or_undefined}
use ror_books_test.Borrowings.Counter.{
  Borrowing, Desk, Return, same_filters, change_filters, borrowings_answered, confirm_clicked,
  return_answered, close_return, view,
}

confirm-filters : (d : Desk) (r : Return) → (confirm_clicked d).1 ≡ some r → r.filters ≡ d.list.key
unfolding confirm_clicked
confirm-filters d r h = ground arith

sent_stays : (d : Desk) (r : Return) → (confirm_clicked d).1 ≡ some r → (confirm_clicked d).0 ≡ d
unfolding confirm_clicked
sent_stays d r h = ground (arith, h)

-- Other requests of the list, each by its place, and what they are answered.
pub answer_all : List (ℕ × ListReply Borrowing) → Desk → Desk
answer_all [] d = d
answer_all ((i, reply) ∷ answers) d = answer_all answers (borrowings_answered i reply d)

-- Each is one of the requests before place `m`, which moves up as they go.
unfoldable pub AreOlder : ℕ → List (ℕ × ListReply Borrowing) → Type 0
AreOlder m [] = Unit
AreOlder m ((i, reply) ∷ answers) = (i < m) × AreOlder (m - 1) answers

older_answered :
    (i m : ℕ) (reply : ListReply Borrowing) (d : Desk)
    → i < m
    → d.closing ≡ m ∷ []
    → borrowings_answered i reply d
      ≡ record d { list = deliver i reply d.list; closing = (m - 1) ∷ [] }
unfolding borrowings_answered
older_answered i m reply d less waits =
    let other : (m == i) ≡ false = ground (arith, less) in
    let above : ltb i m ≡ true = ground (arith, less) in rw (waits, other, above) refl

-- What stays while a return waits for its list.
record IsWaiting (m : ℕ) (d e : Desk) : Type 0 where
  place : e.closing ≡ m ∷ []
  same_key : e.list.key ≡ d.list.key
  same_dialog : e.returning_id ≡ d.returning_id
  same_alerts : e.alerts ≡ d.alerts

answer_all-IsWaiting :
    (answers : List (ℕ × ListReply Borrowing)) (m : ℕ) (d e : Desk)
    → AreOlder m answers
    → IsWaiting m d e
    → IsWaiting (m - length answers) d (answer_all answers e)
unfolding answer_all AreOlder deliver
answer_all-IsWaiting [] m d e older h = let same : m - 0 ≡ m = omega arith in rw same h
answer_all-IsWaiting ((i, reply) ∷ answers) m d e older h =
    let went = older_answered i m reply e older.0 h.place in
    let rest =
      answer_all-IsWaiting answers (m - 1) d
        (record e { list = deliver i reply e.list; closing = (m - 1) ∷ [] }) older.1
        (record {
          place = refl;
          same_key = h.same_key;
          same_dialog = h.same_dialog;
          same_alerts = h.same_alerts;
        }) in
    let count : m - 1 - length answers ≡ m - length ((i, reply) ∷ answers) = omega arith in
    rw (went, sym count) rest

-- The list that a return waits for is answered.
waited_answered :
    (m : ℕ) (reply : ListReply Borrowing) (d e : Desk)
    → IsWaiting m d e
    → let after = borrowings_answered m reply e in
      (after.list.key ≡ d.list.key)
      × (after.list.items ≡ shown_items reply)
      × ((view after).modal_open ≡ false)
      × (after.return_comment ≡ "")
      × (after.alerts ≡ d.alerts)
unfolding borrowings_answered close_return view deliver
waited_answered m reply d e h =
    let here : (m == m) ≡ true = ground arith in
    rw (h.place, here) (h.same_key, refl, refl, refl, h.same_alerts)

is_open : (d : Desk) (r : Return) → (confirm_clicked d).1 ≡ some r → (view d).modal_open ≡ true
unfolding confirm_clicked view
is_open d r h = ground (arith, h)

-- A return that is confirmed and accepted, with no other return under way, and the filters staying:
-- while requests of the list that were in flight before are answered, in any order and however, the
-- dialog stays open. Once the list that the return loads is answered, the dialog is closed with an
-- empty comment, the list is what that answer holds for the filters on the screen, and there is no
-- alert.
pub return_accepted :
    (serve : Filters → ListReply Borrowing) (d : Desk) (r : Return)
    (answers : List (ℕ × ListReply Borrowing))
    → (confirm_clicked d).1 ≡ some r
    → d.closing ≡ []
    → AreOlder (length d.list.in_flight) answers
    → let waiting = answer_all answers (return_answered r (ok tt) (confirm_clicked d).0) in
      let after =
        borrowings_answered (length d.list.in_flight - length answers) (serve r.filters) waiting in
      ((view waiting).modal_open ≡ true)
      × (after.list.key ≡ d.list.key)
      × (after.list.items ≡ shown_items (serve d.list.key))
      × ((view after).modal_open ≡ false)
      × (after.return_comment ≡ "")
      × (after.alerts ≡ d.alerts)
unfolding return_answered reload view
return_accepted serve d r answers sent alone older =
    let m = length d.list.in_flight in
    let stays : (confirm_clicked d).0 ≡ d = sent_stays d r sent in
    let start : IsWaiting m d (return_answered r (ok tt) (confirm_clicked d).0) =
      rw (stays, alone)
        (record { place = refl; same_key = refl; same_dialog = refl; same_alerts = refl }) in
    let waits = answer_all-IsWaiting answers m d _ older start in
    let done_ = waited_answered (m - length answers) (serve r.filters) d _ waits in
    let same = confirm-filters d r sent in
    (
      ap (λ o. elim o [ none ↦ false | some id ↦ true ]) waits.same_dialog ∙ is_open d r sent,
      done_.0,
      done_.1 ∙ ap (λ k. shown_items (serve k)) same,
      done_.2,
      done_.3,
      done_.4,
    )

module _ (serve : Filters → ListReply Borrowing) (d : Desk) (r : Return)
    (sent : (confirm_clicked d).1 ≡ some r) (quiet : d.list.in_flight ≡ [])
    (alone : d.closing ≡ []) where
  -- If the filters change while the return is on its way, the list ends up with the borrowings of
  -- the filters that were left, though every request is answered in turn: the return loads the list
  -- for the filters of its own click.
  pub return_stale_filters :
      (change : Filters → Filters)
      → same_filters (change d.list.key) d.list.key ≡ false
      → let moved = change_filters change d in
        let listed = borrowings_answered 0 (serve moved.list.key) moved in
        let after = borrowings_answered 0 (serve r.filters) (return_answered r (ok tt) listed) in
        (after.list.key ≡ change d.list.key)
        × (after.list.in_flight ≡ [])
        × (after.list.items ≡ shown_items (serve d.list.key))
  unfolding return_answered borrowings_answered close_return change_filters deliver reload
      change_key
  return_stale_filters change other =
      rw (other, quiet, alone, confirm-filters d r sent) (refl, refl, refl)

-- A return that is refused closes the dialog, adds one alert, and leaves the list as it is.
pub return_refused :
    (d : Desk) (r : Return) (e : Failure)
    → let after = return_answered r (failed e) d in
      ((view after).modal_open ≡ false)
      × (after.alerts ≡ d.alerts ++ "Failed to return book" ∷ [])
      × (after.list ≡ d.list)
unfolding return_answered view
return_refused d r e = (refl, refl, refl)

abbrev add : Option Return → List Return → List Return
add none rs = rs
add (some r) rs = r ∷ rs

-- The returns that so many clicks on "Confirm Return" send before the first is answered.
pub clicks : ℕ → Desk → List Return
clicks zero d = []
clicks (suc n) d = add (confirm_clicked d).1 (clicks n (confirm_clicked d).0)

confirm_open :
    (id : ℕ) (d : Desk)
    → d.returning_id ≡ some id
    → confirm_clicked d ≡ (
      d,
      some (record { id = id; comment = or_undefined d.return_comment; filters = d.list.key }),
    )
unfolding confirm_clicked
confirm_open id d h = ground arith

-- Nothing disables "Confirm Return" while a return is on its way: in an open dialog every click
-- sends the return once more.
pub clicks-length : (n id : ℕ) (d : Desk) → d.returning_id ≡ some id → length (clicks n d) ≡ n
unfolding clicks
clicks-length zero id d h = refl
clicks-length (suc n) id d h = rw (confirm_open id d h) (ap suc (clicks-length n id d h))
