-- ===== src/Paging/Order.antt =====
-- Which query the list on the screen belongs to.
use ror_books_test.Prelude.{◌≡◌, refl, List, [], ◌∷◌, Bool, false, Bool-cases, inl, inr}
use ror_books_test.Paging.Tracking.{Tracks, Tracks-start, Tracks-end, Tracks-push, Tracks-answer}
use ror_books_test.Paging.Fetching.{Listing, ListReply, shown_items, mount, change_key, deliver}

-- The events of a list whose answers come back in the order of the requests.
pub data Event (K : Type 0) : Type 0 where
  change : K → Event K
  answer : Event K

module _ {K A : Type 0} (same : K → K → Bool) (serve : K → ListReply A) where
  -- The oldest request is answered, if there is one.
  answer_oldest : List K → Listing K A → Listing K A
  answer_oldest [] l = l
  answer_oldest (k ∷ ks) l = deliver 0 (serve k) l

  step : Event K → Listing K A → Listing K A
  step (change key) l = change_key same key l
  step answer l = answer_oldest l.in_flight l

  -- The state after a sequence of events.
  pub run : List (Event K) → Listing K A → Listing K A
  run [] l = l
  run (e ∷ es) l = run es (step e l)

  abbrev rows : K → List A
  rows k = shown_items (serve k)

  answer_oldest-Tracks :
      (ks : List K) (l : Listing K A)
      → l.in_flight ≡ ks
      → Tracks rows l.in_flight l.key l.items
      → Tracks rows
          (answer_oldest ks l).in_flight
          (answer_oldest ks l).key
          (answer_oldest ks l).items
  unfolding answer_oldest deliver
  answer_oldest-Tracks [] l e h = h
  answer_oldest-Tracks (k ∷ ks) l e h = rw e (Tracks-answer rows k ks l.key l.items (rw e at h))

  abbrev IsTracking : Listing K A → Type 0
  IsTracking l = Tracks rows l.in_flight l.key l.items

  change-IsTracking :
      (key : K) (l : Listing K A) → IsTracking l → IsTracking (change_key same key l)
  unfolding change_key
  change-IsTracking key l h = elim (Bool-cases (same key l.key)) [
    | inl old ↦ rw old h
    | inr new ↦ rw new (Tracks-push rows l.in_flight key key l.items refl)
  ]

  run-IsTracking : (es : List (Event K)) (l : Listing K A) → IsTracking l → IsTracking (run es l)
  unfolding run step
  run-IsTracking [] l h = h
  run-IsTracking (change key ∷ es) l h =
      run-IsTracking es (change_key same key l) (change-IsTracking key l h)
  run-IsTracking (answer ∷ es) l h =
      run-IsTracking es (answer_oldest l.in_flight l) (answer_oldest-Tracks l.in_flight l refl h)

  -- All requests in flight are answered, oldest first.
  pub drain : List K → Listing K A → Listing K A
  drain [] l = l
  drain (k ∷ ks) l = drain ks (deliver 0 (serve k) l)

  drain_lem :
      (ks : List K) (l : Listing K A)
      → l.in_flight ≡ ks
      → Tracks rows ks l.key l.items
      → ((drain ks l).in_flight ≡ [])
        × ((drain ks l).key ≡ l.key)
        × ((drain ks l).items ≡ shown_items (serve l.key))
  unfolding drain deliver
  drain_lem [] l e h = (e, refl, Tracks-end rows l.key l.items h)
  drain_lem (k ∷ ks) l e h =
      drain_lem ks (deliver 0 (serve k) l) (rw e) (Tracks-answer rows k ks l.key l.items h)

  -- If answers come back in the order of the requests, then after any changes of the query and any
  -- answers, once the requests in flight are answered the list is what the server holds for the
  -- query on the screen.
  pub drain-run :
      (first : K) (es : List (Event K))
      → let l = run es (mount first) in
        let settled = drain l.in_flight l in
        (settled.in_flight ≡ [])
        × (settled.key ≡ l.key)
        × (settled.items ≡ shown_items (serve l.key))
  drain-run first es =
      let l = run es (mount first) in
      drain_lem l.in_flight l refl (run-IsTracking es (mount first) (Tracks-start rows first []))

  -- If the answers to two requests are swapped, the list on the screen belongs to the query that
  -- was left, and no request is in flight that would mend it.
  pub stale_items :
      (k j : K)
      → same j k ≡ false
      → let l = deliver 0 (serve k) (deliver 1 (serve j) (change_key same j (mount k))) in
        (l.in_flight ≡ []) × (l.key ≡ j) × (l.items ≡ shown_items (serve k))
  unfolding deliver change_key
  stale_items k j h = rw h (refl, refl, refl)
