-- ===== src/Paging/Tracking.antt =====
-- Requests that are answered in their order, and what they leave on the screen in the end.
use ror_books_test.Prelude.{◌≡◌, refl, ap, List, [], ◌∷◌, ◌++◌}

-- `rows` is what the screen shows once the answer for a query is there.
module _ {K A : Type 0} (rows : K → List A) where
  -- The last request is for the query on the screen; once all are answered, so are the items.
  pub Tracks : List K → K → List A → Type 0
  Tracks [] key items = items ≡ rows key
  Tracks (k ∷ []) key items = k ≡ key
  Tracks (k ∷ j ∷ ks) key items = Tracks (j ∷ ks) key items

  pub Tracks-start : (key : K) (items : List A) → Tracks (key ∷ []) key items
  unfolding Tracks
  Tracks-start key items = refl

  pub Tracks-end : (key : K) (items : List A) → Tracks [] key items → items ≡ rows key
  unfolding Tracks
  Tracks-end key items h = h

  pub Tracks-push :
      (ks : List K) (k key : K) (items : List A) → k ≡ key → Tracks (ks ++ k ∷ []) key items
  unfolding Tracks
  Tracks-push [] k key items e = e
  Tracks-push (j ∷ []) k key items e = e
  Tracks-push (i ∷ j ∷ ks) k key items e = Tracks-push (j ∷ ks) k key items e

  -- While a request is in flight, the items do not matter.
  Tracks-items :
      (k : K) (ks : List K) (key : K) (items other : List A)
      → Tracks (k ∷ ks) key items
      → Tracks (k ∷ ks) key other
  unfolding Tracks
  Tracks-items k [] key items other h = h
  Tracks-items k (j ∷ ks) key items other h = Tracks-items j ks key items other h

  pub Tracks-answer :
      (k : K) (ks : List K) (key : K) (items : List A)
      → Tracks (k ∷ ks) key items
      → Tracks ks key (rows k)
  unfolding Tracks
  Tracks-answer k [] key items h = ap rows h
  Tracks-answer k (j ∷ ks) key items h = Tracks-items j ks key items (rows k) h
