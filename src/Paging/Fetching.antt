-- ===== src/Paging/Fetching.antt =====
-- A list that an effect fetches: `useEffect(() => { load(); }, [key])`. The requests in flight are
-- kept oldest first; nothing cancels one, and any of them may be answered next.
use ror_books_test.Prelude.{
  ℕ, zero, suc, Option, none, some, List, [], ◌∷◌, ◌++◌, Bool, if◌then◌else◌,
}
use ror_books_test.Api.{Reply, ok, failed}

pub record Listing (K A : Type 0) : Type 0 where
  pub key : K
  pub items : List A
  pub in_flight : List K

-- `res?.data` of a list request: `none` for an answer without a body.
abbrev pub ListReply : Type 0 → Type 0
ListReply A = Reply (Option (List A))

-- The librarian's pages: `setItems(res.data)`, and `setItems([])` on a bad or failed answer.
unfoldable pub shown_items : {A : Type 0} → ListReply A → List A
shown_items (ok (some items)) = items
shown_items (ok none) = []
shown_items (failed e) = []

-- The requests without the one at a place.
abbrev pub without {ℓ} : {K : Type ℓ} → ℕ → List K → List K
without i [] = []
without zero (k ∷ ks) = ks
without (suc i) (k ∷ ks) = k ∷ without i ks

module _ {K A : Type 0} where
  -- The first mount: an empty list, and the first request.
  abbrev pub mount : K → Listing K A
  mount key = record { key = key; items = []; in_flight = key ∷ [] }

  -- The query becomes `key`; the effect runs if that is a change.
  unfoldable pub change_key : (K → K → Bool) → K → Listing K A → Listing K A
  change_key same key l =
      if same key l.key then l else record l { key = key; in_flight = l.in_flight ++ key ∷ [] }

  -- `load()` called by a handler that was made for `key`.
  unfoldable pub reload : K → Listing K A → Listing K A
  reload key l = record l { in_flight = l.in_flight ++ key ∷ [] }

  -- The request at place `i` is answered.
  unfoldable pub deliver : ℕ → ListReply A → Listing K A → Listing K A
  unfolding shown_items
  deliver i reply l = record l { items = shown_items reply; in_flight = without i l.in_flight }

  -- A change of the list by a handler, `setItems((prev) => …)`.
  abbrev pub update_items : (List A → List A) → Listing K A → Listing K A
  update_items f l = record l { items = f l.items }
