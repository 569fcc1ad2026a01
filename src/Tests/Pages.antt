-- ===== src/Tests/Pages.antt =====
-- The member's pages and the dialog.
use ror_books_test.Prelude.{
  ℕ, ◌≡◌, some, Bool, true, false, List, [], ◌∷◌, ◌++◌, ◌==◌, none, str_eq, String, truthy,
  if◌then◌else◌, arith,
}
use ror_books_test.Api.{ok, failed}
use ror_books_test.Paging.{Search, no_search, same_search, type_query, mount, ListReply}
use ror_books_test.MemberPages.{Book, drawn}
use ror_books_test.MemberPages.Replay
use ror_books_test.MemberPages.Replay.{Event, change, answer}
use ror_books_test.QuickSearch.{Box, empty, timer_fired, shown}
use ror_books_test.QuickSearch.Shown
use ror_books_test.Modal.{Document, mounted, key_pressed, backdrop_clicked, unmounted}
use ror_books_test.Modal.Escape
use ror_books_test.Tests.Data.{refusal}

abbrev emma : Book
emma = record {
  id = 3;
  title = "Emma";
  author = "Jane Austen";
  genre = "Novel";
  isbn = "978-0141439587";
  can_borrow = true;
}

-- The server knows one book, and fails on any search.
abbrev shelf : Search → ListReply Book
shelf key = elim (str_eq key.q "") [ true ↦ ok (some (emma ∷ [])) | false ↦ failed refusal ]

abbrev searching : List (Event Search)
searching = change (type_query "Em") ∷ answer ∷ change (type_query "Emm") ∷ answer ∷ []

settle-run_example :
    Replay.shown_rows (
      Replay.settle same_search shelf
        (Replay.run same_search shelf searching (drawn (mount no_search))))
    ≡ Replay.replay same_search shelf
        (no_search ∷ Replay.asked same_search shelf no_search searching)
        (some [])
settle-run_example = Replay.settle-run same_search shelf no_search searching

abbrev other_listener : Document ℕ
other_listener = record { listeners = record { id = 0; on_close = 7 } ∷ []; fresh = 1 }

abbrev nat_eq : ℕ → ℕ → Bool
nat_eq a b = a == b

nat_eq_sound : (a b : ℕ) → nat_eq a b ≡ true → a ≡ b
nat_eq_sound a b h = ground (arith, h)

abbrev renders : List (Bool × ℕ)
renders = (true, 1) ∷ (true, 1) ∷ (true, 2) ∷ (false, 2) ∷ (true, 3) ∷ []

escape-calls_example :
    let s = Escape.run nat_eq renders (mounted false 1 other_listener) in
    let final = Escape.last (false, 1) renders in
    (key_pressed "Escape" s.0 ≡ key_pressed "Escape" other_listener ++ Escape.calls final.0 final.1)
    × (backdrop_clicked s.1 ≡ Escape.calls final.0 final.1)
    × ((unmounted s).listeners ≡ other_listener.listeners)
escape-calls_example =
    Escape.escape-calls nat_eq nat_eq_sound other_listener (omega arith, tt) (false, 1) renders

abbrev found : String → List ℕ
found text = elim (str_eq text "du") [ true ↦ 1 ∷ 2 ∷ [] | false ↦ 3 ∷ [] ]

abbrev typing : List Shown.Event
typing = Shown.type "d" ∷ Shown.fire ∷ Shown.type "" ∷ Shown.type "du" ∷ Shown.answer ∷ []

shown-drain_example :
    let b : Box ℕ = timer_fired (Shown.run found typing empty) in
    let q = Shown.text_after "" typing in
    shown (Shown.drain found b.in_flight b) ≡ (if truthy q then some (found q) else none)
shown-drain_example = Shown.shown-drain found typing
