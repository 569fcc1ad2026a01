-- ===== src/Markup/Forms/Submits.antt =====
-- What the account page lets its user do.
use ror_books_test.Prelude.{
  ◌≡◌, refl, ◌∙◌, String, Option, none, some, [], ◌∷◌, if◌then◌else◌, Bool-cases, inl, inr, arith,
}
use mathlib.Core.List.{append-nil}
use ror_books_test.Account.{Page, View, view}
use ror_books_test.Markup.Nodes.{handler, gather, gather_all, clicks, children, gather_all-append}
use ror_books_test.Markup.Clicks.{input-clicks}
use ror_books_test.Markup.Forms.{
  signed_out, banner_nodes, profile_card, password_card, sign_out_card, loaded_page, account_page,
}

banner_clicks :
    (classes : String) (o : Option String)
    → gather_all clicks (children (banner_nodes classes o)) ≡ []
unfolding gather
banner_clicks classes none = refl
banner_clicks classes (some text) = refl

profile_clicks : (p : Page) (v : View) → gather clicks (profile_card p v) ≡ []
unfolding gather profile_card
profile_clicks p v = simp (append-nil, input-clicks) (ground arith)

password_clicks : (p : Page) (v : View) → gather clicks (password_card p v) ≡ []
unfolding gather password_card
password_clicks p v = simp (append-nil, input-clicks) (ground arith)

loaded_clicks :
    (p : Page) (o : Option View)
    → gather clicks (loaded_page p o) ≡ elim o [ none ↦ [] | some v ↦ handler signed_out ∷ [] ]
unfolding gather sign_out_card
loaded_clicks p none = refl
loaded_clicks p (some v) =
    gather_all-append clicks (banner_nodes _ v.message) _
    ∙ (rw
        (
          banner_clicks "rounded border border-green-200 bg-green-50 p-3 text-sm text-green-800"
              v.message,
          gather_all-append clicks
              (banner_nodes "rounded border border-red-200 bg-red-50 p-3 text-sm text-red-800"
                v.error)
              (profile_card p v ∷ password_card p v ∷ sign_out_card ∷ []),
          banner_clicks "rounded border border-red-200 bg-red-50 p-3 text-sm text-red-800" v.error,
          profile_clicks p v,
          password_clicks p v,
        )
        refl)

-- "Logout" is the one thing to click on the rendered account page besides the buttons of its two
-- forms, and there is nothing while it loads.
pub account_page-clicks :
    (p : Page)
    → gather clicks (account_page p) ≡ (if p.loading then [] else handler signed_out ∷ [])
unfolding account_page view
account_page-clicks p = elim (Bool-cases p.loading) [
  | inl e ↦ loaded_clicks p (view p) ∙ (rw e refl)
  | inr e ↦ loaded_clicks p (view p) ∙ (rw e refl)
]
