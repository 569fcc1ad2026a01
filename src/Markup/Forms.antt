-- ===== src/Markup/Forms.antt =====
-- The pages of frontend/src/pages/Login.tsx and frontend/src/pages/Account.tsx.
pub mod Submits
use ror_books_test.Prelude.{
  String, Option, none, some, Bool, true, false, List, [], ◌∷◌, ◌++◌, if◌then◌else◌,
}
use ror_books_test.Auth.{State}
use ror_books_test.Login as Login
use ror_books_test.Account as Account
use ror_books_test.Account.{Page}
use ror_books_test.Controls.Button
use ror_books_test.Markup.Nodes.{
  Node, Attribute, element, class_name, property, on_click, on_submit, on_change, disabled,
  children, words_node,
}
use ror_books_test.Markup.Parts.{div, titled_card, input, button}

-- The fields of the two pages.
pub data Field : Type 0 where
  email password first_name last_name current_password confirmation : Field

pub data Event : Type 0 where
  filled : Field → String → Event
  submitted saved changed signed_out : Event

abbrev login_label : String → String → Node Event
login_label field_id label =
    element "label"
      (property "htmlFor" field_id ∷ class_name "block text-sm font-medium text-slate-700" ∷ [])
      (children (words_node label ∷ []))

-- An input of the login form.
abbrev login_input : String → String → String → String → Field → Node Event
login_input field_id auto_complete placeholder value field =
    element "input"
      (property "id" field_id
        ∷ property "type" field_id
        ∷ property "autoComplete" auto_complete
        ∷ property "required" "true"
        ∷ class_name
            "mt-1 block w-full rounded-lg border border-slate-200 bg-white px-3 py-2 text-slate-900 placeholder-slate-400 shadow-sm focus:border-blue-500 focus:outline-none focus:ring-2 focus:ring-blue-500"
        ∷ property "placeholder" placeholder
        ∷ property "value" value
        ∷ on_change (filled field)
        ∷ [])
      (children [])

-- `text && <div className=…>{text}</div>`
abbrev pub banner_nodes : String → Option String → List (Node Event)
banner_nodes classes none = []
banner_nodes classes (some text) = div classes (words_node text ∷ []) ∷ []

-- What `Login` returns.
unfoldable pub login_page : State → Login.Form → Node Event
login_page state form =
    let shown = Login.view state in
    div
      "min-h-screen bg-gradient-to-br from-slate-50 to-blue-50 flex items-center justify-center p-6"
      (div
          "w-full max-w-md bg-white/90 backdrop-blur-sm rounded-2xl shadow-xl ring-1 ring-slate-200"
          (div "p-8" (
              element "h1" (class_name "text-2xl font-semibold tracking-tight text-slate-900" ∷ [])
                (children (words_node "Welcome back" ∷ []))
              ∷ element "p" (class_name "mt-1 text-sm text-slate-600" ∷ [])
                  (children (words_node "Sign in to your account" ∷ []))
              ∷ element "form" (on_submit submitted ∷ class_name "mt-6 space-y-4" ∷ []) (
                  children (
                    element "div" [] (
                        children (
                          login_label "email" "Email"
                          ∷ login_input "email" "email" "you@example.com" form.email email
                          ∷ []))
                      ∷ element "div" [] (
                          children (
                            login_label "password" "Password"
                            ∷ login_input "password" "current-password" "••••••••" form.password
                                password
                            ∷ []))
                      ∷ banner_nodes
                          "rounded-lg border border-red-200 bg-red-50 px-3 py-2 text-sm text-red-700"
                          (Account.banner shown.error)
                    ++ element "button"
                        (class_name
                            "w-full inline-flex items-center justify-center rounded-lg bg-blue-600 px-4 py-2.5 text-white font-medium shadow-sm hover:bg-blue-700 focus:outline-none focus:ring-2 focus:ring-blue-500 focus:ring-offset-2 disabled:opacity-60 disabled:cursor-not-allowed"
                          ∷ disabled shown.disabled
                          ∷ [])
                        (children (words_node shown.button ∷ []))
                      ∷ []))
              ∷ [])
            ∷ [])
        ∷ [])

-- A label of the account page with its input.
abbrev account_input : String → List (Attribute Event) → String → Field → Node Event
account_input label type value field = element "div" [] (
    children (
      element "label" (class_name "mb-1 block text-sm text-gray-600" ∷ [])
        (children (words_node label ∷ []))
      ∷ input none none none (type ++ (property "value" value ∷ on_change (filled field) ∷ []))
      ∷ []))

abbrev hidden : List (Attribute Event)
hidden = property "type" "password" ∷ []

abbrev submit_button : Bool → String → Node Event
submit_button is_disabled label = element "div" [] (
    children (
      button none none (property "type" "submit" ∷ disabled is_disabled ∷ [])
        (words_node label ∷ [])
      ∷ []))

unfoldable pub profile_card : Page → Account.View → Node Event
unfolding titled_card button
profile_card p v = titled_card "Profile" (
    element "form" (class_name "space-y-3" ∷ on_submit saved ∷ []) (
      children (
        div "grid gap-3 sm:grid-cols-2" (
          account_input "First name" [] p.profile.first_name first_name
          ∷ account_input "Last name" [] p.profile.last_name last_name
          ∷ [])
        ∷ account_input "Email" (property "type" "email" ∷ []) p.profile.email email
        ∷ submit_button v.save_disabled v.save_text
        ∷ []))
    ∷ [])

unfoldable pub password_card : Page → Account.View → Node Event
unfolding titled_card button
password_card p v = titled_card "Password" (
    element "form" (class_name "space-y-3" ∷ on_submit changed ∷ []) (
      children (
        account_input "Current password" hidden p.passwords.current_password current_password
        ∷ div "grid gap-3 sm:grid-cols-2" (
            account_input "New password" hidden p.passwords.password password
            ∷ account_input "Confirm new password" hidden p.passwords.password_confirmation
                confirmation
            ∷ [])
        ∷ submit_button v.change_disabled v.change_text
        ∷ []))
    ∷ [])

unfoldable pub sign_out_card : Node Event
unfolding titled_card button
sign_out_card = titled_card "Sign out" (
    div "flex items-center justify-between" (
      div "text-sm text-gray-600" (words_node "Sign out of your account on this device." ∷ [])
      ∷ button (some Button.danger) none (on_click signed_out ∷ []) (words_node "Logout" ∷ [])
      ∷ [])
    ∷ [])

abbrev loaded_page : Page → Option Account.View → Node Event
loaded_page p none = element "div" [] (children (words_node "Loading…" ∷ []))
loaded_page p (some v) = div "space-y-6" (
    element "h1" (class_name "text-xl font-semibold tracking-tight" ∷ [])
        (children (words_node "Account settings" ∷ []))
      ∷ banner_nodes "rounded border border-green-200 bg-green-50 p-3 text-sm text-green-800"
          v.message
    ++ (banner_nodes "rounded border border-red-200 bg-red-50 p-3 text-sm text-red-800" v.error
        ++ (profile_card p v ∷ password_card p v ∷ sign_out_card ∷ [])))

-- What `Account` returns.
unfoldable pub account_page : Page → Node Event
account_page p = loaded_page p (Account.view p)
