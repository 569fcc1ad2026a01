-- ===== src/Modal/Defs.antt =====
-- The dialog, and the keyboard listener that its effect puts on the document while it is open.
use ror_books_test.Prelude.{
  ℕ, ◌+◌, String, Option, none, some, Bool, true, false, not, ◌&&◌, ◌==◌, List, [], ◌∷◌, ◌++◌, map,
  keep, str_eq, truthy, if◌then◌else◌,
}

-- A listener of the document: a function with its identity, and the `onClose` that it calls.
pub record Listener (H : Type 0) : Type 0 where
  pub id : ℕ
  pub on_close : H

-- The document's listeners for "keydown", and an identity above all of them.
pub record Document (H : Type 0) : Type 0 where
  pub listeners : List (Listener H)
  pub fresh : ℕ

-- The properties of the last render, and the listener that the last effect has added.
pub record Dialog (H : Type 0) : Type 0 where
  pub is_open : Bool
  pub on_close : H
  pub added : Option ℕ

abbrev pub same_bool : Bool → Bool → Bool
same_bool true b = b
same_bool false b = not b

module _ {H : Type 0} where
  -- `removeEventListener`, which compares functions by identity.
  unfoldable pub remove_listener : ℕ → Document H → Document H
  remove_listener id doc = record doc { listeners = keep (λ l. not (l.id == id)) doc.listeners }

  -- `addEventListener` of a new function.
  unfoldable pub add_listener : H → Document H → Document H × ℕ
  add_listener on_close doc = (
    record doc {
      listeners = doc.listeners ++ record { id = doc.fresh; on_close = on_close } ∷ [];
      fresh = doc.fresh + 1;
    },
    doc.fresh,
  )

  -- The function that the effect returns, if it returned one.
  unfoldable pub cleanup : Option ℕ → Document H → Document H
  unfolding remove_listener
  cleanup none doc = doc
  cleanup (some id) doc = remove_listener id doc

  -- The body of the effect.
  unfoldable pub effect : Bool → H → Document H → Document H × Dialog H
  unfolding add_listener
  effect false on_close doc = (doc, record { is_open = false; on_close = on_close; added = none })
  effect true on_close doc =
      let (after, id) = add_listener on_close doc in
      (after, record { is_open = true; on_close = on_close; added = some id })

  unfoldable pub mounted : Bool → H → Document H → Document H × Dialog H
  unfolding effect
  mounted is_open on_close doc = effect is_open on_close doc

  -- A render with new properties: the effect runs again if one of them has changed.
  unfoldable pub rendered :
      (H → H → Bool) → Bool → H → Document H × Dialog H → Document H × Dialog H
  unfolding effect cleanup
  rendered same is_open on_close (doc, m) =
      if same_bool is_open m.is_open && same on_close m.on_close
      then (doc, m)
      else effect is_open on_close (cleanup m.added doc)

  unfoldable pub unmounted : Document H × Dialog H → Document H
  unfolding cleanup
  unmounted (doc, m) = cleanup m.added doc

  -- The `onClose`s that a key calls, in order.
  unfoldable pub key_pressed : String → Document H → List H
  key_pressed key doc = if str_eq key "Escape" then map (λ l. l.on_close) doc.listeners else []

  -- A click on the backdrop, which stands while the dialog does.
  unfoldable pub backdrop_clicked : Dialog H → List H
  backdrop_clicked m = if m.is_open then m.on_close ∷ [] else []

-- Whether the dialog, its title and its footer stand.
pub record View : Type 0 where
  pub has_title : Bool
  pub has_footer : Bool

unfoldable pub view : {H : Type 0} → Option String → Bool → Dialog H → Option View
view title footer m =
    if m.is_open
    then some (record {
      has_title = elim title [ none ↦ false | some text ↦ truthy text ];
      has_footer = footer;
    })
    else none
