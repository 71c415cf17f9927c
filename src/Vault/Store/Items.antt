-- ===== src/Vault/Store/Items.antt =====
-- The single-item operations of `Vault` in vault/store.rs. Each changes the list in memory, saves,
-- and undoes its own change if the save fails.
pub mod Rollback
use secret_manager.Base.{
  ℕ, ◌+◌, Bool, true, false, Option, none, some, List, [], ◌∷◌, ◌++◌, if◌then◌else◌, length, set,
  Bytes, Text, text_eq, ok, err, ◌>>=◌, ◌>>◌,
}
use secret_manager.Vault.Types.{Attributes, CapViolation, Item, VaultError}
use secret_manager.Vault.Crates.{Crates}
use secret_manager.Vault.Caps.{check_caps}
use secret_manager.Vault.Os.{Os}
use secret_manager.Vault.Collection.{State, locked, unlocked, Vault, Step, items}
use secret_manager.Vault.Store.Delta.{
  attributes_eq, position, remove_at, pushed, replaced, removed, with_items, restore_delta,
  too_large, check_item_caps, save_or_restore, returning,
}

module _ {World : Type 0} (c : Crates) (os : Os World) where
  -- `insert_item` behind its checks. A replaced item keeps its id, attributes and creation time.
  unfoldable pub put_at :
      Bytes
      → List Item
      → Text
      → Bytes
      → Text
      → ℕ
      → ℕ × Item
      → Vault
      → World
      → Step World (Text × Bool)
  put_at key list label secret content_type t (p, prior) v w =
      let next = record prior {
        label = label;
        secret = secret;
        content_type = content_type;
        modified = t;
      } in
      returning (prior.id, true)
        (save_or_restore c os restore_delta (replaced p prior) (with_items v key (set list p next))
          w)

  unfoldable pub push_new :
      Bytes
      → List Item
      → Text
      → Attributes
      → Bytes
      → Text
      → ℕ
      → Vault
      → Text × World
      → Step World (Text × Bool)
  push_new key list label attributes secret content_type t v (id, w) =
      let next : Item = record {
        id = id;
        label = label;
        attributes = attributes;
        secret = secret;
        content_type = content_type;
        created = t;
        modified = t;
      } in
      returning (id, false)
        (save_or_restore c os restore_delta pushed (with_items v key (list ++ next ∷ [])) w)

  unfoldable pub insert_found :
      Bytes
      → List Item
      → Text
      → Attributes
      → Bytes
      → Text
      → ℕ
      → Vault
      → World
      → Option (ℕ × Item)
      → Step World (Text × Bool)
  unfolding put_at push_new
  insert_found key list label attributes secret content_type t v w (some found) =
      put_at key list label secret content_type t found v w
  insert_found key list label attributes secret content_type t v w none =
      push_new key list label attributes secret content_type t v (os.new_uuid w)

  abbrev pub same_attributes : Attributes → Item → Bool
  same_attributes attributes i = attributes_eq i.attributes attributes

  unfoldable pub insert_unchecked :
      Text → Attributes → Bytes → Text → Bool → Vault → State → ℕ × World → Step World (Text × Bool)
  unfolding insert_found position attributes_eq
  insert_unchecked label attributes secret content_type replace v locked (t, w) =
      (err VaultError.locked, v, w)
  insert_unchecked label attributes secret content_type replace v (unlocked key list) (t, w) =
      insert_found key list label attributes secret content_type t v w
        (if replace then position (same_attributes attributes) list else none)

  unfoldable pub insert_item :
      Text → Attributes → Bytes → Text → Bool → Vault → World → Step World (Text × Bool)
  unfolding insert_unchecked
  insert_item label attributes secret content_type replace v w =
      let checked =
        items v >>= λ _. check_item_caps label attributes (length secret) content_type in
      elim checked [
        | err e ↦ (err e, v, w)
        | ok _ ↦ insert_unchecked label attributes secret content_type replace v v.state (os.now w)
      ]

  -- `update_item`: the caps are checked on what the closure made of the item.
  unfoldable pub update_checked :
      Bytes
      → List Item
      → ℕ
      → Item
      → Item
      → Vault
      → World
      → Option CapViolation
      → Step World (Unit {0})
  update_checked key list p prior next v w (some x) =
      (err (too_large x), with_items v key (set (set list p next) p prior), w)
  update_checked key list p prior next v w none =
      save_or_restore c os restore_delta (replaced p prior) (with_items v key (set list p next)) w

  abbrev pub caps_of : Item → Option CapViolation
  caps_of i = check_caps i.label i.attributes (length i.secret) i.content_type

  unfoldable pub update_found :
      Text
      → (Item → Item)
      → Bytes
      → List Item
      → Vault
      → World
      → Option (ℕ × Item)
      → Step World (Unit {0})
  unfolding update_checked too_large
  update_found id f key list v w none = (err (VaultError.no_such_item id), v, w)
  update_found id f key list v w (some (p, prior)) =
      let (t, w1) = os.now w in
      let next = record (f prior) { modified = t } in
      update_checked key list p prior next v w1 (caps_of next)

  abbrev pub has_id : Text → Item → Bool
  has_id id i = text_eq i.id id

  unfoldable pub update_state : Text → (Item → Item) → Vault → World → State → Step World (Unit {0})
  unfolding update_found position
  update_state id f v w locked = (err VaultError.locked, v, w)
  update_state id f v w (unlocked key list) =
      update_found id f key list v w (position (has_id id) list)

  unfoldable pub update_item : Text → (Item → Item) → Vault → World → Step World (Unit {0})
  unfolding update_state
  update_item id f v w = update_state id f v w v.state

  unfoldable pub delete_found :
      Text → Bytes → List Item → Vault → World → Option (ℕ × Item) → Step World (Unit {0})
  unfolding remove_at
  delete_found id key list v w none = (err (VaultError.no_such_item id), v, w)
  delete_found id key list v w (some (p, prior)) =
      save_or_restore c os restore_delta (removed p prior) (with_items v key (remove_at p list)) w

  unfoldable pub delete_state : Text → Vault → World → State → Step World (Unit {0})
  unfolding delete_found position
  delete_state id v w locked = (err VaultError.locked, v, w)
  delete_state id v w (unlocked key list) = delete_found id key list v w (position (has_id id) list)

  unfoldable pub delete_item : Text → Vault → World → Step World (Unit {0})
  unfolding delete_state
  delete_item id v w = delete_state id v w v.state
