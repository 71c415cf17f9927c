-- ===== src/Vault/Store/Batch.antt =====
-- The batch operations of `Vault` in vault/store.rs, each one save: all items or none.
pub mod Rollback
use secret_manager.Base.{
  ℕ, zero, suc, ◌+◌, Bool, Option, none, some, List, [], ◌∷◌, ◌++◌, map, leb, if◌then◌else◌, length,
  take, any, Bytes, Text, bytes, text_eq, Result, ok, err, ◌>>=◌, ◌>>◌,
}
use secret_manager.Utf8.{is_char_boundary}
use secret_manager.Sanitize.{escape_control}
use secret_manager.Vault.Types.{CapViolation, Item, ImportItem, VaultError}
use secret_manager.Vault.Crates.{Crates}
use secret_manager.Vault.Caps.{check_caps}
use secret_manager.Vault.Os.{Os}
use secret_manager.Vault.Collection.{State, locked, unlocked, Vault, Step, items, check_label}
use secret_manager.Vault.Store.Delta.{
  removed_many, with_items, restore_delta, truncate_items, save_or_restore,
}

-- `(0..=MAX).rev().find(|i| escaped.is_char_boundary(*i)).unwrap_or(0)`
unfoldable pub boundary_below : Text → ℕ → ℕ
boundary_below t zero = 0
boundary_below t (suc i) =
    let lower = boundary_below t i in if is_char_boundary t (suc i) then suc i else lower

abbrev pub excerpt_max : ℕ
excerpt_max = 64

unfoldable pub label_excerpt : Text → Text
unfolding boundary_below
label_excerpt label =
    let escaped = escape_control label in
    if leb (length escaped) excerpt_max
    then escaped
    else take (boundary_below escaped excerpt_max) escaped ++ bytes "..."

abbrev refuse_import : ℕ → Text → Option CapViolation → Result VaultError (Unit {0})
refuse_import index label none = ok tt
refuse_import index label (some x) =
    err (VaultError.import_too_large index (label_excerpt label) x.cap x.actual x.limit)

unfoldable pub check_import_item : ℕ → ImportItem → Result VaultError (Unit {0})
check_import_item index i =
    refuse_import index i.label (check_caps i.label i.attributes (length i.secret) i.content_type)

-- The checking loop of `import_items`, from a position on.
unfoldable pub check_import_from : ℕ → List ImportItem → Result VaultError (Unit {0})
unfolding check_import_item
check_import_from index [] = ok tt
check_import_from index (i ∷ rest) = check_import_item index i >> check_import_from (index + 1) rest

unfoldable pub mem_id : Text → List Text → Bool
mem_id id ids = any (text_eq id) ids

-- The checking loop of `delete_items`: the first id that no item has.
unfoldable pub check_present : List Text → List Item → Result VaultError (Unit {0})
unfolding mem_id
check_present [] list = ok tt
check_present (id ∷ ids) list =
    if mem_id id (map (λ (i : Item). i.id) list)
    then check_present ids list
    else err (VaultError.no_such_item id)

-- The one pass of `delete_items`, from a position on: what stays, and what goes with its place.
unfoldable pub kept : List Text → List Item → List Item
unfolding mem_id
kept ids [] = []
kept ids (i ∷ rest) = let others = kept ids rest in if mem_id i.id ids then others else i ∷ others

unfoldable pub dropped : List Text → ℕ → List Item → List (ℕ × Item)
unfolding mem_id
dropped ids index [] = []
dropped ids index (i ∷ rest) =
    let others = dropped ids (index + 1) rest in
    if mem_id i.id ids then (index, i) ∷ others else others

unfoldable pub import_one : Text → ImportItem → Item
import_one id i = record {
  id = id;
  label = i.label;
  attributes = i.attributes;
  secret = i.secret;
  content_type = i.content_type;
  created = i.created;
  modified = i.modified;
}

module _ {World : Type 0} (c : Crates) (os : Os World) where
  unfoldable pub delete_present :
      List Text
      → Bytes
      → List Item
      → Vault
      → World
      → Result VaultError (Unit {0})
      → Step World (Unit {0})
  unfolding kept dropped
  delete_present ids key list v w (err e) = (err e, v, w)
  delete_present ids key list v w (ok _) =
      save_or_restore c os restore_delta (removed_many (dropped ids 0 list))
        (with_items v key (kept ids list)) w

  unfoldable pub delete_batch : List Text → Vault → World → State → Step World (Unit {0})
  unfolding delete_present check_present
  delete_batch ids v w locked = (err VaultError.locked, v, w)
  delete_batch ids v w (unlocked key list) =
      delete_present ids key list v w (check_present ids list)

  unfoldable pub delete_items : List Text → Vault → World → Step World (Unit {0})
  unfolding delete_batch
  delete_items [] v w = (ok tt, v, w)
  delete_items (id ∷ ids) v w = delete_batch (id ∷ ids) v w v.state

  -- One fresh uuid for each item, in order.
  unfoldable pub push_imports : List Item → List ImportItem → World → List Item × World
  unfolding import_one
  push_imports list [] w = (list, w)
  push_imports list (i ∷ rest) w =
      let (id, w1) = os.new_uuid w in push_imports (list ++ import_one id i ∷ []) rest w1

  unfoldable pub import_pushed : Bytes → ℕ → Vault → List Item × World → Step World (Unit {0})
  import_pushed key before v (list, w) =
      save_or_restore c os truncate_items before (with_items v key list) w

  unfoldable pub import_checked :
      List ImportItem
      → Bytes
      → List Item
      → Vault
      → World
      → Result VaultError (Unit {0})
      → Step World (Unit {0})
  unfolding push_imports import_pushed
  import_checked new key list v w (err e) = (err e, v, w)
  import_checked new key list v w (ok _) =
      import_pushed key (length list) v (push_imports list new w)

  unfoldable pub import_state : List ImportItem → Vault → World → State → Step World (Unit {0})
  unfolding import_checked check_import_from
  import_state new v w locked = (err VaultError.locked, v, w)
  import_state new v w (unlocked key list) =
      import_checked new key list v w (check_import_from 0 new)

  unfoldable pub import_items : List ImportItem → Vault → World → Step World (Unit {0})
  unfolding import_state
  import_items [] v w = (ok tt, v, w)
  import_items (i ∷ new) v w = import_state (i ∷ new) v w v.state

  abbrev pub with_label : Vault → Text → Vault
  with_label v label = record v { header = record v.header { label = label } }

  unfoldable pub set_label : Text → Vault → World → Step World (Unit {0})
  set_label label v w =
      let checked = check_label label >> (items v >>= λ _. ok tt) in
      elim checked [
        | err e ↦ (err e, v, w)
        | ok _ ↦ save_or_restore c os with_label v.header.label (with_label v label) w
      ]
