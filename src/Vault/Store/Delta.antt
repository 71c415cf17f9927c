-- ===== src/Vault/Store/Delta.antt =====
-- `ItemDelta` of vault/store.rs: what one mutation of the item list did, and how a failed save undoes
-- it, with the list primitives and the cap checks that the item operations share.
pub mod Undo
use secret_manager.Base.{
  ℕ, zero, suc, Bool, true, false, ◌&&◌, Option, none, some, List, [], ◌∷◌, leb, if◌then◌else◌,
  length, set, take, Bytes, Text, text_eq, Result, ok, err,
}
use secret_manager.Vault.Types.{Attributes, CapViolation, Item, VaultError}
use secret_manager.Vault.Crates.{Crates}
use secret_manager.Vault.Caps.{check_caps}
use secret_manager.Vault.Os.{Os}
use secret_manager.Vault.Collection.{State, locked, unlocked, Vault, Step}
use secret_manager.Vault.Store.{save}

-- `BTreeMap == BTreeMap`
unfoldable pub attributes_eq : Attributes → Attributes → Bool
attributes_eq [] [] = true
attributes_eq ((j, v) ∷ a) ((k, w) ∷ b) = text_eq j k && (text_eq v w && attributes_eq a b)
attributes_eq _ _ = false

-- `iter().position(..)`, with the element that stands there.
abbrev shift {ℓ} : {A : Type ℓ} → Option (ℕ × A) → Option (ℕ × A)
shift none = none
shift (some (n, a)) = some (suc n, a)

unfoldable pub position {ℓ} : {A : Type ℓ} → (A → Bool) → List A → Option (ℕ × A)
position p [] = none
position p (x ∷ xs) = let rest = position p xs in if p x then some (0, x) else shift rest

unfoldable pub insert_at {ℓ} : {A : Type ℓ} → ℕ → A → List A → List A
insert_at zero a xs = a ∷ xs
insert_at (suc n) a [] = []
insert_at (suc n) a (x ∷ xs) = x ∷ insert_at n a xs

unfoldable pub remove_at {ℓ} : {A : Type ℓ} → ℕ → List A → List A
remove_at n [] = []
remove_at zero (x ∷ xs) = xs
remove_at (suc n) (x ∷ xs) = x ∷ remove_at n xs

-- `Vec::pop`
unfoldable pub pop {ℓ} : {A : Type ℓ} → List A → List A
pop [] = []
pop (x ∷ []) = []
pop (x ∷ y ∷ xs) = x ∷ pop (y ∷ xs)

pub data ItemDelta : Type 0 where
  pushed : ItemDelta
  replaced removed : ℕ → Item → ItemDelta
  removed_many : List (ℕ × Item) → ItemDelta

abbrev pub with_items : Vault → Bytes → List Item → Vault
with_items v key list = record v { state = unlocked key list }

-- `if index <= items.len() { items.insert(index, prior) }`
unfoldable pub reinsert : ℕ × Item → List Item → List Item
unfolding insert_at
reinsert (i, prior) list = if leb i (length list) then insert_at i prior list else list

unfoldable pub reinsert_all : List (ℕ × Item) → List Item → List Item
unfolding reinsert
reinsert_all [] list = list
reinsert_all (r ∷ rest) list = reinsert_all rest (reinsert r list)

unfoldable pub undo : ItemDelta → List Item → List Item
unfolding reinsert_all pop
undo pushed list = pop list
undo (replaced i prior) list = set list i prior
undo (removed i prior) list = reinsert (i, prior) list
undo (removed_many r) list = reinsert_all r list

restore_state : (List Item → List Item) → State → State
restore_state f locked = locked
restore_state f (unlocked key list) = unlocked key (f list)

unfoldable pub restore_delta : Vault → ItemDelta → Vault
unfolding undo restore_state
restore_delta v delta = record v { state = restore_state (undo delta) v.state }

unfoldable pub truncate_items : Vault → ℕ → Vault
unfolding restore_state
truncate_items v len = record v { state = restore_state (take len) v.state }

unfoldable pub too_large : CapViolation → VaultError
too_large x = VaultError.item_too_large x.cap x.actual x.limit

unfoldable pub refuse_caps : Option CapViolation → Result VaultError (Unit {0})
unfolding too_large
refuse_caps none = ok tt
refuse_caps (some x) = err (too_large x)

unfoldable pub check_item_caps : Text → Attributes → ℕ → Text → Result VaultError (Unit {0})
unfolding refuse_caps
check_item_caps label attributes secret_len content_type =
    refuse_caps (check_caps label attributes secret_len content_type)

-- The value that an operation returns once its save is done.
abbrev pub returning : {World A : Type 0} → A → Step World (Unit {0}) → Step World A
returning a (ok _, v, w) = (ok a, v, w)
returning a (err e, v, w) = (err e, v, w)

unfoldable pub restore_if_failed {ℓ} :
    {World : Type 0} {T : Type ℓ}
    → (Vault → T → Vault)
    → T
    → Step World (Unit {0})
    → Step World (Unit {0})
restore_if_failed restore before (ok _, v, w) = (ok tt, v, w)
restore_if_failed restore before (err e, v, w) = (err e, restore v before, w)

module _ {World : Type 0} (c : Crates) (os : Os World) where
  unfoldable pub save_or_restore {ℓ} :
      {T : Type ℓ} → (Vault → T → Vault) → T → Vault → World → Step World (Unit {0})
  unfolding restore_if_failed
  save_or_restore restore before v w = restore_if_failed restore before (save c os v w)
