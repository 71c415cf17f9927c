-- ===== src/Vault/Collection.antt =====
-- A collection in memory, `Vault` of vault/store.rs: its state, and the methods that read it or that
-- change it without a save.
use secret_manager.Base.{
  ℕ, Bool, true, false, not, ◌&&◌, Option, none, some, List, [], ◌∷◌, map, ltb, if◌then◌else◌,
  length, is_empty, all, any, Bytes, Text, text_eq, Result, ok, err, map_err, ◌>>=◌,
}
use secret_manager.Vault.Types.{Attributes, IndexEntry, Header, Item, VaultError}
use secret_manager.Vault.Crates.{Crates}
use secret_manager.Vault.Kdf.{derive_key, open_sealed}
use secret_manager.Vault.Index.{hash_query, matches_hashes}
use secret_manager.Vault.Format.{max_label}
use secret_manager.Vault.Os.{FilePath}

pub data State : Type 0 where
  locked : State
  unlocked : Bytes → List Item → State

-- `index_warning` holds the error whose text the warning quotes.
pub record Vault : Type 0 where
  pub path : FilePath
  pub header : Header
  pub aad : Bytes
  pub ciphertext : Bytes
  pub state : State
  pub index_attributes : Bool
  pub index_warning : Option VaultError
  pub size_limit : ℕ
  pub retired : Bool
  pub pinned : Bool

unfoldable pub check_label : Text → Result VaultError (Unit {0})
check_label label =
    if ltb max_label (length label)
    then err (VaultError.label_too_long (length label) max_label)
    else ok tt

-- The result of a method: what it returns, the vault and the world after it.
abbrev pub Step : Type 0 → Type 0 → Type 0
Step World A = Result VaultError A × Vault × World

unfoldable pub is_locked : State → Bool
is_locked State.locked = true
is_locked (State.unlocked key items) = false

unfoldable pub items_of : State → Result VaultError (List Item)
items_of State.locked = err VaultError.locked
items_of (State.unlocked key items) = ok items

abbrev pub items : Vault → Result VaultError (List Item)
items v = items_of v.state

unfoldable pub find_item : Text → List Item → Result VaultError Item
find_item id [] = err (VaultError.no_such_item id)
find_item id (i ∷ rest) = if text_eq i.id id then ok i else find_item id rest

unfoldable pub item : Vault → Text → Result VaultError Item
item v id = do list ← items v; find_item id list

-- `attributes.get(k)`
unfoldable pub get_attribute : Text → Attributes → Option Text
get_attribute k [] = none
get_attribute k ((j, v) ∷ rest) = if text_eq j k then some v else get_attribute k rest

unfoldable pub has_pair : Attributes → Text × Text → Bool
has_pair attributes p = elim (get_attribute p.0 attributes) [
  | none ↦ false
  | some v ↦ text_eq v p.1
]

-- `Iterator::filter`
unfoldable pub keep {ℓ} : {A : Type ℓ} → (A → Bool) → List A → List A
keep p [] = []
keep p (x ∷ xs) = let rest = keep p xs in if p x then x ∷ rest else rest

unfoldable pub search : Vault → Attributes → Result VaultError (List Item)
unfolding keep
search v query = do list ← items v; ok (keep (λ (i : Item). all (has_pair i.attributes) query) list)

unfoldable pub index_has_attributes : Vault → Bool
index_has_attributes v = any (λ (e : IndexEntry). not (is_empty e.attr_hashes)) v.header.index

unfoldable pub search_ids : Crates → Vault → Attributes → List Text
unfolding keep
search_ids c v query =
    let query_hashes = hash_query c v.header.index_salt query in
    if not (is_empty query) && not (index_has_attributes v)
    then []
    else map (λ (e : IndexEntry). e.id) (keep (λ e. matches_hashes e query_hashes) v.header.index)

unfoldable pub set_index_attributes : Bool → Vault → Vault
set_index_attributes enabled v = record v { index_attributes = enabled }

unfoldable pub retire : Vault → Vault
retire v = record v { retired = true }

unfoldable pub unretire : Vault → Vault
unretire v = record v { retired = false }

unfoldable pub set_pinned : Bool → Vault → Vault
set_pinned pinned v = record v { pinned = pinned }

unfoldable pub lock : Vault → Vault
lock v = record v { state = State.locked; pinned = false }

-- `verify_key` compares with the key in memory, or tries to open the ciphertext.
unfoldable pub verify_state : Crates → Vault → Bytes → State → Bool
verify_state c v key (State.unlocked current list) = text_eq current key
verify_state c v key State.locked = elim (open_sealed c key v.header.nonce v.aad v.ciphertext) [
  | ok plain ↦ true
  | err e ↦ false
]

unfoldable pub verify_key : Crates → Vault → Bytes → Result VaultError Bool
unfolding verify_state
verify_key c v key = ok (verify_state c v key v.state)

unfoldable pub verify_password : Crates → Vault → Bytes → Result VaultError Bool
verify_password c v password = do
  key ← map_err VaultError.crypto (derive_key c password v.header.salt v.header.kdf)
  verify_key c v key
