-- ===== src/Vault/Store/Effects.antt =====
-- What the operations that change items leave in memory when they succeed (vault/store.rs).
pub mod Insert
use secret_manager.Base.{
  ℕ, ◌+◌, ◌≡◌, refl, sym, ap, ◌∙◌, inl, inr, Bool, not, List, [], ◌∷◌, ◌++◌, map, append_assoc,
  append-nil, Bool-cases, length, Bytes, Text, Result, ok, err,
}
use secret_manager.Vault.Types.{Item, ImportItem, VaultError}
use secret_manager.Vault.Crates.{Crates}
use secret_manager.Vault.Os.{Os}
use secret_manager.Vault.Collection.{State, locked, unlocked, Vault, Step, keep}
use secret_manager.Vault.Store.{save}
use secret_manager.Vault.Store.Unlock.{state-save}
use secret_manager.Vault.Store.Delta.{
  restore_if_failed, save_or_restore, with_items, restore_delta, removed_many, truncate_items,
}
use secret_manager.Vault.Store.Batch.{
  mem_id, kept, dropped, delete_present, delete_batch, delete_items, import_one, push_imports,
  import_pushed, import_checked, import_state, import_items, check_import_from,
}

-- The one pass of `delete_items` keeps just the items whose id was not named.
kept-keep :
    (ids : List Text) (list : List Item)
    → kept ids list ≡ keep (λ (i : Item). not (mem_id i.id ids)) list
unfolding kept keep
kept-keep ids [] = refl
kept-keep ids (i ∷ rest) = elim (Bool-cases (mem_id i.id ids)) [
  | inl e ↦ rw (e) (kept-keep ids rest)
  | inr e ↦ rw (e) (ap (λ l. i ∷ l) (kept-keep ids rest))
]

restored_state {ℓ} :
    {World : Type 0} {T : Type ℓ} (restore : Vault → T → Vault) (before : T)
    (r : Step World (Unit {0}))
    → (restore_if_failed restore before r).0 ≡ ok tt
    → (restore_if_failed restore before r).1.state ≡ r.1.state
unfolding restore_if_failed
restored_state restore before (ok _, v, w) h = refl
restored_state restore before (err e, v, w) h = cc

module _ {World : Type 0} (c : Crates) (os : Os World) where
  pub saved_state {ℓ} :
      {T : Type ℓ} (restore : Vault → T → Vault) (before : T) (v : Vault) (w : World)
      → (save_or_restore c os restore before v w).0 ≡ ok tt
      → (save_or_restore c os restore before v w).1.state ≡ v.state
  unfolding save_or_restore
  saved_state restore before v w h =
      restored_state restore before (save c os v w) h ∙ state-save c os v w

  present_state :
      (ids : List Text) (key : Bytes) (list : List Item) (v : Vault) (w : World)
      (r : Result VaultError (Unit {0}))
      → (delete_present c os ids key list v w r).0 ≡ ok tt
      → (delete_present c os ids key list v w r).1.state
        ≡ unlocked key (keep (λ (i : Item). not (mem_id i.id ids)) list)
  unfolding delete_present
  present_state ids key list v w (err e) h = cc
  present_state ids key list v w (ok _) h =
      saved_state restore_delta (removed_many (dropped ids 0 list))
        (with_items v key (kept ids list)) w h
      ∙ ap (unlocked key) (kept-keep ids list)

  batch_state :
      (ids : List Text) (key : Bytes) (list : List Item) (v : Vault) (w : World) (s : State)
      → s ≡ unlocked key list
      → (delete_batch c os ids v w s).0 ≡ ok tt
      → (delete_batch c os ids v w s).1.state
        ≡ unlocked key (keep (λ (i : Item). not (mem_id i.id ids)) list)
  unfolding delete_batch
  batch_state ids key list v w locked was h = cc
  batch_state ids key list v w (unlocked k l) was h =
      present_state ids k l v w _ h ∙ ap (edited ids) was
    where
      edited : List Text → State → State
      edited ids locked = locked
      edited ids (unlocked k l) = unlocked k (keep (λ (i : Item). not (mem_id i.id ids)) l)

  -- A batch deletion that succeeds keeps, in their order, exactly the items whose id was not named.
  pub delete_items_state :
      (id : Text) (ids : List Text) (key : Bytes) (list : List Item) (v : Vault) (w : World)
      → v.state ≡ unlocked key list
      → (delete_items c os (id ∷ ids) v w).0 ≡ ok tt
      → (delete_items c os (id ∷ ids) v w).1.state
        ≡ unlocked key (keep (λ (i : Item). not (mem_id i.id (id ∷ ids))) list)
  unfolding delete_items
  delete_items_state id ids key list v w was h = batch_state (id ∷ ids) key list v w v.state was h

-- What an import item says of the item made of it: all but its id.
abbrev pub import_of : Item → ImportItem
import_of i = record {
  label = i.label;
  attributes = i.attributes;
  secret = i.secret;
  content_type = i.content_type;
  created = i.created;
  modified = i.modified;
}

-- These items, in their order, behind the items that were there, times included.
pub record Imported (key : Bytes) (list : List Item) (new : List ImportItem) (s : State)
    : Type 0 where
  pub more : List Item
  pub state : s ≡ unlocked key (list ++ more)
  pub same : map import_of more ≡ new

module _ {World : Type 0} (c : Crates) (os : Os World) where
  push_imports_lem :
      (list : List Item) (new : List ImportItem) (w : World)
      → (more : List Item) × ((push_imports c os list new w).0 ≡ list ++ more)
        × (map import_of more ≡ new)
  unfolding push_imports import_one
  push_imports_lem list [] w = ([], sym (append-nil list), refl)
  push_imports_lem list (i ∷ rest) w =
      let (id, w1) = os.new_uuid w in
      let (more, e, same) = push_imports_lem (list ++ import_one id i ∷ []) rest w1 in
      (
        import_one id i ∷ more,
        e ∙ append_assoc list (import_one id i ∷ []) more,
        ap (λ l. i ∷ l) same,
      )

  pushed_state :
      (key : Bytes) (n : ℕ) (v : Vault) (r : List Item × World)
      → (import_pushed c os key n v r).0 ≡ ok tt
      → (import_pushed c os key n v r).1.state ≡ unlocked key r.0
  unfolding import_pushed
  pushed_state key n v (list, w) h = saved_state c os truncate_items n (with_items v key list) w h

  checked_state :
      (new : List ImportItem) (key : Bytes) (list : List Item) (v : Vault) (w : World)
      (r : Result VaultError (Unit {0}))
      → (import_checked c os new key list v w r).0 ≡ ok tt
      → Imported key list new (import_checked c os new key list v w r).1.state
  unfolding import_checked
  checked_state new key list v w (err e) h = cc
  checked_state new key list v w (ok _) h =
      let (more, e, same) = push_imports_lem list new w in
      record {
        more = more;
        state =
            pushed_state key (length list) v (push_imports c os list new w) h ∙ ap (unlocked key) e;
        same = same;
      }

  state-Imported :
      (new : List ImportItem) (key : Bytes) (list : List Item) (v : Vault) (w : World) (s : State)
      → s ≡ unlocked key list
      → (import_state c os new v w s).0 ≡ ok tt
      → Imported key list new (import_state c os new v w s).1.state
  unfolding import_state
  state-Imported new key list v w locked was h = cc
  state-Imported new key list v w (unlocked k l) was h =
      let same_key : k ≡ key = cc in
      let same_list : l ≡ list = cc in
      rw (← same_key, ← same_list) (checked_state new k l v w (check_import_from 0 new) h)

  -- An import that succeeds adds the given items, in their order and with their own times, behind
  -- the items that were there.
  pub import_items-Imported :
      (i : ImportItem) (new : List ImportItem) (key : Bytes) (list : List Item) (v : Vault)
      (w : World)
      → v.state ≡ unlocked key list
      → (import_items c os (i ∷ new) v w).0 ≡ ok tt
      → Imported key list (i ∷ new) (import_items c os (i ∷ new) v w).1.state
  unfolding import_items
  import_items-Imported i new key list v w was h =
      state-Imported (i ∷ new) key list v w v.state was h
