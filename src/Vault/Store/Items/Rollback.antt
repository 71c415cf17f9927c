-- ===== src/Vault/Store/Items/Rollback.antt =====
-- Inserting, updating and deleting one item, as transactions (vault/store.rs).
use secret_manager.Base.{
  ℕ, ◌≡◌, refl, sym, ap, ◌∙◌, Bool, true, false, Option, none, some, List, if◌then◌else◌, get_elem?,
  Bytes, Text, Result, ok, err,
}
use secret_manager.Vault.Types.{Attributes, CapViolation, Item, VaultError}
use secret_manager.Vault.Crates.{Crates, CratesLaws}
use secret_manager.Vault.Os.{Os}
use secret_manager.Vault.Collection.{State, locked, unlocked, Vault, Step}
use secret_manager.Vault.Store.Delta.{
  ItemDelta, reinsert_all, save_or_restore, position, pushed, replaced, removed, with_items,
  restore_delta, undo,
}
use secret_manager.Vault.Store.Delta.Undo.{
  position-get_elem?, pop-append, set-set, reinsert-remove_at,
}
use secret_manager.Vault.Store.Transaction.{
  IsTransaction, refused-IsTransaction, returning-IsTransaction, save_or_restore-IsTransaction,
}
use secret_manager.Vault.Store.Items.{
  put_at, push_new, insert_found, insert_unchecked, same_attributes, insert_item, update_checked,
  update_found, has_id, update_state, update_item, delete_found, delete_state, delete_item,
}

pub restore-with_items :
    (v : Vault) (key : Bytes) (list : List Item)
    → v.state ≡ unlocked key list
    → (delta : ItemDelta) (xs : List Item) → undo delta xs ≡ list
    → restore_delta (with_items v key xs) delta ≡ v
unfolding restore_delta
restore-with_items v key list was delta xs e =
    ap (λ (s : State). record v { state = s }) (ap (unlocked key) e ∙ sym was)

-- A check in front of an operation.
pub checked-IsTransaction :
    {World A : Type 0} (c : Crates) (v : Vault) (w : World) (r : Result VaultError (Unit {0}))
    (s : Step World A)
    → IsTransaction c v s
    → IsTransaction c v (elim r [ err e ↦ (err e, v, w) | ok _ ↦ s ])
checked-IsTransaction c v w (ok _) s t = t
checked-IsTransaction c v w (err e) s t = refused-IsTransaction c v w e

module _ {World : Type 0} (c : Crates) (os : Os World) (laws : CratesLaws c) (v : Vault)
    (key : Bytes) (list : List Item) (was : v.state ≡ unlocked key list) where
  edit-IsTransaction :
      (delta : ItemDelta) (xs : List Item) (w : World)
      → undo delta xs ≡ list
      → IsTransaction c v (save_or_restore c os restore_delta delta (with_items v key xs) w)
  edit-IsTransaction delta xs w e =
      save_or_restore-IsTransaction c os laws restore_delta delta v (with_items v key xs) w
        (restore-with_items v key list was delta xs e) refl

  put_at-IsTransaction :
      (label : Text) (secret : Bytes) (content_type : Text) (t p : ℕ) (prior : Item) (w : World)
      → get_elem? list p ≡ some prior
      → IsTransaction c v (put_at c os key list label secret content_type t (p, prior) v w)
  unfolding put_at undo
  put_at-IsTransaction label secret content_type t p prior w at =
      returning-IsTransaction c _ v _
        (edit-IsTransaction (replaced p prior) _ w (set-set list p _ prior at))

  push_new-IsTransaction :
      (label : Text) (attributes : Attributes) (secret : Bytes) (content_type : Text) (t : ℕ)
      (id : Text) (w : World)
      → IsTransaction c v (push_new c os key list label attributes secret content_type t v (id, w))
  unfolding push_new undo
  push_new-IsTransaction label attributes secret content_type t id w =
      returning-IsTransaction c _ v _ (edit-IsTransaction pushed _ w (pop-append list _))

  insert_found-IsTransaction :
      (label : Text) (attributes : Attributes) (secret : Bytes) (content_type : Text) (t : ℕ)
      (w : World) (found : Option (ℕ × Item))
      → ((p : ℕ) (i : Item) → found ≡ some (p, i) → get_elem? list p ≡ some i)
      → IsTransaction c v
          (insert_found c os key list label attributes secret content_type t v w found)
  unfolding insert_found
  insert_found-IsTransaction label attributes secret content_type t w none at =
      push_new-IsTransaction label attributes secret content_type t (os.new_uuid w).0
        (os.new_uuid w).1
  insert_found-IsTransaction label attributes secret content_type t w (some (p, i)) at =
      put_at-IsTransaction label secret content_type t p i w (at p i refl)

  chosen_place :
      (replace : Bool) (test : Item → Bool) (p : ℕ) (i : Item)
      → (if replace then position test list else none) ≡ some (p, i)
      → get_elem? list p ≡ some i
  chosen_place true test p i h = position-get_elem? test list p i h
  chosen_place false test p i h = cc

  update_checked-IsTransaction :
      (p : ℕ) (prior next : Item) (w : World) (x : Option CapViolation)
      → get_elem? list p ≡ some prior
      → IsTransaction c v (update_checked c os key list p prior next v w x)
  unfolding update_checked undo
  update_checked-IsTransaction p prior next w none at =
      edit-IsTransaction (replaced p prior) _ w (set-set list p next prior at)
  update_checked-IsTransaction p prior next w (some x) at =
      rw (set-set list p next prior at, ← was) (refused-IsTransaction c v w _)

  update_found-IsTransaction :
      (id : Text) (f : Item → Item) (w : World) (found : Option (ℕ × Item))
      → ((p : ℕ) (i : Item) → found ≡ some (p, i) → get_elem? list p ≡ some i)
      → IsTransaction c v (update_found c os id f key list v w found)
  unfolding update_found
  update_found-IsTransaction id f w none at = refused-IsTransaction c v w _
  update_found-IsTransaction id f w (some (p, i)) at =
      update_checked-IsTransaction p i _ (os.now w).1 _ (at p i refl)

  delete_found-IsTransaction :
      (id : Text) (w : World) (found : Option (ℕ × Item))
      → ((p : ℕ) (i : Item) → found ≡ some (p, i) → get_elem? list p ≡ some i)
      → IsTransaction c v (delete_found c os id key list v w found)
  unfolding delete_found undo reinsert_all
  delete_found-IsTransaction id w none at = refused-IsTransaction c v w _
  delete_found-IsTransaction id w (some (p, i)) at =
      edit-IsTransaction (removed p i) _ w (reinsert-remove_at list p i (at p i refl))

module _ {World : Type 0} (c : Crates) (os : Os World) (laws : CratesLaws c) (v : Vault) where
  insert_state-IsTransaction :
      (label : Text) (attributes : Attributes) (secret : Bytes) (content_type : Text)
      (replace : Bool) (s : State) (t : ℕ) (w : World)
      → v.state ≡ s
      → IsTransaction c v
          (insert_unchecked c os label attributes secret content_type replace v s (t, w))
  unfolding insert_unchecked
  insert_state-IsTransaction label attributes secret content_type replace locked t w was =
      refused-IsTransaction c v w _
  insert_state-IsTransaction label attributes secret content_type replace (unlocked key list) t w
        was =
      insert_found-IsTransaction c os laws v key list was label attributes secret content_type t w _
        (chosen_place c os laws v key list was replace (same_attributes c os attributes))

  -- `insert_item` is all or nothing, replacing or adding.
  -- If it fails, for whatever reason, the vault is exactly as it was; and a coherent vault stays
  -- coherent whether it succeeds or fails.
  pub insert_item-IsTransaction :
      (label : Text) (attributes : Attributes) (secret : Bytes) (content_type : Text)
      (replace : Bool) (w : World)
      → IsTransaction c v (insert_item c os label attributes secret content_type replace v w)
  unfolding insert_item
  insert_item-IsTransaction label attributes secret content_type replace w =
      checked-IsTransaction c v w _ _
        (insert_state-IsTransaction label attributes secret content_type replace v.state _ _ refl)

  update_state-IsTransaction :
      (id : Text) (f : Item → Item) (w : World) (s : State)
      → v.state ≡ s
      → IsTransaction c v (update_state c os id f v w s)
  unfolding update_state
  update_state-IsTransaction id f w locked was = refused-IsTransaction c v w _
  update_state-IsTransaction id f w (unlocked key list) was =
      update_found-IsTransaction c os laws v key list was id f w _
        (position-get_elem? (has_id c os id) list)

  -- `update_item` is all or nothing, also when the new item is over a cap.
  -- If it fails, for whatever reason, the vault is exactly as it was; and a coherent vault stays
  -- coherent whether it succeeds or fails.
  pub update_item-IsTransaction :
      (id : Text) (f : Item → Item) (w : World) → IsTransaction c v (update_item c os id f v w)
  unfolding update_item
  update_item-IsTransaction id f w = update_state-IsTransaction id f w v.state refl

  delete_state-IsTransaction :
      (id : Text) (w : World) (s : State)
      → v.state ≡ s
      → IsTransaction c v (delete_state c os id v w s)
  unfolding delete_state
  delete_state-IsTransaction id w locked was = refused-IsTransaction c v w _
  delete_state-IsTransaction id w (unlocked key list) was =
      delete_found-IsTransaction c os laws v key list was id w _
        (position-get_elem? (has_id c os id) list)

  -- `delete_item` is all or nothing.
  -- If it fails, for whatever reason, the vault is exactly as it was; and a coherent vault stays
  -- coherent whether it succeeds or fails.
  pub delete_item-IsTransaction :
      (id : Text) (w : World) → IsTransaction c v (delete_item c os id v w)
  unfolding delete_item
  delete_item-IsTransaction id w = delete_state-IsTransaction id w v.state refl
