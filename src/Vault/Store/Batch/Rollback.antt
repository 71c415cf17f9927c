-- ===== src/Vault/Store/Batch/Rollback.antt =====
-- Deleting many items, importing many and renaming the collection, as transactions
-- (vault/store.rs).
use secret_manager.Base.{
  ℕ, suc, ◌+◌, ◌≡◌, refl, sym, ap, ◌∙◌, List, [], ◌∷◌, ◌++◌, append_assoc, append-nil, arith,
  length, take, length-append, take-append-length, Bytes, Text, Result, ok, err,
}
use secret_manager.Vault.Types.{Item, ImportItem, VaultError}
use secret_manager.Vault.Crates.{Crates, CratesLaws}
use secret_manager.Vault.Os.{Os}
use secret_manager.Vault.Format.{check_header}
use secret_manager.Vault.Collection.{State, locked, unlocked, Vault}
use secret_manager.Vault.Store.Delta.{
  removed_many, with_items, restore_delta, truncate_items, undo, reinsert_all,
}
use secret_manager.Vault.Store.Delta.Undo.{reinsert-length}
use secret_manager.Vault.Store.Transaction.{
  IsTransaction, refused-IsTransaction, unchanged-IsTransaction, save_or_restore-IsTransaction,
}
use secret_manager.Vault.Store.Items.Rollback.{restore-with_items, checked-IsTransaction}
use secret_manager.Vault.Store.Batch.{
  kept, dropped, delete_present, delete_batch, delete_items, push_imports, import_pushed,
  import_one, import_checked, import_state, import_items, with_label, set_label,
}

-- Reinserting the dropped items in order, over what was kept, gives the list back.
reinsert-dropped :
    (ids : List Text) (front rest : List Item) (n : ℕ)
    → n ≡ length front
    → reinsert_all (dropped ids n rest) (front ++ kept ids rest) ≡ front ++ rest
unfolding dropped kept reinsert_all
reinsert-dropped ids front [] n e = refl
reinsert-dropped ids front (i ∷ rest) n e =
    let ih =
      reinsert-dropped ids (front ++ i ∷ []) rest (n + 1)
        (omega (arith, length-append front (i ∷ []))) in
    ground (
      arith,
      ih,
      reinsert-length front (kept ids rest) i,
      append_assoc front (i ∷ []) (kept ids rest),
      append_assoc front (i ∷ []) rest,
    )

module _ {World : Type 0} (c : Crates) (os : Os World) (laws : CratesLaws c) (v : Vault) where
  delete_present-IsTransaction :
      (ids : List Text) (key : Bytes) (list : List Item) (w : World)
      (r : Result VaultError (Unit {0}))
      → v.state ≡ unlocked key list
      → IsTransaction c v (delete_present c os ids key list v w r)
  unfolding delete_present undo
  delete_present-IsTransaction ids key list w (err e) was = refused-IsTransaction c v w e
  delete_present-IsTransaction ids key list w (ok _) was =
      save_or_restore-IsTransaction c os laws restore_delta (removed_many (dropped ids 0 list)) v
        (with_items v key (kept ids list)) w
        (restore-with_items v key list was (removed_many (dropped ids 0 list)) (kept ids list)
          (reinsert-dropped ids [] list 0 refl))
        refl

  delete_batch-IsTransaction :
      (ids : List Text) (w : World) (s : State)
      → v.state ≡ s
      → IsTransaction c v (delete_batch c os ids v w s)
  unfolding delete_batch
  delete_batch-IsTransaction ids w locked was = refused-IsTransaction c v w _
  delete_batch-IsTransaction ids w (unlocked key list) was =
      delete_present-IsTransaction ids key list w _ was

  -- `delete_items` is all or nothing, on every list of ids and in every state.
  -- If it fails, for whatever reason, the vault is exactly as it was; and a coherent vault stays
  -- coherent whether it succeeds or fails.
  pub delete_items-IsTransaction :
      (ids : List Text) (w : World) → IsTransaction c v (delete_items c os ids v w)
  unfolding delete_items
  delete_items-IsTransaction [] w = unchanged-IsTransaction c v w tt
  delete_items-IsTransaction (id ∷ ids) w = delete_batch-IsTransaction (id ∷ ids) w v.state refl

  -- The imported items stand behind those that were there.
  pub push_imports-prefix :
      (list : List Item) (new : List ImportItem) (w : World)
      → (more : List Item) × ((push_imports c os list new w).0 ≡ list ++ more)
        × (length more ≡ length new)
  unfolding push_imports
  push_imports-prefix list [] w = ([], sym (append-nil list), refl)
  push_imports-prefix list (i ∷ new) w =
      let one = import_one (os.new_uuid w).0 i in
      let (more, e, len) = push_imports-prefix (list ++ one ∷ []) new (os.new_uuid w).1 in
      (one ∷ more, e ∙ append_assoc list (one ∷ []) more, ap suc len)

  truncate-with_items :
      (key : Bytes) (list more xs : List Item)
      → v.state ≡ unlocked key list
      → xs ≡ list ++ more
      → truncate_items (with_items v key xs) (length list) ≡ v
  unfolding truncate_items
  truncate-with_items key list more xs was e =
      ap (λ (s : State). record v { state = s })
        (ap (unlocked key) (ap (take (length list)) e ∙ take-append-length list more) ∙ sym was)

  import_checked-IsTransaction :
      (new : List ImportItem) (key : Bytes) (list : List Item) (w : World)
      (r : Result VaultError (Unit {0}))
      → v.state ≡ unlocked key list
      → IsTransaction c v (import_checked c os new key list v w r)
  unfolding import_checked import_pushed
  import_checked-IsTransaction new key list w (err e) was = refused-IsTransaction c v w e
  import_checked-IsTransaction new key list w (ok _) was =
      let (more, e, len) = push_imports-prefix list new w in
      save_or_restore-IsTransaction c os laws truncate_items (length list) v _ _
        (truncate-with_items key list more _ was e) refl

  import_state-IsTransaction :
      (new : List ImportItem) (w : World) (s : State)
      → v.state ≡ s
      → IsTransaction c v (import_state c os new v w s)
  unfolding import_state
  import_state-IsTransaction new w locked was = refused-IsTransaction c v w _
  import_state-IsTransaction new w (unlocked key list) was =
      import_checked-IsTransaction new key list w _ was

  -- `import_items` is all or nothing.
  -- If it fails, for whatever reason, the vault is exactly as it was; and a coherent vault stays
  -- coherent whether it succeeds or fails.
  pub import_items-IsTransaction :
      (new : List ImportItem) (w : World) → IsTransaction c v (import_items c os new v w)
  unfolding import_items
  import_items-IsTransaction [] w = unchanged-IsTransaction c v w tt
  import_items-IsTransaction (i ∷ new) w = import_state-IsTransaction (i ∷ new) w v.state refl

  -- `set_label` is all or nothing.
  -- If it fails, for whatever reason, the vault is exactly as it was; and a coherent vault stays
  -- coherent whether it succeeds or fails.
  pub set_label-IsTransaction :
      (label : Text) (w : World) → IsTransaction c v (set_label c os label v w)
  unfolding set_label
  set_label-IsTransaction label w = checked-IsTransaction c v w _ _ (
      save_or_restore-IsTransaction c os laws (with_label c os) v.header.label v
        (with_label c os v label) w refl (unfold check_header in refl))
