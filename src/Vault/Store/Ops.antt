-- ===== src/Vault/Store/Ops.antt =====
-- The operations of a vault but for the change of its key and its flags, and histories of them
-- (src/vault/store.rs).
use secret_manager.Base.{refl, ap, Bool, List, [], ◌∷◌, Bytes, Text, ok, err}
use secret_manager.Vault.Types.{Attributes, Item, ImportItem}
use secret_manager.Vault.Crates.{Crates, CratesLaws}
use secret_manager.Vault.Os.{Os}
use secret_manager.Vault.Publish.{write_atomic}
use secret_manager.Vault.Collection.{Vault, Step, lock}
use secret_manager.Vault.Store.{save, unlock_with_key}
use secret_manager.Vault.Store.Items.{insert_item, update_item, delete_item}
use secret_manager.Vault.Store.Batch.{delete_items, import_items, set_label}
use secret_manager.Vault.Store.Saved.{save_with_failed}
use secret_manager.Vault.Store.Coherent.{IsCoherent, save_with-IsCoherent}
use secret_manager.Vault.Store.Unlock.{unlock_failed, unlock-IsCoherent, lock-IsCoherent}
use secret_manager.Vault.Store.Transaction.{IsTransaction}
use secret_manager.Vault.Store.Items.Rollback.{
  insert_item-IsTransaction, update_item-IsTransaction, delete_item-IsTransaction,
}
use secret_manager.Vault.Store.Batch.Rollback.{
  delete_items-IsTransaction, import_items-IsTransaction, set_label-IsTransaction,
}

-- The calls that change a vault, with their arguments.
pub data Op : Type 0 where
  insert : Text → Attributes → Bytes → Text → Bool → Op
  update : Text → (Item → Item) → Op
  delete : Text → Op
  delete_all : List Text → Op
  import : List ImportItem → Op
  rename : Text → Op
  store : Op
  unlock_with : Bytes → Op
  close : Op

-- Without the value that a call returns.
unfoldable pub forget : {World A : Type 0} → Step World A → Step World (Unit {0})
forget (ok _, v, w) = (ok tt, v, w)
forget (err e, v, w) = (err e, v, w)

forget-IsTransaction :
    {World A : Type 0} (c : Crates) (v : Vault) (r : Step World A)
    → IsTransaction c v r
    → IsTransaction c v (forget r)
unfolding forget
forget-IsTransaction c v (ok _, v1, w) t = record { rolled_back = λ e h. cc; coherent = t.coherent }
forget-IsTransaction c v (err x, v1, w) t = record {
  rolled_back = λ e h. t.rolled_back x refl;
  coherent = t.coherent;
}

module _ {World : Type 0} (c : Crates) (os : Os World) where
  unfoldable pub run_op : Op → Vault → World → Step World (Unit {0})
  unfolding forget insert_item update_item delete_item delete_items import_items set_label save
      unlock_with_key lock
  run_op (insert label attributes secret content_type replace) v w =
      forget (insert_item c os label attributes secret content_type replace v w)
  run_op (update id f) v w = update_item c os id f v w
  run_op (delete id) v w = delete_item c os id v w
  run_op (delete_all ids) v w = delete_items c os ids v w
  run_op (import new) v w = import_items c os new v w
  run_op (rename label) v w = set_label c os label v w
  run_op store v w = save c os v w
  run_op (unlock_with key) v w = unlock_with_key c os key v w
  run_op close v w = (ok tt, lock v, w)

  -- A history: each call runs whether or not those before it succeeded.
  unfoldable pub run_ops : List Op → Vault → World → Vault × World
  unfolding run_op
  run_ops [] v w = (v, w)
  run_ops (op ∷ ops) v w = let (r, v1, w1) = run_op op v w in run_ops ops v1 w1

module _ {World : Type 0} (c : Crates) (os : Os World) (laws : CratesLaws c) where
  -- Each operation of `Op`, which are all that change items, label or lock state, is all or nothing:
  -- if it fails, for whatever reason, the vault is exactly as it was, its items, header, index and
  -- sealed bytes; and a coherent vault stays coherent whether the operation succeeds or fails.
  pub run_op-IsTransaction :
      (op : Op) (v : Vault) (w : World) → IsTransaction c v (run_op c os op v w)
  unfolding run_op save
  run_op-IsTransaction (insert label attributes secret content_type replace) v w =
      forget-IsTransaction c v _
        (insert_item-IsTransaction c os laws v label attributes secret content_type replace w)
  run_op-IsTransaction (update id f) v w = update_item-IsTransaction c os laws v id f w
  run_op-IsTransaction (delete id) v w = delete_item-IsTransaction c os laws v id w
  run_op-IsTransaction (delete_all ids) v w = delete_items-IsTransaction c os laws v ids w
  run_op-IsTransaction (import new) v w = import_items-IsTransaction c os laws v new w
  run_op-IsTransaction (rename label) v w = set_label-IsTransaction c os laws v label w
  run_op-IsTransaction store v w = record {
    rolled_back = save_with_failed c os (write_atomic os) v w;
    coherent = save_with-IsCoherent c os laws (write_atomic os) v w;
  }
  run_op-IsTransaction (unlock_with key) v w = record {
    rolled_back = λ e h. ap (λ (s : Step World (Unit {0})). s.1) (unlock_failed c os v key w e h);
    coherent = unlock-IsCoherent c os laws v key w;
  }
  run_op-IsTransaction close v w = record {
    rolled_back = λ e h. cc;
    coherent = lock-IsCoherent c v;
  }

  -- After every history of operations of `Op`, whichever of them fail, a vault that was coherent at the
  -- start is coherent: its header can be written and read back, and where it is unlocked, the bytes
  -- that it sealed open to the items that it holds in memory.
  pub run_ops-IsCoherent :
      (ops : List Op) (v : Vault) (w : World)
      → IsCoherent c v
      → IsCoherent c (run_ops c os ops v w).0
  unfolding run_ops
  run_ops-IsCoherent [] v w h = h
  run_ops-IsCoherent (op ∷ ops) v w h =
      run_ops-IsCoherent ops _ _ ((run_op-IsTransaction op v w).coherent h)
