-- ===== src/Tests/ItemRuns.antt =====
-- The theorems on what a successful operation leaves in memory, at the collection of the tests.
use secret_manager.Base.{◌≡◌, refl, true, not, [], ◌∷◌, bytes, ok}
use secret_manager.Vault.Types.{Item, ImportItem}
use secret_manager.Vault.Collection.{Vault, unlocked, keep}
use secret_manager.Vault.Store.{save}
use secret_manager.Vault.Store.Items.{insert_item}
use secret_manager.Vault.Store.Batch.{delete_items, import_items, mem_id}
use secret_manager.Vault.Store.Effects.{delete_items_state, Imported, import_items-Imported}
use secret_manager.Vault.Store.Effects.Insert.{Holds, insert_item-Holds}
use secret_manager.Vault.Store.Unlock.{state-save}
use secret_manager.Tests.Codec.{crates}
use secret_manager.Tests.Disk.{machine}
use secret_manager.Tests.Vaults.{start, mail, old_key, fresh, saving, saved, after}

saved_state : saved.state ≡ unlocked old_key (mail ∷ [])
saved_state = state-save crates machine fresh start

deleted : (delete_items crates machine (bytes "a" ∷ []) saved after).0 ≡ ok tt
unfolding saving delete_items secret_manager.Vault.Store.Delta.save_or_restore
deleted = refl

delete_items_state_example :
    (delete_items crates machine (bytes "a" ∷ []) saved after).1.state
    ≡ unlocked old_key (keep (λ (i : Item). not (mem_id i.id (bytes "a" ∷ []))) (mail ∷ []))
delete_items_state_example =
    delete_items_state crates machine (bytes "a") [] old_key (mail ∷ []) saved after saved_state
      deleted

abbrev web : ImportItem
web = record {
  label = bytes "Web";
  attributes = [];
  secret = bytes "x";
  content_type = bytes "text/plain";
  created = 1;
  modified = 2;
}

imported : (import_items crates machine (web ∷ []) saved after).0 ≡ ok tt
unfolding saving import_items secret_manager.Vault.Caps.check_caps
    secret_manager.Vault.Store.Delta.save_or_restore
imported = refl

import_items-Imported_example :
    Imported old_key
      (mail ∷ [])
      (web ∷ [])
      (import_items crates machine (web ∷ []) saved after).1.state
import_items-Imported_example =
    import_items-Imported crates machine web [] old_key (mail ∷ []) saved after saved_state imported

inserted :
    (insert_item crates machine
      (bytes "Post")
      mail.attributes
      (bytes "y")
      (bytes "text/plain")
      true
      saved
      after).0
    ≡ ok (bytes "a", true)
unfolding saving insert_item secret_manager.Vault.Collection.items_of
    secret_manager.Vault.Store.Delta.check_item_caps secret_manager.Vault.Caps.check_caps
    secret_manager.Vault.Store.Delta.save_or_restore
inserted = refl

insert_item-Holds_example :
    Holds old_key
      (bytes "a")
      (bytes "Post")
      mail.attributes
      (bytes "y")
      (bytes "text/plain")
      (insert_item crates machine
        (bytes "Post")
        mail.attributes
        (bytes "y")
        (bytes "text/plain")
        true
        saved
        after).1.state
insert_item-Holds_example =
    insert_item-Holds crates machine (bytes "Post") mail.attributes (bytes "y") (bytes "text/plain")
      (bytes "a") true true old_key (mail ∷ []) saved after saved_state inserted
