-- ===== src/Vault/Store/Transaction.antt =====
-- An operation of vault/store.rs as a transaction on the vault in memory.
use secret_manager.Base.{◌≡◌, refl, sym, ap, ◌∙◌, ok, err}
use mathlib.Core.Path.{subst}
use secret_manager.Vault.Types.{VaultError}
use secret_manager.Vault.Crates.{Crates, CratesLaws}
use secret_manager.Vault.Format.{check_header}
use secret_manager.Vault.Os.{Os}
use secret_manager.Vault.Publish.{write_atomic}
use secret_manager.Vault.Collection.{Vault, Step}
use secret_manager.Vault.Store.{save}
use secret_manager.Vault.Store.Saved.{save_with_failed, save_with_ok}
use secret_manager.Vault.Store.Coherent.{IsCoherent, Written-IsCoherent}
use secret_manager.Vault.Store.Delta.{restore_if_failed, save_or_restore, returning}

pub record IsTransaction {World A : Type 0} (c : Crates) (v : Vault) (r : Step World A)
    : Type 0 where
  pub rolled_back : (e : VaultError) → r.0 ≡ err e → r.1 ≡ v
  pub coherent : IsCoherent c v → IsCoherent c r.1

module _ {World : Type 0} (c : Crates) where
  pub refused-IsTransaction :
      {A : Type 0} (v : Vault) (w : World) (e : VaultError)
      → IsTransaction {A = A} c v (err e, v, w)
  refused-IsTransaction v w e = record { rolled_back = λ x h. refl; coherent = λ h. h }

  pub unchanged-IsTransaction :
      {A : Type 0} (v : Vault) (w : World) (a : A) → IsTransaction c v (ok a, v, w)
  unchanged-IsTransaction v w a = record { rolled_back = λ x h. refl; coherent = λ h. h }

  pub returning-IsTransaction :
      {A : Type 0} (a : A) (v : Vault) (r : Step World (Unit {0}))
      → IsTransaction c v r
      → IsTransaction c v (returning a r)
  returning-IsTransaction a v (ok _, v', w) t = record {
    rolled_back = λ x h. cc;
    coherent = t.coherent;
  }
  returning-IsTransaction a v (err e, v', w) t = record {
    rolled_back = λ x h. t.rolled_back e refl;
    coherent = t.coherent;
  }

module _ {World : Type 0} (c : Crates) (os : Os World) (laws : CratesLaws c) where
  restored-IsTransaction {ℓ} :
      {T : Type ℓ} (restore : Vault → T → Vault) (before : T) (v v1 : Vault)
      (r : Step World (Unit {0}))
      → restore v1 before ≡ v
      → ((e : VaultError) → r.0 ≡ err e → r.1 ≡ v1)
      → (r.0 ≡ ok tt → IsCoherent c v → IsCoherent c r.1)
      → IsTransaction c v (restore_if_failed restore before r)
  unfolding restore_if_failed
  restored-IsTransaction restore before v v1 (ok tt, v', w) back failed done = record {
    rolled_back = λ e h. cc;
    coherent = done refl;
  }
  restored-IsTransaction restore before v v1 (err x, v', w) back failed done =
      let same : restore v' before ≡ v = ap (λ u. restore u before) (failed x refl) ∙ back in
      record { rolled_back = λ e h. same; coherent = λ h. subst (IsCoherent c) (sym same) h }

  -- A change whose undo gives the vault back is a transaction once it is saved.
  pub save_or_restore-IsTransaction {ℓ} :
      {T : Type ℓ} (restore : Vault → T → Vault) (before : T) (v v1 : Vault) (w : World)
      → restore v1 before ≡ v
      → check_header v1.header ≡ check_header v.header
      → IsTransaction c v (save_or_restore c os restore before v1 w)
  unfolding save_or_restore save
  save_or_restore-IsTransaction restore before v v1 w back same =
      restored-IsTransaction restore before v v1 (save c os v1 w) back
        (save_with_failed c os (write_atomic os) v1 w)
        λ done h.
          Written-IsCoherent c os laws (write_atomic os) v1 _ _ (same ∙ h.writable.header_accepted)
            (save_with_ok c os (write_atomic os) v1 w done)
