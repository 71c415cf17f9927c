-- ===== src/Vault/Store/Rotate/Opens.antt =====
-- What a change of key does to the vault and its items (`change_key`, vault/store.rs).
use secret_manager.Base.{
  ◌≡◌, refl, sym, ap, ◌∙◌, ◌≢◌, inl, inr, Bool, true, false, Option, none, some, List,
  if◌then◌else◌, Bool-cases, Bytes, text_eq, text_eq_iff, ok, err, Result-cases,
}
use mathlib.Core.Path.{subst}
use secret_manager.Vault.Types.{KdfParams, Item, VaultError}
use secret_manager.Vault.Crates.{Crates, CratesLaws}
use secret_manager.Vault.Kdf.{validate, salt_len}
use secret_manager.Vault.Format.{check_header}
use secret_manager.Vault.Os.{Os}
use secret_manager.Vault.Publish.{write_atomic}
use secret_manager.Vault.Collection.{State, locked, unlocked, Vault, Step, lock, verify_state}
use secret_manager.Vault.Store.{save, unlock_with_key}
use secret_manager.Vault.Store.Saved.{save_with_failed, save_with_ok}
use secret_manager.Vault.Store.Coherent.{OpensTo, StateOpens, IsCoherent, Written-IsCoherent}
use secret_manager.Vault.Store.Unlock.{state-save, unlock_opens, unlock-IsCoherent}
use secret_manager.Vault.Store.Rotate.{
  set_key, rekeyed, finish_rotation, rotate, rotate_unlocked, rotate_from, rotate_salted,
  change_key,
}
use secret_manager.Vault.Store.Rotate.Keeps.{check_header-rekeyed}

set_key_back :
    (key new : Bytes) (list : List Item) (s : State)
    → s ≡ unlocked key list
    → set_key key (set_key new s) ≡ s
unfolding set_key
set_key_back key new list locked h = cc
set_key_back key new list (unlocked k l) h = cc

-- Putting the old salts, parameters and key back undoes the rotation.
rekeyed_back :
    (v : Vault) (key salt index_salt new : Bytes) (kdf : KdfParams) (list : List Item)
    → v.state ≡ unlocked key list
    → rekeyed (rekeyed v salt index_salt kdf new) v.header.salt v.header.index_salt v.header.kdf key
      ≡ v
unfolding rekeyed
rekeyed_back v key salt index_salt new kdf list was =
    ap (λ (s : State). record v { state = s }) (set_key_back key new list v.state was)

not_retired :
    {World : Type 0} (c : Crates) (os : Os World) (v : Vault) (key : Bytes) (w : World)
    → (unlock_with_key c os key v w).0 ≡ ok tt
    → v.retired ≡ false
unfolding unlock_with_key
not_retired c os v key w h = elim (Bool-cases v.retired) [
  | inl e ↦ cc (rw (e, unlock_with_key) at h)
  | inr e ↦ e
]

-- What holds of the vault after a rotation to these values that succeeded.
pub record IsRotated (c : Crates) (salt : Bytes) (kdf : KdfParams) (key : Bytes) (list : List Item)
    (v : Vault) : Type 0 where
  pub opens : OpensTo c v key list
  pub salt_set : v.header.salt ≡ salt
  pub kdf_set : v.header.kdf ≡ kdf

module _ {World : Type 0} (c : Crates) (os : Os World) where
  module _ (old_key new_salt : Bytes) (new_kdf : KdfParams) (new_key : Bytes) where
    finish_failed :
        (before v1 : Vault) (r : Step World (Unit {0})) (e : VaultError)
        → ((x : VaultError) → r.0 ≡ err x → r.1 ≡ v1)
        → rekeyed v1 before.header.salt before.header.index_salt before.header.kdf old_key ≡ before
        → (finish_rotation c os before old_key r).0 ≡ err e
        → (finish_rotation c os before old_key r).1 ≡ before
    unfolding finish_rotation
    finish_failed before v1 (ok _, v, w) e failed back h = cc
    finish_failed before v1 (err x, v, w) e failed back h =
        ap (λ u. rekeyed u before.header.salt before.header.index_salt before.header.kdf old_key)
          (failed x refl)
        ∙ back

    finish_ok :
        (before : Vault) (r : Step World (Unit {0}))
        → (finish_rotation c os before old_key r).0 ≡ ok tt
        → (r.0 ≡ ok tt) × ((finish_rotation c os before old_key r).1 ≡ r.1)
    unfolding finish_rotation
    finish_ok before (ok tt, v, w) h = (refl, refl)
    finish_ok before (err x, v, w) h = cc

    rotate_failed :
        (new_index_salt : Bytes) (v : Vault) (list : List Item) (w : World) (e : VaultError)
        → v.state ≡ unlocked old_key list
        → (rotate c os old_key new_salt new_index_salt new_kdf new_key v w).0 ≡ err e
        → (rotate c os old_key new_salt new_index_salt new_kdf new_key v w).1 ≡ v
    unfolding rotate save
    rotate_failed new_index_salt v list w e was h =
        let v1 = rekeyed v new_salt new_index_salt new_kdf new_key in
        finish_failed v v1 (save c os v1 w) e (save_with_failed c os (write_atomic os) v1 w)
          (rekeyed_back v old_key new_salt new_index_salt new_key new_kdf list was) h

    module _ (laws : CratesLaws c) (valid : validate new_kdf ≡ ok tt) where
      saved_IsRotated :
          (new_index_salt : Bytes) (v : Vault) (list : List Item) (w : World)
          → v.state ≡ unlocked old_key list
          → check_header v.header ≡ ok tt
          → (save c os (rekeyed v new_salt new_index_salt new_kdf new_key) w).0 ≡ ok tt
          → IsRotated c new_salt new_kdf new_key list
              (save c os (rekeyed v new_salt new_index_salt new_kdf new_key) w).1
      unfolding save rekeyed secret_manager.Vault.Store.next_header
      saved_IsRotated new_index_salt v list w was accepted done =
          let v1 = rekeyed v new_salt new_index_salt new_kdf new_key in
          let d = save_with_ok c os (write_atomic os) v1 w done in
          let accepted1 =
            check_header-rekeyed v.header new_salt new_index_salt new_kdf accepted valid in
          let coherent = Written-IsCoherent c os laws (write_atomic os) v1 _ _ accepted1 d in
          let now_state : (save c os v1 w).1.state ≡ unlocked new_key list =
            state-save c os v1 w ∙ rw (was, set_key) refl in
          record {
            opens = subst (StateOpens c (save c os v1 w).1) now_state coherent.opens;
            salt_set = ap (λ (u : Vault). u.header.salt) d.vault;
            kdf_set = ap (λ (u : Vault). u.header.kdf) d.vault;
          }

      rotate_ok :
          (new_index_salt : Bytes) (v : Vault) (list : List Item) (w : World)
          → v.state ≡ unlocked old_key list
          → check_header v.header ≡ ok tt
          → (rotate c os old_key new_salt new_index_salt new_kdf new_key v w).0 ≡ ok tt
          → IsRotated c new_salt new_kdf new_key list
              (rotate c os old_key new_salt new_index_salt new_kdf new_key v w).1
      unfolding rotate
      rotate_ok new_index_salt v list w was accepted h =
          let f = finish_ok v (save c os (rekeyed v new_salt new_index_salt new_kdf new_key) w) h in
          subst (IsRotated c new_salt new_kdf new_key list) (sym f.1)
            (saved_IsRotated new_index_salt v list w was accepted f.0)

    branch_failed :
        (b : Bool) (v : Vault) (x e : VaultError) (w : World) (r : Step World (Unit {0}))
        → (r.0 ≡ err e → r.1 ≡ v)
        → (if b then r else (err x, v, w)).0 ≡ err e
        → (if b then r else (err x, v, w)).1 ≡ v
    branch_failed true v x e w r k h = k h
    branch_failed false v x e w r k h = refl

    from_failed :
        (new_index_salt : Bytes) (v : Vault) (list : List Item) (s : State) (w : World)
        (e : VaultError)
        → v.state ≡ s
        → s ≢ locked
        → (rotate_from c os old_key new_salt new_index_salt new_kdf new_key v s w).0 ≡ err e
        → (rotate_from c os old_key new_salt new_index_salt new_kdf new_key v s w).1 ≡ v
    unfolding rotate_from verify_state
    from_failed new_index_salt v list locked w e was free h = absurd (free refl)
    from_failed new_index_salt v list (unlocked key held) w e was free h =
        elim (Bool-cases (text_eq key old_key)) [
          | inl s ↦
              rw (s, rotate_from, verify_state)
                (rotate_failed new_index_salt v held w e
                  (was ∙ ap (λ k. unlocked k held) ((text_eq_iff key old_key).0 s))
                  (rw (s, rotate_from, verify_state) at h))
          | inr s ↦ rw (s, rotate_from, verify_state) refl
        ]

    salted_failed :
        (v : Vault) (key : Bytes) (list : List Item) (r : Option Bytes × World) (e : VaultError)
        → v.state ≡ unlocked key list
        → (rotate_salted c os old_key new_salt new_kdf new_key v r).0 ≡ err e
        → (rotate_salted c os old_key new_salt new_kdf new_key v r).1 ≡ v
    unfolding rotate_salted
    salted_failed v key list (none, w) e was h = refl
    salted_failed v key list (some s, w) e was h =
        from_failed s v list v.state _ e refl (λ none_held. cc) h

    -- A change of key that fails, for whatever reason, leaves an unlocked vault exactly as it was: its header, its salts,
    -- its parameters, its key in memory and its items.
    pub change_key_failed :
        (v : Vault) (key : Bytes) (list : List Item) (w : World) (e : VaultError)
        → v.state ≡ unlocked key list
        → (change_key c os old_key new_salt new_kdf new_key v w).0 ≡ err e
        → (change_key c os old_key new_salt new_kdf new_key v w).1 ≡ v
    unfolding change_key
    change_key_failed v key list w e was h = elim (Result-cases (validate new_kdf)) [
      | inr (x, i) ↦ rw (i, change_key) refl
      | inl (a, i) ↦ elim (Bool-cases (text_eq new_salt v.header.salt)) [
        | inl t ↦ rw (i, t, change_key) refl
        | inr t ↦
            rw (i, t, change_key)
              (salted_failed v key list (os.random salt_len w) e was (rw (i, t, change_key) at h))
      ]
    ]

    unlocked_ok :
        (new_index_salt : Bytes) (list : List Item) (r : Step World (Unit {0}))
        → CratesLaws c
        → validate new_kdf ≡ ok tt
        → (r.0 ≡ ok tt → (r.1.state ≡ unlocked old_key list) × IsCoherent c r.1)
        → (rotate_unlocked c os old_key new_salt new_index_salt new_kdf new_key r).0 ≡ ok tt
        → IsRotated c new_salt new_kdf new_key list
            (rotate_unlocked c os old_key new_salt new_index_salt new_kdf new_key r).1
    unfolding rotate_unlocked lock
    unlocked_ok new_index_salt list (err e, v, w) laws valid k h = cc
    unlocked_ok new_index_salt list (ok tt, v, w) laws valid k h =
        let (was, coherent) = k refl in
        let d =
          rotate_ok laws valid new_index_salt v list w was coherent.writable.header_accepted h in
        record {
          opens = record {
            plain = d.opens.plain;
            opens = d.opens.opens;
            decodes = d.opens.decodes;
          };
          salt_set = d.salt_set;
          kdf_set = d.kdf_set;
        }

    same_items :
        (v : Vault) (key : Bytes) (held list : List Item)
        → key ≡ old_key
        → OpensTo c v key held
        → OpensTo c v old_key list
        → held ≡ list
    same_items v key held list same a b =
        let o1 = a.opens in let o2 = b.opens in let d1 = a.decodes in let d2 = b.decodes in cc

    from_ok :
        (new_index_salt : Bytes) (v : Vault) (list : List Item) (s : State) (w : World)
        → CratesLaws c
        → validate new_kdf ≡ ok tt
        → v.state ≡ s
        → IsCoherent c v
        → OpensTo c v old_key list
        → (rotate_from c os old_key new_salt new_index_salt new_kdf new_key v s w).0 ≡ ok tt
        → IsRotated c new_salt new_kdf new_key list
            (rotate_from c os old_key new_salt new_index_salt new_kdf new_key v s w).1
    unfolding rotate_from verify_state
    from_ok new_index_salt v list locked w laws valid was coherent o h =
        unlocked_ok new_index_salt list (unlock_with_key c os old_key v w) laws valid
          (λ done. (
            (unlock_opens c os v old_key list w was (not_retired c os v old_key w done) o).1,
            unlock-IsCoherent c os laws v old_key w coherent,
          ))
          h
    from_ok new_index_salt v list (unlocked key held) w laws valid was coherent o h =
        elim (Bool-cases (text_eq key old_key)) [
          | inl s ↦
              let same = (text_eq_iff key old_key).0 s in
              let items =
                same_items v key held list same (subst (StateOpens c v) was coherent.opens) o in
              rw (s, rotate_from, verify_state)
                (rotate_ok laws valid new_index_salt v list w (was ∙ cc (same, items))
                  coherent.writable.header_accepted (rw (s, rotate_from, verify_state) at h))
          | inr s ↦ cc (rw (s, rotate_from, verify_state) at h)
        ]

    salted_ok :
        (v : Vault) (list : List Item) (r : Option Bytes × World)
        → CratesLaws c
        → validate new_kdf ≡ ok tt
        → IsCoherent c v
        → OpensTo c v old_key list
        → (rotate_salted c os old_key new_salt new_kdf new_key v r).0 ≡ ok tt
        → IsRotated c new_salt new_kdf new_key list
            (rotate_salted c os old_key new_salt new_kdf new_key v r).1
    unfolding rotate_salted
    salted_ok v list (none, w) laws valid coherent o h = cc
    salted_ok v list (some s, w) laws valid coherent o h =
        from_ok s v list v.state _ laws valid refl coherent o h

    -- A change of key that succeeds on a coherent vault, locked or unlocked, seals the same items
    -- under the new key, with the new salt and the new parameters in the header.
    pub change_key-IsRotated :
        (v : Vault) (list : List Item) (w : World)
        → CratesLaws c
        → IsCoherent c v
        → OpensTo c v old_key list
        → (change_key c os old_key new_salt new_kdf new_key v w).0 ≡ ok tt
        → IsRotated c new_salt new_kdf new_key list
            (change_key c os old_key new_salt new_kdf new_key v w).1
    unfolding change_key
    change_key-IsRotated v list w laws coherent o h = elim (Result-cases (validate new_kdf)) [
      | inr (x, i) ↦ cc (rw (i, change_key) at h)
      | inl (tt, i) ↦ elim (Bool-cases (text_eq new_salt v.header.salt)) [
        | inl t ↦ cc (rw (i, t, change_key) at h)
        | inr t ↦
            rw (i, t, change_key)
              (salted_ok v list (os.random salt_len w) laws i coherent o
                (rw (i, t, change_key) at h))
      ]
    ]
