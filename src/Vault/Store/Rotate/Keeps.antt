-- ===== src/Vault/Store/Rotate/Keeps.antt =====
-- The lock state over a change of key, and the check of a rekeyed header (vault/store.rs).
use secret_manager.Base.{
  ◌≡◌, refl, ap, ◌∙◌, inl, inr, Bool, true, false, Option, none, some, arith, if◌then◌else◌, Bytes,
  text_eq, ok, err, Result-cases,
}
use secret_manager.Vault.Types.{KdfParams, Header, VaultError}
use secret_manager.Vault.Crates.{Crates}
use secret_manager.Vault.Kdf.{validate, salt_len}
use secret_manager.Vault.Format.{check_header}
use secret_manager.Vault.Os.{Os}
use secret_manager.Vault.Collection.{
  State, locked, unlocked, Vault, Step, is_locked, lock, verify_state,
}
use secret_manager.Vault.Store.{save}
use secret_manager.Vault.Store.Unlock.{state-save, unlock_failed}
use secret_manager.Vault.Store.Rotate.{
  set_key, rekeyed, finish_rotation, rotate, rotate_unlocked, rotate_from, rotate_salted,
  change_key,
}

is_locked-set_key : (key : Bytes) (s : State) → is_locked (set_key key s) ≡ is_locked s
unfolding is_locked set_key
is_locked-set_key key locked = refl
is_locked-set_key key (unlocked old list) = refl

pub check_header-rekeyed :
    (h : Header) (salt index_salt : Bytes) (kdf : KdfParams)
    → check_header h ≡ ok tt
    → validate kdf ≡ ok tt
    → check_header (record h { salt = salt; kdf = kdf; index_salt = index_salt }) ≡ ok tt
unfolding check_header
check_header-rekeyed h salt index_salt kdf accepted valid = ground (arith, valid)

module _ {World : Type 0} (c : Crates) (os : Os World) where
  finish_lock_state :
      (before : Vault) (old_key : Bytes) (r : Step World (Unit {0}))
      → is_locked (finish_rotation c os before old_key r).1.state ≡ is_locked r.1.state
  unfolding finish_rotation rekeyed set_key is_locked
  finish_lock_state before old_key (ok _, v, w) = refl
  finish_lock_state before old_key (err e, v, w) = is_locked-set_key old_key v.state

  module _ (old_key new_salt new_index_salt : Bytes) (new_kdf : KdfParams) (new_key : Bytes) where
    rotate_lock_state :
        (v : Vault) (w : World)
        → is_locked (rotate c os old_key new_salt new_index_salt new_kdf new_key v w).1.state
          ≡ is_locked v.state
    unfolding rotate rekeyed
    rotate_lock_state v w =
        let v1 = rekeyed v new_salt new_index_salt new_kdf new_key in
        finish_lock_state v old_key (save c os v1 w)
        ∙ ap is_locked (state-save c os v1 w)
        ∙ is_locked-set_key new_key v.state

    unlocked_lock_state :
        (v : Vault) (w : World) (r : Step World (Unit {0}))
        → v.state ≡ locked
        → ((e : VaultError) → r.0 ≡ err e → r ≡ (err e, v, w))
        → is_locked (rotate_unlocked c os old_key new_salt new_index_salt new_kdf new_key r).1.state
          ≡ true
    unfolding rotate_unlocked lock is_locked
    unlocked_lock_state v w (ok _, v', w') was k = refl
    unlocked_lock_state v w (err e, v', w') was k =
        ap (λ (r : Step World (Unit {0})). is_locked r.1.state) (k e refl) ∙ ap is_locked was

    if_verified_lock_state :
        (b : Bool) (v : Vault) (w w' : World)
        → is_locked
            (if b
              then rotate c os old_key new_salt new_index_salt new_kdf new_key v w
              else (err VaultError.wrong_password, v, w')).1.state
          ≡ is_locked v.state
    if_verified_lock_state true v w w' = rotate_lock_state v w
    if_verified_lock_state false v w w' = refl

    from_lock_state :
        (v : Vault) (s : State) (w : World)
        → v.state ≡ s
        → is_locked (rotate_from c os old_key new_salt new_index_salt new_kdf new_key v s w).1.state
          ≡ is_locked s
    unfolding rotate_from is_locked
    from_lock_state v locked w was = unlocked_lock_state v w _ was (unlock_failed c os v old_key w)
    from_lock_state v (unlocked key list) w was =
        if_verified_lock_state (verify_state c v old_key (unlocked key list)) v w w
        ∙ ap is_locked was

  salted_lock_state :
      (old_key new_salt : Bytes) (new_kdf : KdfParams) (new_key : Bytes) (v : Vault)
      (r : Option Bytes × World)
      → is_locked (rotate_salted c os old_key new_salt new_kdf new_key v r).1.state
        ≡ is_locked v.state
  unfolding rotate_salted
  salted_lock_state old_key new_salt new_kdf new_key v (none, w) = refl
  salted_lock_state old_key new_salt new_kdf new_key v (some s, w) =
      from_lock_state old_key new_salt s new_kdf new_key v v.state _ refl

  if_reused_lock_state :
      (b : Bool) (v : Vault) (e : VaultError) (w : World) (r : Step World (Unit {0}))
      → is_locked r.1.state ≡ is_locked v.state
      → is_locked (if b then (err e, v, w) else r).1.state ≡ is_locked v.state
  if_reused_lock_state true v e w r k = refl
  if_reused_lock_state false v e w r k = k

  -- Changing the key leaves a locked vault locked and an unlocked one unlocked, whether it succeeds
  -- or fails, and whatever the operating system and the cipher do.
  pub change_key_lock_state :
      (old_key new_salt : Bytes) (new_kdf : KdfParams) (new_key : Bytes) (v : Vault) (w : World)
      → is_locked (change_key c os old_key new_salt new_kdf new_key v w).1.state ≡ is_locked v.state
  unfolding change_key
  change_key_lock_state old_key new_salt new_kdf new_key v w =
      elim (Result-cases (validate new_kdf)) [
        | inl (a, e) ↦
            rw (e, change_key)
              (if_reused_lock_state (text_eq new_salt v.header.salt) v VaultError.salt_reused w _
                (salted_lock_state old_key new_salt new_kdf new_key v (os.random salt_len w)))
        | inr (x, e) ↦ rw (e, change_key) refl
      ]
