-- ===== src/Vault/Store/Unlock.antt =====
-- Locking and unlocking a collection (vault/store.rs).
use secret_manager.Base.{
  ◌≡◌, refl, ap, ◌∙◌, inl, inr, Bool, true, false, Option, none, some, List, arith, if◌then◌else◌,
  Bytes, text_eq, Result, ok, err, ok_or, Result-cases,
}
use mathlib.Core.Path.{subst}
use secret_manager.Vault.Types.{Item, VaultError, CryptoError, FormatError}
use secret_manager.Vault.Crates.{Crates, CratesLaws}
use secret_manager.Vault.Kdf.{open_sealed}
use secret_manager.Vault.Format.{decode_items}
use secret_manager.Vault.Os.{Os}
use secret_manager.Vault.Publish.{write_atomic}
use secret_manager.Vault.Collection.{State, locked, unlocked, Vault, Step, lock}
use secret_manager.Vault.Store.{
  save, save_with, note_rewrite, refresh_index, unlock_items, unlock_plain, unlock_state,
  unlock_with_key,
}
use secret_manager.Vault.Store.Saved.{save_with_failed, save_with_ok}
use secret_manager.Vault.Store.Coherent.{OpensTo, IsCoherent, StateOpens, save_with-IsCoherent}

module _ {World : Type 0} (c : Crates) (os : Os World) where
  -- Saving does not lock, unlock or edit.
  pub state-save : (v : Vault) (w : World) → (save c os v w).1.state ≡ v.state
  unfolding save
  state-save v w = elim (Result-cases (save_with c os (write_atomic os) v w).0) [
    | inl (tt, e) ↦ ap (λ (u : Vault). u.state) (save_with_ok c os (write_atomic os) v w e).vault
    | inr (x, e) ↦ ap (λ (u : Vault). u.state) (save_with_failed c os (write_atomic os) v w x e)
  ]

  note_rewrite_lem :
      (r : Step World (Unit {0}))
      → ((note_rewrite c os r).0 ≡ ok tt) × ((note_rewrite c os r).1.state ≡ r.1.state)
  unfolding note_rewrite
  note_rewrite_lem (ok _, v, w) = (refl, refl)
  note_rewrite_lem (err e, v, w) = (refl, refl)

  pick_refresh :
      (b : Bool) (v : Vault) (w : World)
      → ((if b
            then note_rewrite c os (save c os v w)
            else (ok tt, record v { index_warning = none }, w)).0
          ≡ ok tt)
        × ((if b
              then note_rewrite c os (save c os v w)
              else (ok tt, record v { index_warning = none }, w)).1.state
            ≡ v.state)
  pick_refresh true v w = let (a, b) = note_rewrite_lem (save c os v w) in (a, b ∙ state-save v w)
  pick_refresh false v w = (refl, refl)

  -- Rewriting the index never fails an unlock, and never changes what is unlocked.
  pub refresh_index_lem :
      (v : Vault) (list : List Item) (w : World)
      → ((refresh_index c os v list w).0 ≡ ok tt)
        × ((refresh_index c os v list w).1.state ≡ v.state)
  unfolding refresh_index
  refresh_index_lem v list w = pick_refresh _ v w

  unlock_plain_lem :
      (v : Vault) (key : Bytes) (list : List Item) (w : World)
      → OpensTo c v key list
      → unlock_plain c os v key w (open_sealed c key v.header.nonce v.aad v.ciphertext)
        ≡ refresh_index c os (record v { state = unlocked key list }) list w
  unfolding unlock_plain unlock_items open_sealed decode_items
  unlock_plain_lem v key list w o = simp (o.opens, o.decodes)

  unlock_locked_lem :
      (v : Vault) (key : Bytes) (w : World)
      → v.state ≡ locked
      → v.retired ≡ false
      → unlock_with_key c os key v w
        ≡ unlock_plain c os v key w (open_sealed c key v.header.nonce v.aad v.ciphertext)
  unfolding unlock_with_key unlock_state
  unlock_locked_lem v key w is_locked free = simp (free, is_locked)

  -- A locked vault whose ciphertext opens to some items unlocks to just those items, even if the
  -- index cannot be rewritten.
  pub unlock_opens :
      (v : Vault) (key : Bytes) (list : List Item) (w : World)
      → v.state ≡ locked
      → v.retired ≡ false
      → OpensTo c v key list
      → ((unlock_with_key c os key v w).0 ≡ ok tt)
        × ((unlock_with_key c os key v w).1.state ≡ unlocked key list)
  unlock_opens v key list w is_locked free o =
      rw (unlock_locked_lem v key w is_locked free, unlock_plain_lem v key list w o)
        (refresh_index_lem (record v { state = unlocked key list }) list w)

  -- Locking loses nothing: a coherent unlocked vault that is locked and unlocked again with its key
  -- holds the same items.
  pub unlock-lock :
      (v : Vault) (key : Bytes) (list : List Item) (w : World)
      → IsCoherent c v
      → v.state ≡ unlocked key list
      → v.retired ≡ false
      → ((unlock_with_key c os key (lock v) w).0 ≡ ok tt)
        × ((unlock_with_key c os key (lock v) w).1.state ≡ unlocked key list)
  unfolding lock
  unlock-lock v key list w coherent was free =
      let o = subst (StateOpens c v) was coherent.opens in
      unlock_opens (lock v) key list w refl free
        (record { plain = o.plain; opens = o.opens; decodes = o.decodes })

  unlock_items_failed :
      (v : Vault) (key : Bytes) (w : World) (r : Result FormatError (List Item)) (e : VaultError)
      → (unlock_items c os v key w r).0 ≡ err e
      → unlock_items c os v key w r ≡ (err e, v, w)
  unfolding unlock_items
  unlock_items_failed v key w (err x) e h = cc
  unlock_items_failed v key w (ok list) e h =
      cc ((refresh_index_lem (record v { state = unlocked key list }) list w).0)

  unlock_plain_failed :
      (v : Vault) (key : Bytes) (w : World) (r : Result CryptoError Bytes) (e : VaultError)
      → (unlock_plain c os v key w r).0 ≡ err e
      → unlock_plain c os v key w r ≡ (err e, v, w)
  unfolding unlock_plain
  unlock_plain_failed v key w (err x) e h = cc
  unlock_plain_failed v key w (ok plain) e h =
      unlock_items_failed v key w (decode_items c plain) e h

  unlock_state_failed :
      (v : Vault) (key : Bytes) (w : World) (s : State) (e : VaultError)
      → (unlock_state c os v key w s).0 ≡ err e
      → unlock_state c os v key w s ≡ (err e, v, w)
  unfolding unlock_state
  unlock_state_failed v key w locked e h = unlock_plain_failed v key w _ e h
  unlock_state_failed v key w (unlocked current list) e h = ground arith

  -- A refused unlock changes neither the vault nor any file.
  pub unlock_failed :
      (v : Vault) (key : Bytes) (w : World) (e : VaultError)
      → (unlock_with_key c os key v w).0 ≡ err e
      → unlock_with_key c os key v w ≡ (err e, v, w)
  unfolding unlock_with_key
  unlock_failed v key w e h =
      gate v.retired (unlock_state c os v key w v.state) (unlock_state_failed v key w v.state e) h
    where
      gate :
          (b : Bool) (s : Step World (Unit {0}))
          → (s.0 ≡ err e → s ≡ (err e, v, w))
          → (if b then (err VaultError.retired, v, w) else s).0 ≡ err e
          → (if b then (err VaultError.retired, v, w) else s) ≡ (err e, v, w)
      gate true s k g = cc
      gate false s k g = k g

if-IsCoherent :
    {World : Type 0} (c : Crates) (b : Bool) (r s : Step World (Unit {0}))
    → IsCoherent c r.1
    → IsCoherent c s.1
    → IsCoherent c (if b then r else s).1
if-IsCoherent c true r s h k = h
if-IsCoherent c false r s h k = k

StateOpens-warned :
    (c : Crates) (v : Vault) (warning : Option VaultError) (s : State)
    → StateOpens c v s
    → StateOpens c (record v { index_warning = warning }) s
StateOpens-warned c v warning locked o = tt
StateOpens-warned c v warning (unlocked key list) o = record {
  plain = o.plain;
  opens = o.opens;
  decodes = o.decodes;
}

warned-IsCoherent :
    (c : Crates) (v : Vault) (warning : Option VaultError)
    → IsCoherent c v
    → IsCoherent c (record v { index_warning = warning })
warned-IsCoherent c v warning h = record {
  writable = record {
    header_written = h.writable.header_written;
    header_accepted = h.writable.header_accepted;
    fits = h.writable.fits;
  };
  opens = StateOpens-warned c v warning v.state h.opens;
}

module _ {World : Type 0} (c : Crates) (os : Os World) (laws : CratesLaws c) where
  note_rewrite-IsCoherent :
      (r : Step World (Unit {0})) → IsCoherent c r.1 → IsCoherent c (note_rewrite c os r).1
  unfolding note_rewrite
  note_rewrite-IsCoherent (ok _, v, w) h = warned-IsCoherent c v none h
  note_rewrite-IsCoherent (err e, v, w) h = warned-IsCoherent c v (some e) h

  pick-IsCoherent :
      (b : Bool) (v : Vault) (w : World)
      → IsCoherent c v
      → IsCoherent c
          (if b
            then note_rewrite c os (save c os v w)
            else (ok tt, record v { index_warning = none }, w)).1
  unfolding save
  pick-IsCoherent true v w h =
      note_rewrite-IsCoherent _ (save_with-IsCoherent c os laws (write_atomic os) v w h)
  pick-IsCoherent false v w h = warned-IsCoherent c v none h

  refresh_index-IsCoherent :
      (v : Vault) (list : List Item) (w : World)
      → IsCoherent c v
      → IsCoherent c (refresh_index c os v list w).1
  unfolding refresh_index
  refresh_index-IsCoherent v list w h = pick-IsCoherent _ v w h

  unlock_items-IsCoherent :
      (v : Vault) (key plain : Bytes) (w : World) (r : Option (List Item))
      → c.items_from_bytes plain ≡ r
      → c.decrypt key v.header.nonce v.aad v.ciphertext ≡ some plain
      → IsCoherent c v
      → IsCoherent c (unlock_items c os v key w (ok_or r FormatError.encoding)).1
  unfolding unlock_items
  unlock_items-IsCoherent v key plain w none d o h = h
  unlock_items-IsCoherent v key plain w (some list) d o h =
      refresh_index-IsCoherent (record v { state = unlocked key list }) list w
        (record {
          writable = record {
            header_written = h.writable.header_written;
            header_accepted = h.writable.header_accepted;
            fits = h.writable.fits;
          };
          opens = record { plain = plain; opens = o; decodes = d };
        })

  unlock_plain-IsCoherent :
      (v : Vault) (key : Bytes) (w : World) (r : Option Bytes)
      → c.decrypt key v.header.nonce v.aad v.ciphertext ≡ r
      → IsCoherent c v
      → IsCoherent c (unlock_plain c os v key w (ok_or r CryptoError.auth)).1
  unfolding unlock_plain decode_items
  unlock_plain-IsCoherent v key w none o h = h
  unlock_plain-IsCoherent v key w (some plain) o h =
      unlock_items-IsCoherent v key plain w _ refl o h

  unlock_state-IsCoherent :
      (v : Vault) (key : Bytes) (w : World) (s : State)
      → IsCoherent c v
      → IsCoherent c (unlock_state c os v key w s).1
  unfolding unlock_state open_sealed
  unlock_state-IsCoherent v key w locked h = unlock_plain-IsCoherent v key w _ refl h
  unlock_state-IsCoherent v key w (unlocked current list) h =
      if-IsCoherent c (text_eq current key) (ok tt, v, w) (err VaultError.wrong_password, v, w) h h

  -- Unlocking keeps the invariant, whichever way it ends.
  pub unlock-IsCoherent :
      (v : Vault) (key : Bytes) (w : World)
      → IsCoherent c v
      → IsCoherent c (unlock_with_key c os key v w).1
  unfolding unlock_with_key
  unlock-IsCoherent v key w h =
      if-IsCoherent c v.retired (err VaultError.retired, v, w) (unlock_state c os v key w v.state) h
        (unlock_state-IsCoherent v key w v.state h)

-- Locking keeps the invariant.
pub lock-IsCoherent : (c : Crates) (v : Vault) → IsCoherent c v → IsCoherent c (lock v)
unfolding lock
lock-IsCoherent c v h = record {
  writable = record {
    header_written = h.writable.header_written;
    header_accepted = h.writable.header_accepted;
    fits = h.writable.fits;
  };
  opens = tt;
}
