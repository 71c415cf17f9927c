-- ===== src/Vault/Store/Saved.antt =====
-- What one save of vault/store.rs leaves in memory.
use secret_manager.Base.{
  ℕ, ◌≡◌, refl, Bool, true, false, Option, none, some, List, ◌++◌, if◌then◌else◌, Bytes, Result, ok,
  err,
}
use secret_manager.Vault.Types.{Header, Item, VaultError}
use secret_manager.Vault.Crates.{Crates}
use secret_manager.Vault.Kdf.{nonce_len}
use secret_manager.Vault.Os.{FilePath, Os}
use secret_manager.Vault.Collection.{State, locked, unlocked, Vault, Step}
use secret_manager.Vault.Store.{
  seal_file, save_published, save_sealed, next_header, save_nonce, save_state, save_with,
}

abbrev pub Publish : Type 0 → Type 0
Publish World = FilePath → Bytes → World → Result VaultError (Unit {0}) × World

-- A guard that refuses leaves the vault as it was.
pub gate_failed :
    {World A : Type 0} (b : Bool) (s : Step World A) (v : Vault) (w : World) (x e : VaultError)
    → (s.0 ≡ err e → s.1 ≡ v)
    → (if b then (err x, v, w) else s).0 ≡ err e
    → (if b then (err x, v, w) else s).1 ≡ v
gate_failed true s v w x e k h = refl
gate_failed false s v w x e k h = k h

module _ {World : Type 0} (c : Crates) (os : Os World) (publish : Publish World) where
  save_published_failed :
      (v : Vault) (saved : Header) (aad ciphertext : Bytes)
      (r : Result VaultError (Unit {0}) × World) (e : VaultError)
      → (save_published c os v saved aad ciphertext r).0 ≡ err e
      → (save_published c os v saved aad ciphertext r).1 ≡ record v { header = saved }
  unfolding save_published
  save_published_failed v saved aad ciphertext (ok _, w) e h = cc
  save_published_failed v saved aad ciphertext (err x, w) e h = refl

  save_sealed_failed :
      (v : Vault) (saved : Header) (w : World) (r : Result VaultError (Bytes × Bytes))
      (e : VaultError)
      → (save_sealed c os publish v saved w r).0 ≡ err e
      → (save_sealed c os publish v saved w r).1 ≡ record v { header = saved }
  unfolding save_sealed
  save_sealed_failed v saved w (err x) e h = refl
  save_sealed_failed v saved w (ok (aad, ciphertext)) e h =
      save_published_failed v saved aad ciphertext (publish v.path (aad ++ ciphertext) w) e h

  save_nonce_failed :
      (v : Vault) (key : Bytes) (list : List Item) (r : Option Bytes × World) (e : VaultError)
      → (save_nonce c os publish v key list r).0 ≡ err e
      → (save_nonce c os publish v key list r).1 ≡ v
  unfolding save_nonce
  save_nonce_failed v key list (none, w) e h = refl
  save_nonce_failed v key list (some nonce, w) e h =
      let header = next_header c os v list nonce (os.now w).0 in
      let v1 = record v { header = header } in
      save_sealed_failed v1 v.header (os.now w).1 (seal_file c os v1 key list) e h

  save_state_failed :
      (v : Vault) (s : State) (w : World) (e : VaultError)
      → (save_state c os publish v s w).0 ≡ err e
      → (save_state c os publish v s w).1 ≡ v
  unfolding save_state
  save_state_failed v locked w e h = refl
  save_state_failed v (unlocked key list) w e h =
      save_nonce_failed v key list (os.random nonce_len w) e h

  -- A save that fails, at whatever step and however it publishes, leaves the vault exactly as it
  -- was.
  pub save_with_failed :
      (v : Vault) (w : World) (e : VaultError)
      → (save_with c os publish v w).0 ≡ err e
      → (save_with c os publish v w).1 ≡ v
  unfolding save_with
  save_with_failed v w e h =
      gate_failed v.retired (save_state c os publish v v.state w) v w VaultError.retired e
        (save_state_failed v v.state w e) h

  -- What a save that succeeds did: the bytes it sealed, where they went, and the vault after it.
  pub record Written (v : Vault) (start : World) (r : Step World (Unit {0})) : Type 0 where
    pub key : Bytes
    pub list : List Item
    pub nonce : Bytes
    pub time : ℕ
    pub aad : Bytes
    pub ciphertext : Bytes
    pub before : World
    pub started : before ≡ (os.now start).1
    pub not_retired : v.retired ≡ false
    pub was_unlocked : v.state ≡ unlocked key list
    pub sealed :
        seal_file c os (record v { header = next_header c os v list nonce time }) key list
        ≡ ok (aad, ciphertext)
    pub published : (publish v.path (aad ++ ciphertext) before).0 ≡ ok tt
    pub vault : r.1 ≡ record v {
      header = next_header c os v list nonce time;
      aad = aad;
      ciphertext = ciphertext;
    }
    pub world : r.2 ≡ (publish v.path (aad ++ ciphertext) before).1

  save_published_ok :
      (v : Vault) (saved : Header) (aad ciphertext : Bytes)
      (r : Result VaultError (Unit {0}) × World)
      → (save_published c os v saved aad ciphertext r).0 ≡ ok tt
      → (r.0 ≡ ok tt)
        × ((save_published c os v saved aad ciphertext r).1
            ≡ record v { aad = aad; ciphertext = ciphertext })
        × ((save_published c os v saved aad ciphertext r).2 ≡ r.1)
  unfolding save_published
  save_published_ok v saved aad ciphertext (ok tt, w) h = (refl, refl, refl)
  save_published_ok v saved aad ciphertext (err x, w) h = cc

  module _ (v : Vault) (key : Bytes) (list : List Item) (free : v.retired ≡ false)
      (open_now : v.state ≡ unlocked key list) where
    save_sealed_ok :
        (nonce : Bytes) (time : ℕ) (start w : World) (r : Result VaultError (Bytes × Bytes))
        → w ≡ (os.now start).1
        → seal_file c os (record v { header = next_header c os v list nonce time }) key list ≡ r
        → (save_sealed c os publish
            (record v { header = next_header c os v list nonce time })
            v.header
            w
            r).0
          ≡ ok tt
        → Written v start (
            save_sealed c os publish
              (record v { header = next_header c os v list nonce time })
              v.header
              w
              r)
    unfolding save_sealed
    save_sealed_ok nonce time start w (err x) i e h = cc
    save_sealed_ok nonce time start w (ok (aad, ciphertext)) i e h =
        let v1 = record v { header = next_header c os v list nonce time } in
        let (p, q, s) =
          save_published_ok v1 v.header aad ciphertext (publish v.path (aad ++ ciphertext) w) h in
        record {
          key = key;
          list = list;
          nonce = nonce;
          time = time;
          aad = aad;
          ciphertext = ciphertext;
          before = w;
          started = i;
          not_retired = free;
          was_unlocked = open_now;
          sealed = e;
          published = p;
          vault = q;
          world = s;
        }

    save_nonce_ok :
        (r : Option Bytes × World)
        → (save_nonce c os publish v key list r).0 ≡ ok tt
        → Written v r.1 (save_nonce c os publish v key list r)
    unfolding save_nonce
    save_nonce_ok (none, w) h = cc
    save_nonce_ok (some nonce, w) h =
        save_sealed_ok nonce (os.now w).0 w (os.now w).1 _ refl
          (unfold seal_file next_header save_sealed in refl) h

  save_state_ok :
      (v : Vault) (s : State) (w : World)
      → v.retired ≡ false
      → v.state ≡ s
      → (save_state c os publish v s w).0 ≡ ok tt
      → Written v (os.random nonce_len w).1 (save_state c os publish v s w)
  unfolding save_state
  save_state_ok v locked w free e h = cc
  save_state_ok v (unlocked key list) w free e h =
      save_nonce_ok v key list free e (os.random nonce_len w) h

  gate_ok :
      (b : Bool) (s : Step World (Unit {0})) (v : Vault) (w : World)
      → (b ≡ false → s.0 ≡ ok tt → Written v (os.random nonce_len w).1 s)
      → (if b then (err VaultError.retired, v, w) else s).0 ≡ ok tt
      → Written v (os.random nonce_len w).1 (if b then (err VaultError.retired, v, w) else s)
  gate_ok true s v w k h = cc
  gate_ok false s v w k h = k refl h

  -- A save that succeeds has published what it sealed, and the vault describes just that.
  pub save_with_ok :
      (v : Vault) (w : World)
      → (save_with c os publish v w).0 ≡ ok tt
      → Written v (os.random nonce_len w).1 (save_with c os publish v w)
  unfolding save_with
  save_with_ok v w h =
      gate_ok v.retired (save_state c os publish v v.state w) v w
        (λ free. save_state_ok v v.state w free refl) h
