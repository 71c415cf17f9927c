-- ===== src/Vault/Store/Durable.antt =====
-- What a save of vault/store.rs leaves on disk, and what a restart reads back.
use secret_manager.Base.{
  ℕ, ◌≤◌, ◌≡◌, refl, sym, ap, ◌∙◌, Bool, true, false, Option, none, some, List, ◌++◌, arith,
  if◌then◌else◌, le→not-ltb, Bytes, Result, ok, err,
}
use mathlib.Core.Path.{subst}
use secret_manager.Vault.Types.{Header, Item, VaultError}
use secret_manager.Vault.Crates.{Crates, CratesLaws}
use secret_manager.Vault.Kdf.{nonce_len}
use secret_manager.Vault.Format.{max_vault_bytes, check_vault_size, VaultFile}
use secret_manager.Vault.Format.RoundTrip.{decode-append}
use secret_manager.Vault.Os.{FilePath, Os, OsLaws, SameBut, Same}
use secret_manager.Vault.Publish.{write_atomic}
use secret_manager.Vault.Publish.Atomic.{write_atomic-Published}
use secret_manager.Vault.Collection.{State, locked, unlocked, Vault, Step}
use secret_manager.Vault.Store.Life.{open_file, locked_vault}
use secret_manager.Vault.Store.{
  save, save_with, save_published, save_sealed, save_nonce, save_state, seal_file, next_header,
  unlock_with_key,
}
use secret_manager.Vault.Store.Saved.{save_with_failed, save_with_ok}
use secret_manager.Vault.Store.Coherent.{IsCoherent, StateOpens, save_with-IsCoherent}
use secret_manager.Vault.Store.Unlock.{state-save, unlock_opens}

module _ {World : Type 0} (c : Crates) (os : Os World)
    (file : World → FilePath → Option Bytes) where
  -- The vault's file holds just the bytes that the vault describes.
  abbrev pub OnDisk : Vault → World → Type 0
  OnDisk v w = file w v.path ≡ some (v.aad ++ v.ciphertext)

  -- A coherent vault whose file is on disk is opened again as it is, locked; and its key then gives
  -- back its items.
  module _ (laws : CratesLaws c) (os_laws : OsLaws os file) where
    pub open_file_lem :
        (v : Vault) (w : World) (n : ℕ) (content : Bytes)
        → IsCoherent c v
        → OnDisk v w
        → v.size_limit ≤ max_vault_bytes
        → os.file_len v.path w ≡ ok n
        → os.read v.path w ≡ ok content
        → open_file c os v.path w
          ≡ ok (
              locked_vault c os v.path
                (record { header = v.header; aad = v.aad; ciphertext = v.ciphertext }))
    unfolding open_file check_vault_size
    open_file_lem v w n content h disk limit len got =
        let whole : content ≡ v.aad ++ v.ciphertext =
          cc (disk, os_laws.read-ok v.path w content got) in
        let size = os_laws.file_len-ok v.path w n (v.aad ++ v.ciphertext) len disk in
        simp (
          len,
          le→not-ltb max_vault_bytes n (omega (arith, h.writable.fits)),
          got,
          whole,
          decode-append c laws v.header v.aad v.ciphertext h.writable.header_written
              h.writable.header_accepted,
        )

    -- What the clock and the random numbers leave alone.
    before-Same : (v : Vault) (w : World) → Same file w (os.now (os.random nonce_len w).1).1
    before-Same v w q =
        os_laws.now_same (os.random nonce_len w).1 q ∙ os_laws.random_same nonce_len w q

    -- A save that succeeds leaves in the vault's file just the bytes that the vault describes, and
    -- every other file as it was.
    pub save-OnDisk :
        (v : Vault) (w : World)
        → (save c os v w).0 ≡ ok tt
        → OnDisk (save c os v w).1 (save c os v w).2 × SameBut file v.path w (save c os v w).2
    unfolding save
    save-OnDisk v w h =
        let d = save_with_ok c os (write_atomic os) v w h in
        let p =
          (write_atomic-Published os file os_laws v.path (d.aad ++ d.ciphertext) d.before).done
            d.published in
        let next = record v {
          header = next_header c os v d.list d.nonce d.time;
          aad = d.aad;
          ciphertext = d.ciphertext;
        } in
        (
          subst (λ u. OnDisk u (save_with c os (write_atomic os) v w).2) (sym d.vault)
              (subst (OnDisk next) (sym d.world) p.0),
          λ q nq.
              ap (λ u. file u q) d.world
              ∙ p.1 q nq
              ∙ ap (λ u. file u q) d.started
              ∙ before-Same v w q,
        )

    published_failed :
        (v : Vault) (saved : Header) (aad ciphertext : Bytes) (p : FilePath) (w : World)
        (r : Result VaultError (Unit {0}) × World) (e : VaultError)
        → ((x : VaultError) → r.0 ≡ err x → file r.1 p ≡ file w p)
        → (save_published c os v saved aad ciphertext r).0 ≡ err e
        → file (save_published c os v saved aad ciphertext r).2 p ≡ file w p
    unfolding save_published
    published_failed v saved aad ciphertext p w (ok _, w') e k h = cc
    published_failed v saved aad ciphertext p w (err x, w') e k h = k x refl

    sealed_failed :
        (v : Vault) (saved : Header) (w : World) (r : Result VaultError (Bytes × Bytes))
        (e : VaultError)
        → (save_sealed c os (write_atomic os) v saved w r).0 ≡ err e
        → file (save_sealed c os (write_atomic os) v saved w r).2 v.path ≡ file w v.path
    unfolding save_sealed
    sealed_failed v saved w (err x) e h = refl
    sealed_failed v saved w (ok (aad, ciphertext)) e h =
        published_failed v saved aad ciphertext v.path w _ e
          (write_atomic-Published os file os_laws v.path (aad ++ ciphertext) w).failed h

    nonce_failed :
        (v : Vault) (key : Bytes) (list : List Item) (r : Option Bytes × World) (e : VaultError)
        → (save_nonce c os (write_atomic os) v key list r).0 ≡ err e
        → file (save_nonce c os (write_atomic os) v key list r).2 v.path ≡ file r.1 v.path
    unfolding save_nonce
    nonce_failed v key list (none, w) e h = refl
    nonce_failed v key list (some nonce, w) e h =
        let header = next_header c os v list nonce (os.now w).0 in
        let v1 = record v { header = header } in
        sealed_failed v1 v.header (os.now w).1 (seal_file c os v1 key list) e h
        ∙ os_laws.now_same w v.path

    state_failed :
        (v : Vault) (s : State) (w : World) (e : VaultError)
        → (save_state c os (write_atomic os) v s w).0 ≡ err e
        → file (save_state c os (write_atomic os) v s w).2 v.path ≡ file w v.path
    unfolding save_state
    state_failed v locked w e h = refl
    state_failed v (unlocked key list) w e h =
        nonce_failed v key list (os.random nonce_len w) e h ∙ os_laws.random_same nonce_len w v.path

    gate_file_failed :
        (b : Bool) (s : Step World (Unit {0})) (v : Vault) (w : World) (e : VaultError)
        → (s.0 ≡ err e → file s.2 v.path ≡ file w v.path)
        → (if b then (err VaultError.retired, v, w) else s).0 ≡ err e
        → file (if b then (err VaultError.retired, v, w) else s).2 v.path ≡ file w v.path
    gate_file_failed true s v w e k h = refl
    gate_file_failed false s v w e k h = k h

    -- A save that fails, for whatever reason, leaves the vault in memory exactly as it was, its header,
    -- sealed bytes and state, and leaves the content of the vault's file as it was.
    pub save_failed :
        (v : Vault) (w : World) (e : VaultError)
        → (save c os v w).0 ≡ err e
        → ((save c os v w).1 ≡ v) × (file (save c os v w).2 v.path ≡ file w v.path)
    unfolding save save_with
    save_failed v w e h = (
      save_with_failed c os (write_atomic os) v w e h,
      gate_file_failed v.retired (save_state c os (write_atomic os) v v.state w) v w e
          (state_failed v v.state w e) h,
    )

    -- A restart loses nothing: after a save that succeeds on a coherent unlocked vault, if the file's
    -- length and content can be read, it opens as a locked vault, and the key unlocks the items that
    -- were saved. The size limit of the vault is at most that of the format.
    pub reopen-save :
        (v : Vault) (key : Bytes) (list : List Item) (w : World) (n : ℕ) (content : Bytes)
        → IsCoherent c v
        → v.state ≡ unlocked key list
        → v.size_limit ≤ max_vault_bytes
        → (save c os v w).0 ≡ ok tt
        → os.file_len v.path (save c os v w).2 ≡ ok n
        → os.read v.path (save c os v w).2 ≡ ok content
        → (u : Vault) × (open_file c os v.path (save c os v w).2 ≡ ok u)
          × (u.state ≡ locked)
          × ((unlock_with_key c os key u (save c os v w).2).0 ≡ ok tt)
          × ((unlock_with_key c os key u (save c os v w).2).1.state ≡ unlocked key list)
    unfolding save
    reopen-save v key list w n content h was limit done len got =
        let v' = (save c os v w).1 in
        let w' = (save c os v w).2 in
        let d = save_with_ok c os (write_atomic os) v w done in
        let same_path : v'.path ≡ v.path = ap (λ (u : Vault). u.path) d.vault in
        let same_limit : v'.size_limit ≡ v.size_limit = ap (λ (u : Vault). u.size_limit) d.vault in
        let coherent : IsCoherent c v' = save_with-IsCoherent c os laws (write_atomic os) v w h in
        let opened =
          open_file_lem v' w' n content coherent (save-OnDisk v w done).0
            (omega (arith, same_limit)) (subst (λ p. os.file_len p w' ≡ ok n) (sym same_path) len)
            (subst (λ p. os.read p w' ≡ ok content) (sym same_path) got) in
        let o = subst (StateOpens c v') (state-save c os v w ∙ was) coherent.opens in
        let f : VaultFile = record {
          header = v'.header;
          aad = v'.aad;
          ciphertext = v'.ciphertext;
        } in
        let u = locked_vault c os v'.path f in
        let back =
          unlock_opens c os u key list w' refl refl
            (record { plain = o.plain; opens = o.opens; decodes = o.decodes }) in
        (u, subst (λ p. open_file c os p w' ≡ ok u) same_path opened, refl, back.0, back.1)
