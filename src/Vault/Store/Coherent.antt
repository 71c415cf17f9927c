-- ===== src/Vault/Store/Coherent.antt =====
-- The invariant of a collection in memory: the ciphertext that it holds opens, under the key that
-- it holds, to the items that it holds (vault/store.rs).
use secret_manager.Base.{
  ℕ, ◌≤◌, ◌≡◌, refl, sym, ◌∙◌, inl, inr, some, List, ◌++◌, arith, Option-cases, length, Bytes, ok,
  Result-cases,
}
use mathlib.Core.Path.{subst}
use secret_manager.Vault.Types.{Item}
use secret_manager.Vault.Crates.{Crates, CratesLaws}
use secret_manager.Vault.Kdf.{seal}
use secret_manager.Vault.Format.{header_bytes, encode_items, check_vault_size_against, check_header}
use secret_manager.Vault.Os.{Os}
use secret_manager.Vault.Collection.{State, locked, unlocked, Vault, Step}
use secret_manager.Vault.Store.{seal_file, next_header, save_with}
use secret_manager.Vault.Store.Saved.{Publish, Written, save_with_failed, save_with_ok}

-- The ciphertext opens under the key to the encoding of these items.
pub record OpensTo (c : Crates) (v : Vault) (key : Bytes) (list : List Item) : Type 0 where
  pub plain : Bytes
  pub opens : c.decrypt key v.header.nonce v.aad v.ciphertext ≡ some plain
  pub decodes : c.items_from_bytes plain ≡ some list

-- The file that the vault describes is one that `decode` accepts and `open` would load.
pub record IsWritable (c : Crates) (v : Vault) : Type 0 where
  pub header_written : header_bytes c v.header ≡ ok v.aad
  pub header_accepted : check_header v.header ≡ ok tt
  pub fits : length (v.aad ++ v.ciphertext) ≤ v.size_limit

abbrev pub StateOpens : Crates → Vault → State → Type 0
StateOpens c v locked = Unit {0}
StateOpens c v (unlocked key list) = OpensTo c v key list

-- Memory agrees with the sealed bytes.
pub record IsCoherent (c : Crates) (v : Vault) : Type 0 where
  pub writable : IsWritable c v
  pub opens : StateOpens c v v.state

module _ {World : Type 0} (c : Crates) (os : Os World) (laws : CratesLaws c) where
  seal_file_inv :
      (v : Vault) (key : Bytes) (list : List Item) (aad ciphertext : Bytes)
      → seal_file c os v key list ≡ ok (aad, ciphertext)
      → (plain : Bytes) × (header_bytes c v.header ≡ ok aad)
        × (c.items_to_vec list ≡ some plain)
        × (c.encrypt key v.header.nonce aad plain ≡ some ciphertext)
        × (length (aad ++ ciphertext) ≤ v.size_limit)
  unfolding seal_file encode_items seal check_vault_size_against
  seal_file_inv v key list aad ciphertext h = elim (Option-cases (c.items_to_vec list)) [
    | inl n ↦ ground (arith, n)
    | inr (plain, e) ↦ (plain, ground (arith, e), e, ground (arith, e), ground (arith, e))
  ]

  -- The next header keeps the version and the parameters, which is all that `check_header` reads.
  check_header-next :
      (v : Vault) (list : List Item) (nonce : Bytes) (t : ℕ)
      → check_header (next_header c os v list nonce t) ≡ check_header v.header
  unfolding check_header next_header
  check_header-next v list nonce t = refl

  module _ (publish : Publish World) where
    -- Whatever a successful save wrote opens to the items that the vault holds.
    pub Written-IsCoherent :
        (v : Vault) (start : World) (r : Step World (Unit {0}))
        → check_header v.header ≡ ok tt
        → Written c os publish v start r
        → IsCoherent c r.1
    unfolding next_header
    Written-IsCoherent v start r accepted d =
        let v1 = record v { header = next_header c os v d.list d.nonce d.time } in
        let (plain, head, enc, sealed, fits) =
          seal_file_inv v1 d.key d.list d.aad d.ciphertext d.sealed in
        subst (IsCoherent c) (sym d.vault) (record {
          writable = record {
            header_written = head;
            header_accepted = check_header-next v d.list d.nonce d.time ∙ accepted;
            fits = fits;
          };
          opens =
              subst (StateOpens c (record v1 { aad = d.aad; ciphertext = d.ciphertext }))
                (sym d.was_unlocked)
                (record {
                  plain = plain;
                  opens = laws.decrypt-encrypt d.key d.nonce d.aad plain d.ciphertext sealed;
                  decodes = laws.items_from-to d.list plain enc;
                });
        })

    -- A save keeps the invariant, whether it succeeds or fails.
    pub save_with-IsCoherent :
        (v : Vault) (w : World) → IsCoherent c v → IsCoherent c (save_with c os publish v w).1
    save_with-IsCoherent v w h = elim (Result-cases (save_with c os publish v w).0) [
      | inl (tt, e) ↦
          Written-IsCoherent v _ _ h.writable.header_accepted (save_with_ok c os publish v w e)
      | inr (x, e) ↦ subst (IsCoherent c) (sym (save_with_failed c os publish v w x e)) h
    ]
