-- ===== src/Session/Agree.antt =====
-- The key that the two ends of a session derive, and what they encrypt with it
-- (src/session/mod.rs, dh.rs).
use secret_manager.Base.{
  ℕ, ◌-◌, ◌%◌, ◌^◌, ◌≤◌, ◌<◌, ◌≡◌, refl, sym, ap, ◌∙◌, ◌≢◌, ◌↔◌, ◌⊎◌, inl, inr, true, false, ◌||◌,
  Option, none, some, arith, ltb, leb, ◌==◌, ltb→lt, not-ltb→le, le→not-ltb, ==_iff, Bool-cases,
  length, Bytes, Result, ok, err,
}
use native.Mathlib.Nat.{mod-lt}
use secret_manager.Base.Powers.{pow-mod, pow_comm}
use secret_manager.Base.BigEndian.{to_be, from_be, strip_zeros, strip_zeros-to_be}
use secret_manager.Session.{
  Crates, DhError, invalid_peer_key, dh, KeyPair, SessionCipher, aes, prime, prime_bytes,
  minimal_be, from_be_padded, generate, hkdf_key, peer_key, derive_aes_key, from_dh, encrypt,
  decrypt,
}

pub record CratesLaws (crates : Crates) : Type 0 where
  pub cbc_decrypt-cbc_encrypt :
      (key iv plaintext : Bytes)
      → length iv ≡ 16
      → crates.cbc_decrypt key iv (crates.cbc_encrypt key iv plaintext) ≡ some plaintext
  pub pow_mod_lem : (b e : ℕ) → crates.pow_mod b e ≡ b ^ e % prime

-- A peer's number that is not refused.
abbrev pub IsPeer : ℕ → Type 0
IsPeer n = (1 < n) × (n < prime - 1)

from_be_padded-minimal_be : (x : ℕ) → x < prime → from_be_padded (minimal_be x) ≡ some x
unfolding from_be_padded minimal_be
from_be_padded-minimal_be x h =
    let (short, value) = strip_zeros-to_be prime_bytes x (omega arith) in
    let fits : ltb prime_bytes (length (strip_zeros (to_be prime_bytes x))) ≡ false =
      le→not-ltb _ _ short in
    rw (fits, value) refl

strictly_between : (n q : ℕ) → (leb n 1 || leb q n) ≡ false → (1 < n) × (n < q)
strictly_between n q h = ground arith

outside : (n q : ℕ) → (leb n 1 || leb q n) ≡ true → (n ≤ 1) ⊎ (q ≤ n)
outside n q h = ground arith

module _ (crates : Crates) (laws : CratesLaws crates) where
  pow_mod_comm :
      (b m n : ℕ) → crates.pow_mod (crates.pow_mod b m) n ≡ crates.pow_mod (crates.pow_mod b n) m
  pow_mod_comm b m n = twice m n ∙ ap (λ x. x % prime) (pow_comm b m n) ∙ sym (twice n m)
    where
      twice : (i j : ℕ) → crates.pow_mod (crates.pow_mod b i) j ≡ (b ^ i) ^ j % prime
      twice i j =
          laws.pow_mod_lem (crates.pow_mod b i) j
          ∙ ap (λ x. x ^ j % prime) (laws.pow_mod_lem b i)
          ∙ pow-mod (b ^ i) j prime

  pow_mod-lt : (b e : ℕ) → crates.pow_mod b e < prime
  pow_mod-lt b e =
      let lt = mod-lt (b ^ e) {m = prime} (omega arith) in omega (arith, laws.pow_mod_lem b e, lt)

  -- The key from a peer's number.
  abbrev key_from : ℕ → ℕ → Result DhError Bytes
  key_from private peer =
      hkdf_key crates (crates.hkdf_sha256 (to_be prime_bytes (crates.pow_mod peer private)) 16)

  -- A peer's number in range is used, and every other refused.
  peer_key-cases :
      (pair : KeyPair) (peer : ℕ)
      → (IsPeer peer × (peer_key crates pair (some peer) ≡ key_from pair.private peer))
        ⊎ (((peer ≤ 1) ⊎ (prime - 1 ≤ peer))
            × (peer_key crates pair (some peer) ≡ err invalid_peer_key))
  unfolding peer_key
  peer_key-cases pair peer = elim (Bool-cases (leb peer 1 || leb (prime - 1) peer)) [
    | inl e ↦ inr (outside peer (prime - 1) e, rw e refl)
    | inr e ↦ inl (strictly_between peer (prime - 1) e, rw e refl)
  ]

  -- The number that stands for a public key is the power it was made from.
  abbrev number : Bytes → ℕ
  number raw = crates.pow_mod 2 (generate crates raw).private

  derive-number :
      (pair : KeyPair) (raw : Bytes)
      → derive_aes_key crates pair (generate crates raw).public
        ≡ peer_key crates pair (some (number raw))
  unfolding derive_aes_key generate
  derive-number pair raw =
      ap (peer_key crates pair)
        (from_be_padded-minimal_be (number raw) (pow_mod-lt 2 (generate crates raw).private))

  shared_key :
      (raw_a raw_b : Bytes)
      → key_from (generate crates raw_a).private (number raw_b)
        ≡ key_from (generate crates raw_b).private (number raw_a)
  shared_key raw_a raw_b =
      ap (λ x. hkdf_key crates (crates.hkdf_sha256 (to_be prime_bytes x) 16))
        (pow_mod_comm 2 (generate crates raw_b).private (generate crates raw_a).private)

  derive-ok :
      (pair : KeyPair) (raw key : Bytes)
      → derive_aes_key crates pair (generate crates raw).public ≡ ok key
      → IsPeer (number raw) × (key_from pair.private (number raw) ≡ ok key)
  derive-ok pair raw key h = elim (peer_key-cases pair (number raw)) [
    | inl (range, e) ↦ (range, sym e ∙ sym (derive-number pair raw) ∙ h)
    | inr (range, e) ↦ cc (e, derive-number pair raw, h)
  ]

  -- Each end derives the key from its own pair and the other's public key: if neither public key is
  -- refused, the two ends get the same result.
  pub derive_aes_key-generate :
      (raw_a raw_b : Bytes)
      → IsPeer (number raw_a)
      → IsPeer (number raw_b)
      → derive_aes_key crates (generate crates raw_a) (generate crates raw_b).public
        ≡ derive_aes_key crates (generate crates raw_b) (generate crates raw_a).public
  derive_aes_key-generate raw_a raw_b a b =
      used (generate crates raw_a) raw_b b
      ∙ shared_key raw_a raw_b
      ∙ sym (used (generate crates raw_b) raw_a a)
    where
      used :
          (pair : KeyPair) (raw : Bytes)
          → IsPeer (number raw)
          → derive_aes_key crates pair (generate crates raw).public
            ≡ key_from pair.private (number raw)
      used pair raw (low, high) = elim (peer_key-cases pair (number raw)) [
        | inl (range, e) ↦ derive-number pair raw ∙ e
        | inr (inl le, e) ↦ absurd (omega arith)
        | inr (inr le, e) ↦ absurd (omega arith)
      ]

  hkdf_key-ne : (o : Option Bytes) → hkdf_key crates o ≢ err invalid_peer_key
  hkdf_key-ne none h = cc h
  hkdf_key-ne (some okm) h = cc h

  peer_key-refuses :
      (pair : KeyPair) (n : ℕ)
      → (peer_key crates pair (some n) ≡ err invalid_peer_key) ↔ ((n ≤ 1) ⊎ (prime - 1 ≤ n))
  peer_key-refuses pair n = elim (peer_key-cases pair n) [
    | inr (range, e) ↦ (λ h. range, λ r. e)
    | inl ((low, high), e) ↦ (
      λ h. absurd (
          hkdf_key-ne (crates.hkdf_sha256 (to_be prime_bytes (crates.pow_mod n pair.private)) 16)
            (sym e ∙ h)),
      λ r. absurd (not_both r low high),
    )
  ]
    where
      not_both : (n ≤ 1) ⊎ (prime - 1 ≤ n) → 1 < n → n < prime - 1 → ⊥
      not_both (inl r) low high = omega arith
      not_both (inr r) low high = omega arith

  from_dh-ok :
      (pair : KeyPair) (peer : Bytes) (c : SessionCipher)
      → from_dh crates pair peer ≡ ok c
      → (key : Bytes) × (derive_aes_key crates pair peer ≡ ok key) × (c ≡ aes key)
  unfolding from_dh
  from_dh-ok pair peer c h = by_key (derive_aes_key crates pair peer) refl h
    where
      by_key :
          (r : Result DhError Bytes)
          → derive_aes_key crates pair peer ≡ r
          → elim r [ err e ↦ err (dh e) | ok key ↦ ok (aes key) ] ≡ ok c
          → (key : Bytes) × (derive_aes_key crates pair peer ≡ ok key) × (c ≡ aes key)
      by_key (err e) d h = cc h
      by_key (ok key) d h = (key, d, cc h)

  -- A public key is refused just where it is longer than the prime or its number is 0, 1, p - 1 or not
  -- reduced modulo p, whatever the private key.
  pub derive_aes_key-refuses :
      (pair : KeyPair) (peer : Bytes)
      → (derive_aes_key crates pair peer ≡ err invalid_peer_key)
        ↔ ((prime_bytes < length peer) ⊎ ((from_be 0 peer ≤ 1) ⊎ (prime - 1 ≤ from_be 0 peer)))
  unfolding derive_aes_key from_be_padded
  derive_aes_key-refuses pair peer = elim (Bool-cases (ltb prime_bytes (length peer))) [
    | inl e ↦ rw e (λ h. inl (ltb→lt _ _ e), λ h. refl)
    | inr e ↦
        let (from, to) = peer_key-refuses pair (from_be 0 peer) in
        rw e (λ h. inr (from h), λ h. to (only_range h (le_of e)))
  ]
    where
      le_of : ltb prime_bytes (length peer) ≡ false → length peer ≤ prime_bytes
      le_of e = not-ltb→le _ _ e

      only_range : {R : Type 0} → (prime_bytes < length peer) ⊎ R → length peer ≤ prime_bytes → R
      only_range (inl lt) le = absurd (omega arith)
      only_range (inr r) le = r

  -- What one end encrypts with the cipher that it derived from the other's public key, the other
  -- decrypts to the same bytes with its own.
  pub decrypt-encrypt :
      (raw_a raw_b : Bytes) (a b : SessionCipher) (iv plaintext : Bytes)
      → from_dh crates (generate crates raw_a) (generate crates raw_b).public ≡ ok a
      → from_dh crates (generate crates raw_b) (generate crates raw_a).public ≡ ok b
      → length iv ≡ 16
      → (let (parameters, value) = encrypt crates a iv plaintext in
          decrypt crates b parameters value)
        ≡ ok plaintext
  unfolding encrypt decrypt
  decrypt-encrypt raw_a raw_b a b iv plaintext ha hb n =
      let (key_a, da, ea) =
        from_dh-ok (generate crates raw_a) (generate crates raw_b).public a ha in
      let (key_b, db, eb) =
        from_dh-ok (generate crates raw_b) (generate crates raw_a).public b hb in
      let (range_b, ka) = derive-ok (generate crates raw_a) raw_b key_a da in
      let (range_a, kb) = derive-ok (generate crates raw_b) raw_a key_b db in
      let agreed : ok key_a ≡ ok key_b = sym ka ∙ shared_key raw_a raw_b ∙ kb in
      let same : key_a ≡ key_b = cc agreed in
      let sixteen : (length iv == 16) ≡ true = (==_iff (length iv) 16).1 n in
      rw (ea, eb, sym same, sixteen, laws.cbc_decrypt-cbc_encrypt key_a iv plaintext n) refl
