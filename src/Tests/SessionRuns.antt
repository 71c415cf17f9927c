-- ===== src/Tests/SessionRuns.antt =====
-- The theorems on the encryption of sessions, at concrete inputs.
use secret_manager.Base.{
  ◌-◌, ◌%◌, ◌^◌, ◌≤◌, ◌<◌, ◌≡◌, refl, ◌↔◌, ◌⊎◌, some, [], ◌∷◌, arith, length, take, replicate,
  Bytes, bytes, ok, err,
}
use secret_manager.Base.BigEndian.{from_be, to_be, strip_zeros}
use secret_manager.Session.{
  Crates, invalid_peer_key, SessionCipher, aes, prime, prime_bytes, generate, derive_aes_key,
  from_dh, encrypt, decrypt, minimal_be, from_be_padded,
}
use secret_manager.Session.Agree.{CratesLaws, IsPeer, derive_aes_key-refuses, decrypt-encrypt}

-- A cipher that hides nothing, the power itself, and the first bytes of the shared number.
abbrev crates : Crates
crates = record {
  cbc_encrypt = λ key iv plaintext. plaintext;
  cbc_decrypt = λ key iv value. some value;
  pow_mod = λ b e. b ^ e % prime;
  hkdf_sha256 = λ ikm n. some (take n ikm);
}

crates_laws : CratesLaws crates
crates_laws = record {
  cbc_decrypt-cbc_encrypt = λ key iv plaintext n. refl;
  pow_mod_lem = λ b e. refl;
}

-- Private exponents 5 and 9.
abbrev raw_a : Bytes
raw_a = 3 ∷ []

abbrev raw_b : Bytes
raw_b = 7 ∷ []

number_a : IsPeer (crates.pow_mod 2 (generate crates raw_a).private)
unfolding from_be generate
number_a = (omega arith, omega arith)

number_b : IsPeer (crates.pow_mod 2 (generate crates raw_b).private)
unfolding from_be generate
number_b = (omega arith, omega arith)

abbrev cipher : SessionCipher
cipher = aes (replicate 16 0)

cipher_a : from_dh crates (generate crates raw_a) (generate crates raw_b).public ≡ ok cipher
unfolding from_dh derive_aes_key generate minimal_be from_be_padded from_be to_be strip_zeros
cipher_a = refl

cipher_b : from_dh crates (generate crates raw_b) (generate crates raw_a).public ≡ ok cipher
unfolding from_dh derive_aes_key generate minimal_be from_be_padded from_be to_be strip_zeros
cipher_b = refl

decrypt-encrypt_example :
    (let (parameters, value) = encrypt crates cipher (replicate 16 1) (bytes "pw") in
      decrypt crates cipher parameters value)
    ≡ ok (bytes "pw")
decrypt-encrypt_example =
    decrypt-encrypt crates crates_laws raw_a raw_b cipher cipher (replicate 16 1) (bytes "pw")
      cipher_a cipher_b refl

abbrev one : Bytes
one = 1 ∷ []

derive_aes_key-refuses_example :
    (derive_aes_key crates (generate crates raw_a) one ≡ err invalid_peer_key)
    ↔ ((prime_bytes < length one) ⊎ ((from_be 0 one ≤ 1) ⊎ (prime - 1 ≤ from_be 0 one)))
derive_aes_key-refuses_example =
    derive_aes_key-refuses crates crates_laws (generate crates raw_a) one
