-- ===== src/Tests/FormatRuns.antt =====
-- The theorems on the file format, the caps, the index and the escaping, at concrete inputs.
use secret_manager.Base.{
  ℕ, ◌+◌, ◌≤◌, ◌≡◌, refl, sym, ◌∙◌, ◌↔◌, inl, inr, false, none, some, List, [], ◌∷◌, ◌++◌, arith,
  length, take, drop, All, Bytes, bytes, ok,
}
use secret_manager.Utf8.{chars, encode_chars, IsChar, chars-encode_chars}
use secret_manager.Sanitize.{escape_chars}
use secret_manager.Sanitize.Visible.{IsVisible, escape_chars-IsVisible}
use secret_manager.Vault.Types.{Header, Attributes, Cap, CapViolation}
use secret_manager.Vault.Caps.{check_caps}
use secret_manager.Vault.Caps.Accept.{WithinCaps, check_caps-none_iff}
use secret_manager.Vault.Kdf.{validate, derive_key, kdf_context}
use secret_manager.Vault.Kdf.Bounds.{IsSafe, validate-ok_iff}
use secret_manager.Vault.Index.{matches, index_entry, sort, to_le_bytes}
use secret_manager.Vault.Index.Sorted.{Has}
use secret_manager.Vault.Index.Agree.{matches_complete, matches_sound, matches_id_only, NoCollision}
use secret_manager.Vault.Format.{
  header_bytes, check_header, decode, encode, header_prefix_len, prefix_len, max_header, magic,
  from_le_bytes, version, VaultFile, new_file,
}
use secret_manager.Vault.Format.RoundTrip.{decode-encode}
use secret_manager.Vault.Format.Prefix.{header_prefix_len_bounds, encode-decode}
use secret_manager.Tests.Codec.{crates, crates_laws, codec, put_header}
use secret_manager.Tests.Vaults.{fast, mail}

check_caps-none_iff_example :
    (check_caps (bytes "Mail") mail.attributes 6 (bytes "text/plain") ≡ none)
    ↔ WithinCaps (bytes "Mail") mail.attributes 6 (bytes "text/plain")
check_caps-none_iff_example =
    check_caps-none_iff (bytes "Mail") mail.attributes 6 (bytes "text/plain")

abbrev oversized : CapViolation
oversized = record { cap = Cap.secret; actual = 9999999; limit = 1048576 }

refused : check_caps (bytes "Mail") [] 9999999 [] ≡ some oversized
unfolding check_caps
refused = refl

validate-ok_iff_example : (validate fast ≡ ok tt) ↔ IsSafe fast
validate-ok_iff_example = validate-ok_iff fast

abbrev derived : Bytes
derived = (kdf_context ++ bytes "pw") ++ (5 ∷ [])

derived_ok : derive_key crates (bytes "pw") (5 ∷ []) fast ≡ ok derived
unfolding derive_key secret_manager.Vault.Kdf.validate
derived_ok = refl

abbrev query : Attributes
query = (bytes "user", bytes "ann") ∷ []

carried : All (Has mail.attributes) query
carried = (inl refl, tt)

apart : NoCollision crates (6 ∷ []) mail query
apart p q (inl a) (inl b) e = sym a ∙ b
apart p q (inl a) (inr none_left) e = absurd none_left
apart p q (inr none_left) b e = absurd none_left

matches_sound_example : All (Has mail.attributes) query
matches_sound_example =
    matches_sound crates (6 ∷ []) mail query apart
      (matches_complete crates (6 ∷ []) mail query carried)

matches_id_only_example :
    matches crates (index_entry crates (6 ∷ []) false mail) (6 ∷ []) query ≡ false
matches_id_only_example = matches_id_only crates (6 ∷ []) mail (bytes "user", bytes "ann") []

abbrev digests : List Bytes
digests = sort ((2 ∷ []) ∷ (1 ∷ []) ∷ [])

abbrev header : Header
header = record {
  version = version;
  label = bytes "Login";
  created = 3;
  modified = 3;
  kdf = fast;
  salt = 5 ∷ [];
  index_salt = 6 ∷ [];
  nonce = 7 ∷ [];
  index = [];
}

abbrev header_aad : Bytes
header_aad = magic ++ (to_le_bytes (length (put_header header)) ++ put_header header)

header_written : header_bytes crates header ≡ ok header_aad
unfolding header_bytes codec
header_written = refl

header_accepted : check_header header ≡ ok tt
unfolding check_header validate
header_accepted = refl

abbrev sample : VaultFile
sample = record { header = header; aad = header_aad; ciphertext = 1 ∷ 2 ∷ 3 ∷ [] }

sample_new : new_file crates header (1 ∷ 2 ∷ 3 ∷ []) ≡ ok sample
unfolding new_file header_bytes codec
sample_new = refl

decode-encode_example : decode crates (encode sample) ≡ ok sample
decode-encode_example =
    decode-encode crates crates_laws header (1 ∷ 2 ∷ 3 ∷ []) sample sample_new header_accepted

sample_decoded : decode crates (encode sample) ≡ ok sample
sample_decoded =
    decode-encode crates crates_laws header (1 ∷ 2 ∷ 3 ∷ []) sample sample_new header_accepted

encode-decode_example :
    (encode sample ≡ encode sample) × (sample.header.version ≡ version) × IsSafe sample.header.kdf
encode-decode_example = encode-decode crates (encode sample) sample sample_decoded

sample_prefix : header_prefix_len (encode sample) ≡ ok (length header_aad)
unfolding header_prefix_len encode codec from_le_bytes to_le_bytes
sample_prefix = refl

header_prefix_len_bounds_example :
    (prefix_len ≤ length (encode sample))
    × (length header_aad ≤ prefix_len + max_header)
    × (take 8 (encode sample) ≡ magic)
    × (length header_aad ≡ prefix_len + from_le_bytes (drop 8 (encode sample)))
header_prefix_len_bounds_example =
    header_prefix_len_bounds (encode sample) (length header_aad) sample_prefix

sample_long : length header_aad ≤ length (encode sample)
unfolding encode codec to_le_bytes
sample_long = omega arith

abbrev spoof : List ℕ
spoof = 65 ∷ 27 ∷ 0x202E ∷ 233 ∷ []

spoof_chars : All IsChar spoof
spoof_chars = (omega arith, (omega arith, (omega arith, (omega arith, tt))))

chars-encode_chars_example : chars (encode_chars spoof) ≡ spoof
chars-encode_chars_example = chars-encode_chars spoof spoof_chars

escape_chars-IsVisible_example :
    All IsVisible (escape_chars spoof) × (escape_chars (escape_chars spoof) ≡ escape_chars spoof)
escape_chars-IsVisible_example = escape_chars-IsVisible spoof spoof_chars
