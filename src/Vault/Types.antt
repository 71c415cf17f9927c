-- ===== src/Vault/Types.antt =====
-- The data of src/vault: the header, its index, the items, and the errors. A `String`, `Vec<u8>` or
-- byte array is its list of bytes, a `BTreeMap<String, String>` its pairs in key order.
use secret_manager.Base.{ℕ, Text, Bytes, List}

-- vault/crypto.rs

pub record KdfParams : Type 0 where
  pub m_cost_kib : ℕ
  pub t_cost : ℕ
  pub p_cost : ℕ

-- Why `KdfParams::validate` refused; the source puts it in words.
pub data UnsafeReason : Type 0 where
  p_cost_outside t_cost_outside m_cost_exceeds : ℕ → UnsafeReason
  m_cost_below_minimum : ℕ → ℕ → UnsafeReason

pub data CryptoError : Type 0 where
  kdf auth rng : CryptoError
  unsafe_kdf : UnsafeReason → CryptoError

-- vault/format.rs

abbrev pub Attributes : Type 0
Attributes = List (Text × Text)

pub record IndexEntry : Type 0 where
  pub id : Text
  pub attr_hashes : List Bytes

pub record Header : Type 0 where
  pub version : ℕ
  pub label : Text
  pub created : ℕ
  pub modified : ℕ
  pub kdf : KdfParams
  pub salt : Bytes
  pub index_salt : Bytes
  pub nonce : Bytes
  pub index : List IndexEntry

pub record Item : Type 0 where
  pub id : Text
  pub label : Text
  pub attributes : Attributes
  pub secret : Bytes
  pub content_type : Text
  pub created : ℕ
  pub modified : ℕ

pub data FormatError : Type 0 where
  bad_magic truncated encoding : FormatError
  unsupported_version header_too_large vault_too_large trailing_header_bytes : ℕ → FormatError
  unsafe_kdf : CryptoError → FormatError

pub data Cap : Type 0 where
  secret label attribute_count attribute_key attribute_value content_type : Cap

pub record CapViolation : Type 0 where
  pub cap : Cap
  pub actual : ℕ
  pub limit : ℕ

-- vault/store.rs

-- `std::io::Error`, by the kinds and raw codes that the source tells apart.
pub data IoError : Type 0 where
  already_exists not_found enosys einval eopnotsupp eperm would_block timed_out unexpected_eof
        invalid_data :
      IoError
  other : ℕ → IoError

pub data VaultError : Type 0 where
  locked retired wrong_password already_exists salt_reused : VaultError
  no_such_item : Text → VaultError
  label_too_long : ℕ → ℕ → VaultError
  item_too_large : Cap → ℕ → ℕ → VaultError
  import_too_large : ℕ → Text → Cap → ℕ → ℕ → VaultError
  format : FormatError → VaultError
  crypto : CryptoError → VaultError
  io : IoError → VaultError

pub record ImportItem : Type 0 where
  pub label : Text
  pub attributes : Attributes
  pub secret : Bytes
  pub content_type : Text
  pub created : ℕ
  pub modified : ℕ
