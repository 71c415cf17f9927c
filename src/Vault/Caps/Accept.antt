-- ===== src/Vault/Caps/Accept.antt =====
-- What `check_caps` of vault/format.rs accepts, and what a refusal says.
use secret_manager.Base.{ℕ, ◌≤◌, ◌<◌, ◌≡◌, ◌↔◌, none, some, [], ◌∷◌, arith, length, All, Text}
use secret_manager.Vault.Types.{Attributes, CapViolation}
use secret_manager.Vault.Caps.{
  cap_limit, check_pairs, check_caps, max_item_secret, max_item_label, max_item_attributes,
  max_attribute_key, max_attribute_value, max_item_content_type,
}

abbrev pub PairWithinCaps : Text × Text → Type 0
PairWithinCaps p = (length p.0 ≤ max_attribute_key) × (length p.1 ≤ max_attribute_value)

-- Every cap of an item, with a value of exactly the limit allowed.
pub record WithinCaps (label : Text) (attributes : Attributes) (secret_len : ℕ)
    (content_type : Text) : Type 0 where
  pub secret_fits : secret_len ≤ max_item_secret
  pub label_fits : length label ≤ max_item_label
  pub content_type_fits : length content_type ≤ max_item_content_type
  pub count : length attributes ≤ max_item_attributes
  pub pairs : All PairWithinCaps attributes

check_pairs-none : (a : Attributes) → (check_pairs a ≡ none) ↔ All PairWithinCaps a
unfolding check_pairs
check_pairs-none [] = ground arith
check_pairs-none ((k, v) ∷ rest) = ground (arith, check_pairs-none rest)

-- An item passes exactly when each of its fields is within its cap.
pub check_caps-none_iff :
    (label : Text) (attributes : Attributes) (secret_len : ℕ) (content_type : Text)
    → (check_caps label attributes secret_len content_type ≡ none)
      ↔ WithinCaps label attributes secret_len content_type
unfolding check_caps
check_caps-none_iff label attributes secret_len content_type =
    ground (arith, check_pairs-none attributes)

check_pairs_refusal :
    (a : Attributes) (v : CapViolation)
    → check_pairs a ≡ some v
    → (v.limit < v.actual) × (v.limit ≡ cap_limit v.cap)
unfolding check_pairs
check_pairs_refusal [] v h = cc
check_pairs_refusal ((k, x) ∷ rest) v h = ground (arith, check_pairs_refusal rest v)

-- A refusal names a cap, its limit, and a size over that limit.
pub check_caps_refusal :
    (label : Text) (attributes : Attributes) (secret_len : ℕ) (content_type : Text)
    (v : CapViolation)
    → check_caps label attributes secret_len content_type ≡ some v
    → (v.limit < v.actual) × (v.limit ≡ cap_limit v.cap)
unfolding check_caps
check_caps_refusal label attributes secret_len content_type v h =
    ground (arith, check_pairs_refusal attributes v)
