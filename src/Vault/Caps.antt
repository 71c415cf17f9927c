-- ===== src/Vault/Caps.antt =====
-- The per-item caps of vault/format.rs: one limit and one predicate for each.
pub mod Accept
use secret_manager.Base.{
  ℕ, ◌*◌, Text, Option, none, some, [], ◌∷◌, length, ltb, or_else, if◌then◌else◌,
}
use secret_manager.Vault.Types.{Attributes, Cap, CapViolation}

abbrev pub max_item_secret : ℕ
max_item_secret = 1024 * 1024

abbrev pub max_item_label : ℕ
max_item_label = 4 * 1024

abbrev pub max_item_attributes : ℕ
max_item_attributes = 64

abbrev pub max_attribute_key : ℕ
max_attribute_key = 256

abbrev pub max_attribute_value : ℕ
max_attribute_value = 512

abbrev pub max_item_content_type : ℕ
max_item_content_type = 256

abbrev pub cap_limit : Cap → ℕ
cap_limit Cap.secret = max_item_secret
cap_limit Cap.label = max_item_label
cap_limit Cap.attribute_count = max_item_attributes
cap_limit Cap.attribute_key = max_attribute_key
cap_limit Cap.attribute_value = max_attribute_value
cap_limit Cap.content_type = max_item_content_type

unfoldable pub check : Cap → ℕ → Option CapViolation
check cap actual =
    if ltb (cap_limit cap) actual
    then some (record { cap = cap; actual = actual; limit = cap_limit cap })
    else none

-- `attributes.iter().find_map(..)`: name before value, in the map's order.
unfoldable pub check_pairs : Attributes → Option CapViolation
unfolding check
check_pairs [] = none
check_pairs ((k, v) ∷ rest) =
    or_else (or_else (check Cap.attribute_key (length k)) (check Cap.attribute_value (length v)))
      (check_pairs rest)

unfoldable pub check_caps : Text → Attributes → ℕ → Text → Option CapViolation
unfolding check_pairs
check_caps label attributes secret_len content_type = or_else (check Cap.secret secret_len) (
    or_else (check Cap.label (length label)) (
      or_else (check Cap.content_type (length content_type))
        (or_else (check Cap.attribute_count (length attributes)) (check_pairs attributes))))
