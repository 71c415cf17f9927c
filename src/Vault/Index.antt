-- ===== src/Vault/Index.antt =====
-- The hashed attribute index of a header, vault/format.rs.
pub mod Sorted
pub mod Lookup
pub mod Agree
use secret_manager.Base.{
  ℕ, zero, suc, ◌+◌, ◌-◌, ◌/◌, ◌%◌, ◌^◌, Bool, true, false, none, some, List, [], ◌∷◌, ◌++◌, map,
  ltb, if◌then◌else◌, length, is_empty, get_elem?, all, Bytes, Text,
}
use secret_manager.Vault.Types.{Attributes, IndexEntry, Item}
use secret_manager.Vault.Crates.{Crates}
use Prim.Native.Nat.{compare, Ordering}

-- The order of `[u8; 32]`: lexicographic, byte by byte.
abbrev pub then_cmp : Ordering → Ordering → Ordering
then_cmp Ordering.eq o = o
then_cmp Ordering.lt o = Ordering.lt
then_cmp Ordering.gt o = Ordering.gt

unfoldable pub cmp_bytes : Bytes → Bytes → Ordering
cmp_bytes [] [] = Ordering.eq
cmp_bytes [] (y ∷ ys) = Ordering.lt
cmp_bytes (x ∷ xs) [] = Ordering.gt
cmp_bytes (x ∷ xs) (y ∷ ys) = then_cmp (compare x y) (cmp_bytes xs ys)

-- `slice::binary_search(..).is_ok()` between `lo` and `hi`, on fuel `hi - lo` at least.
unfoldable pub search_between : ℕ → List Bytes → Bytes → ℕ → ℕ → Bool
search_between zero xs h lo hi = false
search_between (suc fuel) xs h lo hi =
    let mid = lo + (hi - lo) / 2 in
    let left = search_between fuel xs h lo mid in
    let right = search_between fuel xs h (mid + 1) hi in
    if ltb lo hi
    then elim (get_elem? xs mid) [
      | none ↦ false
      | some x ↦ elim (cmp_bytes x h) [
        | Ordering.eq ↦ true
        | Ordering.lt ↦ right
        | Ordering.gt ↦ left
      ]
    ]
    else false

unfoldable pub binary_search : List Bytes → Bytes → Bool
unfolding search_between cmp_bytes
binary_search xs h = search_between (length xs) xs h 0 (length xs)

-- `sort_unstable`: equal digests are the same bytes, so every sort gives this list.
unfoldable pub insert_sorted : Bytes → List Bytes → List Bytes
insert_sorted h [] = h ∷ []
insert_sorted h (x ∷ xs) = elim (cmp_bytes x h) [
  | Ordering.lt ↦ x ∷ insert_sorted h xs
  | Ordering.eq ↦ h ∷ x ∷ xs
  | Ordering.gt ↦ h ∷ x ∷ xs
]

unfoldable pub sort : List Bytes → List Bytes
unfolding insert_sorted cmp_bytes
sort [] = []
sort (x ∷ xs) = insert_sorted x (sort xs)

-- `(n as u32).to_le_bytes()` and the two readers of a length prefix.
unfoldable pub to_le_bytes : ℕ → Bytes
to_le_bytes n = n % 256 ∷ n / 256 % 256 ∷ n / 256 / 256 % 256 ∷ n / 256 / 256 / 256 % 256 ∷ []

unfoldable pub attribute_hash : Crates → Bytes → Text → Text → Bytes
unfolding to_le_bytes
attribute_hash c salt key value =
    c.sha256 (salt ++ to_le_bytes (length key % 2 ^ 32) ++ key ++ value)

unfoldable pub hash_query : Crates → Bytes → Attributes → List Bytes
hash_query c salt query = map (λ p. attribute_hash c salt p.0 p.1) query

unfoldable pub matches_hashes : IndexEntry → List Bytes → Bool
matches_hashes e query_hashes =
    if is_empty query_hashes
    then true
    else if is_empty e.attr_hashes
    then false
    else all (binary_search e.attr_hashes) query_hashes

unfoldable pub matches : Crates → IndexEntry → Bytes → Attributes → Bool
matches c e salt query = matches_hashes e (hash_query c salt query)

unfoldable pub index_entry : Crates → Bytes → Bool → Item → IndexEntry
index_entry c salt with_attributes item = record {
  id = item.id;
  attr_hashes =
      sort
        (if with_attributes then map (λ p. attribute_hash c salt p.0 p.1) item.attributes else []);
}

unfoldable pub build_index : Crates → Bytes → List Item → Bool → List IndexEntry
build_index c salt items with_attributes = map (index_entry c salt with_attributes) items
