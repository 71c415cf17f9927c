-- ===== src/Vault/Index/Agree.antt =====
-- Searching the hashed index of a locked vault against searching the attributes (vault/format.rs).
use secret_manager.Base.{
  ℕ, ◌%◌, ◌^◌, ◌<◌, ◌≡◌, refl, ap, ◌↔◌, inl, inr, true, false, List, [], ◌∷◌, ◌++◌, map, arith,
  length, is_empty, all, All, append_inj, Bytes, Text,
}
use mathlib.Core.Path.{subst}
use secret_manager.Vault.Types.{Attributes, IndexEntry, Item}
use secret_manager.Vault.Crates.{Crates}
use secret_manager.Vault.Index.{
  binary_search, sort, attribute_hash, hash_query, matches_hashes, matches, index_entry,
  to_le_bytes,
}
use secret_manager.Vault.Index.Sorted.{Has, sort-IsSorted, has-sort}
use secret_manager.Vault.Index.Lookup.{binary_search-has}

module _ {A B : Type 0} (f : A → B) where
  pub has-map : (xs : List A) (a : A) → Has xs a → Has (map f xs) (f a)
  has-map [] a m = absurd m
  has-map (x ∷ xs) a (inl e) = inl (ap f e)
  has-map (x ∷ xs) a (inr m) = inr (has-map xs a m)

  pub has-map_inv : (xs : List A) (b : B) → Has (map f xs) b → (a : A) × Has xs a × (f a ≡ b)
  has-map_inv [] b m = absurd m
  has-map_inv (x ∷ xs) b (inl e) = (x, inl refl, e)
  has-map_inv (x ∷ xs) b (inr m) = let (a, h, e) = has-map_inv xs b m in (a, inr h, e)

module _ (c : Crates) (salt : Bytes) (item : Item) where
  abbrev digest : Text × Text → Bytes
  digest p = attribute_hash c salt p.0 p.1

  abbrev entry : IndexEntry
  entry = index_entry c salt true item

  found :
      (p : Text × Text)
      → (binary_search entry.attr_hashes (digest p) ≡ true)
        ↔ Has (map digest item.attributes) (digest p)
  unfolding index_entry
  found p =
      let sorted = binary_search-has entry.attr_hashes (digest p) (sort-IsSorted _) in
      let same = has-sort (digest p) (map digest item.attributes) in
      (λ b. same.0 (sorted.0 b), λ m. sorted.1 (same.1 m))

  all_found :
      (query : Attributes)
      → All (Has item.attributes) query
      → all (binary_search entry.attr_hashes) (hash_query c salt query) ≡ true
  unfolding hash_query
  all_found [] h = refl
  all_found (p ∷ query) h =
      rw ((found p).1 (has-map digest item.attributes p h.0)) (all_found query h.1)

  pub not_empty : (p : Text × Text) → Has item.attributes p → is_empty entry.attr_hashes ≡ false
  not_empty p m =
      let mem =
        (binary_search-has entry.attr_hashes (digest p) (unfold index_entry in sort-IsSorted _)).0
          ((found p).1 (has-map digest item.attributes p m)) in
      go entry.attr_hashes mem
    where
      go : (xs : List Bytes) → Has xs (digest p) → is_empty xs ≡ false
      go [] h = absurd h
      go (x ∷ xs) h = refl

  -- The locked search misses nothing: an item that carries every pair of the query matches.
  pub matches_complete :
      (query : Attributes) → All (Has item.attributes) query → matches c entry salt query ≡ true
  unfolding matches matches_hashes
  matches_complete [] h = unfold hash_query in refl
  matches_complete (p ∷ query) h =
      rw (not_empty p h.0, all_found (p ∷ query) h) (unfold hash_query in refl)

  -- No digest of the query is that of another pair of the item.
  abbrev pub NoCollision : Attributes → Type 0
  NoCollision query =
      (p q : Text × Text) → Has item.attributes p → Has query q → digest p ≡ digest q → p ≡ q

  all_found_inv :
      (query : Attributes)
      → NoCollision query
      → all (binary_search entry.attr_hashes) (hash_query c salt query) ≡ true
      → All (Has item.attributes) query
  unfolding hash_query
  all_found_inv [] n h = tt
  all_found_inv (q ∷ query) n h =
      let (p, m, e) = has-map_inv digest item.attributes (digest q) ((found q).0 (ground arith)) in
      (
        subst (Has item.attributes) (n p q m (inl refl) e) m,
        all_found_inv query (λ a b ma mb. n a b ma (inr mb)) (ground arith),
      )

  -- Where digests do not collide, a match carries every pair of the query.
  pub matches_sound :
      (query : Attributes)
      → NoCollision query
      → matches c entry salt query ≡ true
      → All (Has item.attributes) query
  unfolding matches matches_hashes
  matches_sound [] n h = tt
  matches_sound (p ∷ query) n h = all_found_inv (p ∷ query) n (unfold hash_query in ground arith)

-- With attribute indexing off an entry matches the empty query alone.
pub matches_id_only :
    (c : Crates) (salt : Bytes) (item : Item) (p : Text × Text) (query : Attributes)
    → matches c (index_entry c salt false item) salt (p ∷ query) ≡ false
unfolding matches matches_hashes index_entry hash_query sort
matches_id_only c salt item p query = refl

same_length :
    (n m : ℕ)
    → n < 2 ^ 32
    → m < 2 ^ 32
    → to_le_bytes (n % 2 ^ 32) ≡ to_le_bytes (m % 2 ^ 32)
    → n ≡ m
unfolding to_le_bytes
same_length n m h k e = ground arith

-- The hashed text determines the pair, whatever bytes the two strings hold: the length of the name
-- stands in front of it.
pub attribute_text_inj :
    (salt k v k' v' : Bytes)
    → length k < 2 ^ 32
    → length k' < 2 ^ 32
    → salt ++ (to_le_bytes (length k % 2 ^ 32) ++ (k ++ v))
      ≡ salt ++ (to_le_bytes (length k' % 2 ^ 32) ++ (k' ++ v'))
    → (k ≡ k') × (v ≡ v')
unfolding to_le_bytes
attribute_text_inj salt k v k' v' h h' e =
    let (_, body) = append_inj salt salt _ _ refl e in
    let (len, rest) =
      append_inj (to_le_bytes (length k % 2 ^ 32)) (to_le_bytes (length k' % 2 ^ 32)) _ _ refl
        body in
    append_inj k k' v v' (same_length (length k) (length k') h h' len) rest
