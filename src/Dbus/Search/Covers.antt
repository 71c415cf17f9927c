-- ===== src/Dbus/Search/Covers.antt =====
-- Searching a collection before and after it is locked (src/dbus/state.rs).
use secret_manager.Base.{
  ◌≡◌, refl, sym, ap, ◌∙◌, ◌⊎◌, inl, inr, Bool, true, false, not, ◌&&◌, Option, none, some, List,
  [], ◌∷◌, arith, if◌then◌else◌, Bool-cases, is_empty, all, any, All, Bytes, Text, text_eq,
  text_eq_iff, ok,
}
use mathlib.Core.Path.{subst}
use secret_manager.Vault.Types.{Attributes, Item, IndexEntry}
use secret_manager.Vault.Crates.{Crates}
use secret_manager.Vault.Index.{index_entry, build_index, matches, matches_hashes, hash_query}
use secret_manager.Vault.Index.Sorted.{Has}
use secret_manager.Vault.Index.Agree.{has-map, has-map_inv, not_empty, matches_complete}
use secret_manager.Vault.Collection.{
  unlocked, Vault, lock, items_of, get_attribute, has_pair, keep, search, index_has_attributes,
  search_ids,
}
use secret_manager.Dbus.Search.{found_ids, search_collection}

module _ {A : Type 0} (p : A → Bool) where
  has-keep : (xs : List A) (x : A) → Has xs x → p x ≡ true → Has (keep p xs) x
  unfolding keep
  has-keep [] x h t = elim h [ ]
  has-keep (y ∷ xs) x (inl e) t = let here : p y ≡ true = ap p e ∙ t in rw here (inl e)
  has-keep (y ∷ xs) x (inr h) t = elim (Bool-cases (p y)) [
    | inl e ↦ rw e (inr (has-keep xs x h t))
    | inr e ↦ rw e (has-keep xs x h t)
  ]

  has-keep_inv : (xs : List A) (x : A) → Has (keep p xs) x → Has xs x × (p x ≡ true)
  unfolding keep
  has-keep_inv [] x h = elim h [ ]
  has-keep_inv (y ∷ xs) x h = by_test (p y) refl h (has-keep_inv xs x)
    where
      by_test :
          (b : Bool)
          → p y ≡ b
          → Has (if b then y ∷ keep p xs else keep p xs) x
          → (Has (keep p xs) x → Has xs x × (p x ≡ true))
          → ((y ≡ x) ⊎ Has xs x) × (p x ≡ true)
      by_test true e (inl same) ih = (inl same, ap p (sym same) ∙ e)
      by_test true e (inr h) ih = let (m, t) = ih h in (inr m, t)
      by_test false e h ih = let (m, t) = ih h in (inr m, t)

  any-has : (xs : List A) (x : A) → Has xs x → p x ≡ true → any p xs ≡ true
  any-has [] x h t = elim h [ ]
  any-has (y ∷ xs) x (inl e) t = let here : p y ≡ true = ap p e ∙ t in rw here refl
  any-has (y ∷ xs) x (inr h) t = let rest = any-has xs x h t in ground arith

has-get_attribute : (k v : Text) (m : Attributes) → get_attribute k m ≡ some v → Has m (k, v)
unfolding get_attribute
has-get_attribute k v [] h = cc h
has-get_attribute k v ((j, w) ∷ m) h = by_key (text_eq j k) refl h (has-get_attribute k v m)
  where
    by_key :
        (b : Bool)
        → text_eq j k ≡ b
        → (if b then some w else get_attribute k m) ≡ some v
        → (get_attribute k m ≡ some v → Has m (k, v))
        → Has ((j, w) ∷ m) (k, v)
    by_key true e h ih = let same = (text_eq_iff j k).0 e in inl (cc (same, h))
    by_key false e h ih = inr (ih h)

has-has_pair : (m : Attributes) (p : Text × Text) → has_pair m p ≡ true → Has m p
unfolding has_pair
has-has_pair m (k, v) h = by_value (get_attribute k m) refl h
  where
    by_value :
        (o : Option Text)
        → get_attribute k m ≡ o
        → elim o [ none ↦ false | some w ↦ text_eq w v ] ≡ true
        → Has m (k, v)
    by_value none e h = cc h
    by_value (some w) e h = has-get_attribute k v m (e ∙ ap some ((text_eq_iff w v).0 h))

all-has_pair : (m query : Attributes) → all (has_pair m) query ≡ true → All (Has m) query
all-has_pair m [] h = tt
all-has_pair m (p ∷ query) h =
    (has-has_pair m p (ground arith), all-has_pair m query (ground arith))

module _ (c : Crates) (v : Vault) (list : List Item) (query : Attributes)
    (index : v.header.index ≡ build_index c v.header.index_salt list true) where
  abbrev entry : Item → IndexEntry
  entry i = index_entry c v.header.index_salt true i

  indexed : (i : Item) → Has list i → Has v.header.index (entry i)
  unfolding build_index
  indexed i h = rw index (has-map (index_entry c v.header.index_salt true) list i h)

  -- A query that is not empty and that an item carries is not turned away for want of attributes.
  guard_open :
      (i : Item)
      → Has list i
      → (q : Attributes) → All (Has i.attributes) q
      → (not (is_empty q) && not (index_has_attributes v)) ≡ false
  unfolding index_has_attributes
  guard_open i h [] t = refl
  guard_open i h (p ∷ q) t =
      let full : not (is_empty (entry i).attr_hashes) ≡ true =
        ap not (not_empty c v.header.index_salt i p t.0) in
      rw
        (any-has (λ (e : IndexEntry). not (is_empty e.attr_hashes)) v.header.index (entry i)
          (indexed i h) full)
        refl

  search_ids-has :
      (i : Item)
      → Has list i
      → all (has_pair i.attributes) query ≡ true
      → Has (search_ids c v query) i.id
  unfolding search_ids
  search_ids-has i h t =
      let carries = all-has_pair i.attributes query t in
      let kept =
        has-keep (λ e. matches_hashes e (hash_query c v.header.index_salt query)) v.header.index
          (entry i) (indexed i h)
          (unfold matches in matches_complete c v.header.index_salt i query carries) in
      rw (guard_open i h query carries)
        (unfold index_entry in has-map (λ (e : IndexEntry). e.id) _ (entry i) kept)

unlocked_search :
    (v : Vault) (key : Bytes) (list : List Item) (query : Attributes)
    → v.state ≡ unlocked key list
    → search v query ≡ ok (keep (λ (x : Item). all (has_pair x.attributes) query) list)
unfolding search items_of
unlocked_search v key list query was = rw was refl

-- Where the header's index is that of the items, every item that a search of the unlocked collection
-- finds is among those that the search finds once the collection is locked.
pub search_collection-lock :
    (c : Crates) (v : Vault) (key : Bytes) (list : List Item) (query : Attributes) (id : Text)
    → v.state ≡ unlocked key list
    → v.header.index ≡ build_index c v.header.index_salt list true
    → Has (search_collection c v query) id
    → Has (search_collection c (lock v) query) id
unfolding search_collection found_ids search lock items_of
search_collection-lock c v key list query id was index h =
    let (i, m, same) =
      has-map_inv (λ (x : Item). x.id) _ id
        (subst (λ r. Has (found_ids c v query r) id) (unlocked_search v key list query was) h) in
    let (mem, carried) = has-keep_inv (λ (x : Item). all (has_pair x.attributes) query) list i m in
    subst (Has (search_ids c (lock v) query)) same
      (search_ids-has c (lock v) list query (unfold lock in index) i mem carried)
