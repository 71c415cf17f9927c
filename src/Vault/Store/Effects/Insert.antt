-- ===== src/Vault/Store/Effects/Insert.antt =====
-- What `insert_item` leaves in memory when it succeeds (vault/store.rs).
use secret_manager.Base.{
  ℕ, zero, suc, ◌≡◌, refl, ap, ◌∙◌, inl, inr, Bool, true, false, Option, none, some, List, [], ◌∷◌,
  ◌++◌, arith, if◌then◌else◌, length, get_elem?, set, Bytes, Text, text_eq_refl, ok, err, ◌>>=◌,
  Result-cases,
}
use secret_manager.Vault.Types.{Attributes, Item}
use secret_manager.Vault.Crates.{Crates}
use secret_manager.Vault.Os.{Os}
use secret_manager.Vault.Index.Sorted.{Has}
use secret_manager.Vault.Collection.{State, locked, unlocked, Vault, Step, items}
use secret_manager.Vault.Store.Delta.{
  attributes_eq, position, with_items, restore_delta, pushed, replaced, returning, save_or_restore,
  check_item_caps,
}
use secret_manager.Vault.Store.Delta.Undo.{position-get_elem?}
use secret_manager.Vault.Store.Items.{
  same_attributes, put_at, push_new, insert_found, insert_unchecked, insert_item,
}
use secret_manager.Vault.Store.Effects.{saved_state}

attributes_eq_refl : (a : Attributes) → attributes_eq a a ≡ true
unfolding attributes_eq
attributes_eq_refl [] = refl
attributes_eq_refl ((k, v) ∷ rest) = rw (text_eq_refl k, text_eq_refl v) (attributes_eq_refl rest)

has-set :
    (list : List Item) (p : ℕ) (next prior : Item)
    → get_elem? list p ≡ some prior
    → Has (set list p next) next
has-set [] p next prior h = cc
has-set (x ∷ xs) zero next prior h = inl refl
has-set (x ∷ xs) (suc p) next prior h = inr (has-set xs p next prior h)

has-last : (list : List Item) (i : Item) → Has (list ++ i ∷ []) i
has-last [] i = inl refl
has-last (x ∷ xs) i = inr (has-last xs i)

position-holds {ℓ} :
    {A : Type ℓ} (p : A → Bool) (xs : List A) (n : ℕ) (a : A)
    → position p xs ≡ some (n, a)
    → p a ≡ true
unfolding position
position-holds p [] n a h = cc
position-holds p (x ∷ xs) zero a h = ground (arith, position-holds p xs 0 a)
position-holds p (x ∷ xs) (suc n) a h = ground (arith, position-holds p xs n a)

-- The collection holds an item with this id and these fields.
pub record Holds (key : Bytes) (id label : Text) (attributes : Attributes) (secret : Bytes)
    (content_type : Text) (s : State) : Type 0 where
  pub list : List Item
  pub state : s ≡ unlocked key list
  pub item : Item
  pub held : Has list item
  pub same_id : item.id ≡ id
  pub same_label : item.label ≡ label
  pub same_pairs : attributes_eq item.attributes attributes ≡ true
  pub same_secret : item.secret ≡ secret
  pub same_content_type : item.content_type ≡ content_type

module _ {World : Type 0} (c : Crates) (os : Os World) (label : Text) (attributes : Attributes)
    (secret : Bytes) (content_type : Text) where
  returned :
      (id x : Text) (b d : Bool) (r : Step World (Unit {0}))
      → (returning {A = Text × Bool} (x, b) r).0 ≡ ok (id, d)
      → (r.0 ≡ ok tt) × (x ≡ id) × ((returning {A = Text × Bool} (x, b) r).1 ≡ r.1)
  returned id x b d (ok tt, v, w) h = (refl, cc, refl)
  returned id x b d (err e, v, w) h = cc

  put_Holds :
      (id : Text) (r : Bool) (key : Bytes) (list : List Item) (t p : ℕ) (prior : Item) (v : Vault)
      (w : World)
      → get_elem? list p ≡ some prior
      → attributes_eq prior.attributes attributes ≡ true
      → (put_at c os key list label secret content_type t (p, prior) v w).0 ≡ ok (id, r)
      → Holds key id label attributes secret content_type
          (put_at c os key list label secret content_type t (p, prior) v w).1.state
  unfolding put_at
  put_Holds id r key list t p prior v w place same h =
      let next = record prior {
        label = label;
        secret = secret;
        content_type = content_type;
        modified = t;
      } in
      let s =
        save_or_restore c os restore_delta (replaced p prior) (with_items v key (set list p next))
          w in
      let (done, name, kept) = returned id prior.id true r s h in
      record {
        list = set list p next;
        state =
            ap (λ (u : Vault). u.state) kept
            ∙ saved_state c os restore_delta (replaced p prior) _ w done;
        item = next;
        held = has-set list p next prior place;
        same_id = name;
        same_label = refl;
        same_pairs = same;
        same_secret = refl;
        same_content_type = refl;
      }

  push_Holds :
      (id : Text) (r : Bool) (key : Bytes) (list : List Item) (t : ℕ) (v : Vault)
      (fresh : Text × World)
      → (push_new c os key list label attributes secret content_type t v fresh).0 ≡ ok (id, r)
      → Holds key id label attributes secret content_type
          (push_new c os key list label attributes secret content_type t v fresh).1.state
  unfolding push_new
  push_Holds id r key list t v (x, w) h =
      let next : Item = record {
        id = x;
        label = label;
        attributes = attributes;
        secret = secret;
        content_type = content_type;
        created = t;
        modified = t;
      } in
      let s = save_or_restore c os restore_delta pushed (with_items v key (list ++ next ∷ [])) w in
      let (done, name, kept) = returned id x false r s h in
      record {
        list = list ++ next ∷ [];
        state = ap (λ (u : Vault). u.state) kept ∙ saved_state c os restore_delta pushed _ w done;
        item = next;
        held = has-last list next;
        same_id = name;
        same_label = refl;
        same_pairs = attributes_eq_refl attributes;
        same_secret = refl;
        same_content_type = refl;
      }

  found_Holds :
      (id : Text) (r : Bool) (key : Bytes) (list : List Item) (t : ℕ) (v : Vault) (w : World)
      (found : Option (ℕ × Item))
      → ((p : ℕ) (i : Item)
          → found ≡ some (p, i)
          → position (same_attributes c os attributes) list ≡ some (p, i))
      → (insert_found c os key list label attributes secret content_type t v w found).0 ≡ ok (id, r)
      → Holds key id label attributes secret content_type
          (insert_found c os key list label attributes secret content_type t v w found).1.state
  unfolding insert_found
  found_Holds id r key list t v w none at h = push_Holds id r key list t v (os.new_uuid w) h
  found_Holds id r key list t v w (some (p, i)) at h =
      put_Holds id r key list t p i v w
        (position-get_elem? (same_attributes c os attributes) list p i (at p i refl))
        (position-holds (same_attributes c os attributes) list p i (at p i refl)) h

  chosen :
      (replace : Bool) (list : List Item) (p : ℕ) (i : Item)
      → (if replace then position (same_attributes c os attributes) list else none) ≡ some (p, i)
      → position (same_attributes c os attributes) list ≡ some (p, i)
  chosen true list p i h = h
  chosen false list p i h = cc

  unchecked_Holds :
      (id : Text) (r replace : Bool) (key : Bytes) (list : List Item) (v : Vault) (s : State)
      (t : ℕ × World)
      → s ≡ unlocked key list
      → (insert_unchecked c os label attributes secret content_type replace v s t).0 ≡ ok (id, r)
      → Holds key id label attributes secret content_type
          (insert_unchecked c os label attributes secret content_type replace v s t).1.state
  unfolding insert_unchecked
  unchecked_Holds id r replace key list v locked (t, w) was h = cc
  unchecked_Holds id r replace key list v (unlocked k l) (t, w) was h =
      let same_key : k ≡ key = cc in
      rw (← same_key) (found_Holds id r k l t v w _ (chosen replace l) h)

  -- An insertion that succeeds leaves an item with the id that it returned, the attributes, label,
  -- secret and content type that it was given, whether it replaced an item or added one.
  pub insert_item-Holds :
      (id : Text) (r replace : Bool) (key : Bytes) (list : List Item) (v : Vault) (w : World)
      → v.state ≡ unlocked key list
      → (insert_item c os label attributes secret content_type replace v w).0 ≡ ok (id, r)
      → Holds key id label attributes secret content_type
          (insert_item c os label attributes secret content_type replace v w).1.state
  unfolding insert_item
  insert_item-Holds id r replace key list v w was h =
      elim (Result-cases
        (items v >>= λ _. check_item_caps label attributes (length secret) content_type)) [
          | inl (a, e) ↦
              rw (e, insert_item)
                (unchecked_Holds id r replace key list v v.state (os.now w) was
                  (rw (e, insert_item) at h))
          | inr (x, e) ↦ cc (rw (e, insert_item) at h)
        ]
