-- ===== src/Base/Maps.antt =====
-- `BTreeMap<String, A>`: a list of entries, which every operation keeps in the order of the keys.
use Prim.Native.Nat.{ℕ, ◌+◌, ◌≤◌}
use mathlib.Core.Path.{◌≡◌, refl}
use mathlib.Core.Bool.{Bool, true, false}
use mathlib.Core.List.{List, [], ◌∷◌, map}
use mathlib.Core.Option.{Option, none, some}
use native.Mathlib.Omega.{arith}
use secret_manager.Base.Tests.{if◌then◌else◌, ◌==◌, ltb}
use secret_manager.Base.Strings.{Text, text_eq, text_eq_iff}

abbrev pub Map {ℓ} : Type ℓ → Type ℓ
Map A = List (Text × A)

-- Byte-wise order.
unfoldable pub text_lt : Text → Text → Bool
text_lt a [] = false
text_lt [] (y ∷ b) = true
text_lt (x ∷ a) (y ∷ b) = let rest = text_lt a b in if x == y then rest else ltb x y

module _ {ℓ} {A : Type ℓ} where
  unfoldable pub get : Map A → Text → Option A
  get [] k = none
  get ((j, v) ∷ m) k = let rest = get m k in if text_eq j k then some v else rest

  abbrev pub contains_key : Map A → Text → Bool
  contains_key m k = elim (get m k) [ none ↦ false | some v ↦ true ]

  unfoldable pub insert_key : Text → A → Map A → Map A
  insert_key k v [] = (k, v) ∷ []
  insert_key k v ((j, w) ∷ m) =
      let rest = insert_key k v m in
      if text_eq j k then (k, v) ∷ m else if text_lt k j then (k, v) ∷ (j, w) ∷ m else (j, w) ∷ rest

  unfoldable pub remove_key : Text → Map A → Map A
  remove_key k [] = []
  remove_key k ((j, w) ∷ m) =
      let rest = remove_key k m in if text_eq j k then rest else (j, w) ∷ rest

  unfoldable pub retain_keys : (Text → Bool) → Map A → Map A
  retain_keys p [] = []
  retain_keys p ((k, v) ∷ m) = let rest = retain_keys p m in if p k then (k, v) ∷ rest else rest

  unfoldable pub remove_keys : List Text → Map A → Map A
  unfolding remove_key
  remove_keys [] m = m
  remove_keys (k ∷ ks) m = remove_keys ks (remove_key k m)

  -- The keys of the values that pass a test.
  unfoldable pub keys_where : (A → Bool) → Map A → List Text
  keys_where p [] = []
  keys_where p ((k, v) ∷ m) = let rest = keys_where p m in if p v then k ∷ rest else rest

  abbrev pub keys : Map A → List Text
  keys m = map (λ (e : Text × A). e.0) m

  pub get-insert_key :
      (k j : Text) (v : A) (m : Map A)
      → get (insert_key k v m) j ≡ (if text_eq k j then some v else get m j)
  unfolding get insert_key
  get-insert_key k j v [] = refl
  get-insert_key k j v ((i, w) ∷ m) =
      ground (arith, get-insert_key k j v m, text_eq_iff i k, text_eq_iff i j, text_eq_iff k j)

  pub get-remove_key :
      (k j : Text) (m : Map A) → get (remove_key k m) j ≡ (if text_eq k j then none else get m j)
  unfolding get remove_key
  get-remove_key k j [] = ground arith
  get-remove_key k j ((i, w) ∷ m) =
      ground (arith, get-remove_key k j m, text_eq_iff i k, text_eq_iff i j, text_eq_iff k j)

  -- How many values pass a test.
  unfoldable pub count_values : (A → Bool) → Map A → ℕ
  count_values p [] = 0
  count_values p ((k, v) ∷ m) = let rest = count_values p m in if p v then rest + 1 else rest

  pub count_values-remove_key :
      (p : A → Bool) (k : Text) (m : Map A) → count_values p (remove_key k m) ≤ count_values p m
  unfolding count_values remove_key
  count_values-remove_key p k [] = omega arith
  count_values-remove_key p k ((j, w) ∷ m) = ground (arith, count_values-remove_key p k m)

  pub count_values-insert_key :
      (p : A → Bool) (k : Text) (v : A) (m : Map A)
      → count_values p (insert_key k v m) ≤ count_values p m + (if p v then 1 else 0)
  unfolding count_values insert_key
  count_values-insert_key p k v [] = ground arith
  count_values-insert_key p k v ((j, w) ∷ m) = ground (arith, count_values-insert_key p k v m)

  -- An insertion that is refused by the test adds nothing.
  pub count_values-insert_other :
      (p : A → Bool) (k : Text) (v : A) (m : Map A)
      → p v ≡ false
      → count_values p (insert_key k v m) ≤ count_values p m
  count_values-insert_other p k v m h = ground (arith, count_values-insert_key p k v m)

  pub count_values-remove_keys :
      (p : A → Bool) (ks : List Text) (m : Map A)
      → count_values p (remove_keys ks m) ≤ count_values p m
  unfolding remove_keys
  count_values-remove_keys p [] m = omega arith
  count_values-remove_keys p (k ∷ ks) m =
      omega (arith, count_values-remove_keys p ks (remove_key k m), count_values-remove_key p k m)
