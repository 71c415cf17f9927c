-- ===== src/Dbus/Ids/Found.antt =====
-- On the search for a free id (src/dbus/state.rs).
use secret_manager.Base.{
  ℕ, zero, suc, ◌+◌, ◌≤◌, ◌<◌, ◌≡◌, refl, sym, ap, ◌∙◌, ◌≢◌, ◌⊎◌, inl, inr, Bool, true, false, some,
  List, [], ◌∷◌, arith, if◌then◌else◌, Bool-cases, length, append_inj, Text, text_eq, text_eq_iff,
  text_eq_refl,
}
use secret_manager.Base.Decimal.{to_decimal, from_decimal, from-to_decimal}
use secret_manager.Vault.Index.Sorted.{Has}
use secret_manager.Vault.CollectionId.{collection_id_from_label}
use secret_manager.Dbus.Ids.{taken, numbered, find_free, unique_collection_id_in}

numbered_inj : (base : Text) (m n : ℕ) → numbered base m ≡ numbered base n → m ≡ n
unfolding numbered
numbered_inj base m n e =
    let tails = append_inj base base (b'_' ∷ to_decimal m) (b'_' ∷ to_decimal n) refl e in
    let same : to_decimal m ≡ to_decimal n = cc (tails.1) in
    sym (from-to_decimal m) ∙ ap (from_decimal 0) same ∙ from-to_decimal n

-- A list without the first occurrence of an element.
erase : Text → List Text → List Text
erase x [] = []
erase x (y ∷ ys) = let rest = erase x ys in if text_eq y x then ys else y ∷ rest

length-erase : (x : Text) (ys : List Text) → Has ys x → length ys ≡ length (erase x ys) + 1
unfolding erase
length-erase x [] h = elim h [ ]
length-erase x (y ∷ ys) (inl e) = rw (e, text_eq_refl x) (omega arith)
length-erase x (y ∷ ys) (inr h) = elim (Bool-cases (text_eq y x)) [
  | inl e ↦ rw e (omega arith)
  | inr e ↦ rw e (omega (arith, length-erase x ys h))
]

has-erase : (x z : Text) (ys : List Text) → x ≢ z → Has ys z → Has (erase x ys) z
unfolding erase
has-erase x z [] ne h = elim h [ ]
has-erase x z (y ∷ ys) ne h = elim (Bool-cases (text_eq y x)) [
  | inl e ↦ rw e (other h ((text_eq_iff y x).0 e))
  | inr e ↦ rw e (later h (has-erase x z ys ne))
]
  where
    other : (y ≡ z) ⊎ Has ys z → y ≡ x → Has ys z
    other (inl p) q = absurd (ne (sym q ∙ p))
    other (inr p) q = p

    later : (y ≡ z) ⊎ Has ys z → (Has ys z → Has (erase x ys) z) → (y ≡ z) ⊎ Has (erase x ys) z
    later (inl p) k = inl p
    later (inr p) k = inr (k p)

-- One unit of fuel more than there are names that may be taken is enough.
find_free_total :
    (fuel : ℕ) (is_taken : Text → Bool) (base : Text) (n : ℕ) (names : List Text)
    → length names < fuel
    → ((m : ℕ) → n ≤ m → is_taken (numbered base m) ≡ true → Has names (numbered base m))
    → (id : Text) × (find_free fuel is_taken base n ≡ some id) × (is_taken id ≡ false)
unfolding find_free
find_free_total zero is_taken base n names h all_named = absurd (omega arith)
find_free_total (suc fuel) is_taken base n names h all_named =
    elim (Bool-cases (is_taken (numbered base n))) [
      | inr e ↦ (numbered base n, rw e refl, e)
      | inl e ↦
          let here = all_named n (omega arith) e in
          rw e (
            find_free_total fuel is_taken base (n + 1) (erase (numbered base n) names)
              (omega (arith, length-erase (numbered base n) names here))
              λ m le t.
                has-erase (numbered base n) (numbered base m) names
                  (λ same. let equal : n ≡ m = numbered_inj base n m same in absurd (omega arith))
                  (all_named m (omega arith) t))
    ]

-- Whatever the label, if all names that are taken stand in a list, the search with one unit of fuel
-- more than the list is long ends with an id that is not taken.
pub unique_collection_id_in_total :
    (fuel : ℕ) (loaded : List Text) (present : Text → Bool) (label : Text) (names : List Text)
    → length names < fuel
    → ((id : Text) → taken loaded present id ≡ true → Has names id)
    → (id : Text) × (unique_collection_id_in fuel loaded present label ≡ some id)
      × (taken loaded present id ≡ false)
unfolding unique_collection_id_in
unique_collection_id_in_total fuel loaded present label names h all_named =
    let base = collection_id_from_label label in
    elim (Bool-cases (taken loaded present base)) [
      | inr e ↦ (base, rw (e, unique_collection_id_in) refl, e)
      | inl e ↦
          rw (e, unique_collection_id_in)
            (find_free_total fuel (taken loaded present) base 2 names h
              λ m le. all_named (numbered base m))
    ]
