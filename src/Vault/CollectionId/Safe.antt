-- ===== src/Vault/CollectionId/Safe.antt =====
-- The shape of the ids that are made from labels (vault/mod.rs).
use secret_manager.Base.{
  ℕ, zero, suc, ◌≤◌, min, ◌≡◌, refl, sym, ◌∙◌, ◌≢◌, inl, inr, Bool, true, false, not, ◌&&◌, ◌||◌,
  List, [], ◌∷◌, ◌++◌, arith, leb, ◌==◌, ==_iff, Bool-cases, length, is_empty, take, all,
  length-take, Text, bytes,
}
use secret_manager.Utf8.{chars}
use secret_manager.Vault.CollectionId.{
  max_id_len, to_ascii_lowercase, is_ascii_alphanumeric, push_chars, trim_step, trim_end,
  collection_id_from_label,
}

-- A lower-case letter, a digit or the separator.
abbrev pub is_id_byte : ℕ → Bool
is_id_byte b = (leb b'0' b && leb b b'9') || ((leb b'a' b && leb b b'z') || (b == b'_'))

pub record IsCollectionId (id : Text) : Type 0 where
  pub nonempty : is_empty id ≡ false
  pub short : length id ≤ max_id_len
  pub id_bytes : all is_id_byte id ≡ true
  pub closed : (front : Text) → id ≢ front ++ (b'_' ∷ [])

all-append :
    (xs ys : Text)
    → all is_id_byte xs ≡ true
    → all is_id_byte ys ≡ true
    → all is_id_byte (xs ++ ys) ≡ true
all-append [] ys p q = q
all-append (x ∷ xs) ys p q =
    let more : all is_id_byte xs ≡ true = ground arith in ground (arith, all-append xs ys more q)

push_chars-id_bytes :
    (cs : List ℕ) (id : Text) (u : Bool)
    → all is_id_byte id ≡ true
    → all is_id_byte (push_chars id u cs) ≡ true
unfolding push_chars to_ascii_lowercase is_ascii_alphanumeric
push_chars-id_bytes [] id u h = h
push_chars-id_bytes (ch ∷ rest) id u h =
    elim (Bool-cases (is_ascii_alphanumeric (to_ascii_lowercase ch))) [
      | inl e ↦
          let one : all is_id_byte (to_ascii_lowercase ch ∷ []) ≡ true = ground (arith, e) in
          rw (e, push_chars)
            (push_chars-id_bytes rest (id ++ to_ascii_lowercase ch ∷ []) false
              (all-append id _ h one))
      | inr e ↦ elim (Bool-cases (not u && not (is_empty id))) [
        | inl s ↦
            rw (e, s, push_chars)
              (push_chars-id_bytes rest (id ++ b'_' ∷ []) true (all-append id _ h refl))
        | inr s ↦ rw (e, s, push_chars) (push_chars-id_bytes rest id u h)
      ]
    ]

all-take : (n : ℕ) (xs : Text) → all is_id_byte xs ≡ true → all is_id_byte (take n xs) ≡ true
all-take zero xs h = refl
all-take (suc n) [] h = refl
all-take (suc n) (x ∷ xs) h =
    let more : all is_id_byte xs ≡ true = ground arith in ground (arith, all-take n xs more)

all-trim_end : (xs : Text) → all is_id_byte xs ≡ true → all is_id_byte (trim_end xs) ≡ true
unfolding trim_end
all-trim_end [] h = refl
all-trim_end (x ∷ xs) h =
    let more : all is_id_byte xs ≡ true = ground arith in
    let first : is_id_byte x ≡ true = ground arith in
    let rest = all-trim_end xs more in
    elim (Bool-cases (is_empty (trim_end xs) && (x == b'_'))) [
      | inl e ↦ rw e refl
      | inr e ↦ rw (e, first) rest
    ]

length-trim_end : (xs : Text) → length (trim_end xs) ≤ length xs
unfolding trim_end
length-trim_end [] = omega arith
length-trim_end (x ∷ xs) = elim (Bool-cases (is_empty (trim_end xs) && (x == b'_'))) [
  | inl e ↦ rw e (omega arith)
  | inr e ↦ rw e (omega (arith, length-trim_end xs))
]

step_closed :
    (x : ℕ) (rest front : Text)
    → ((f : Text) → rest ≢ f ++ (b'_' ∷ []))
    → trim_step x rest ≢ front ++ (b'_' ∷ [])
step_closed x [] [] k h = elim (Bool-cases (x == b'_')) [
  | inl e ↦ cc (rw e at h)
  | inr e ↦
      let left : x ∷ [] ≡ b'_' ∷ [] = rw e at h in
      let same : x ≡ b'_' = cc in cc (e, (==_iff x b'_').1 same)
]
step_closed x [] (y ∷ front) k h = elim (Bool-cases (x == b'_')) [
  | inl e ↦ cc (rw e at h)
  | inr e ↦ let left : x ∷ [] ≡ y ∷ (front ++ (b'_' ∷ [])) = rw e at h in k front cc
]
step_closed x (z ∷ rest) [] k h = cc
step_closed x (z ∷ rest) (y ∷ front) k h = k front cc

trim_end_closed : (xs front : Text) → trim_end xs ≢ front ++ (b'_' ∷ [])
unfolding trim_end
trim_end_closed [] [] h = cc
trim_end_closed [] (y ∷ front) h = cc
trim_end_closed (x ∷ xs) front h = step_closed x (trim_end xs) front (trim_end_closed xs) h

default_closed : (front : Text) → bytes "collection" ≢ front ++ (b'_' ∷ [])
default_closed front h =
    let whole : bytes "collection" ≡ trim_end (bytes "collection") = unfold trim_end in refl in
    trim_end_closed (bytes "collection") front (sym whole ∙ h)

-- The id of any label is nonempty and at most 200 bytes, holds lower-case letters, digits and the
-- separator only, and does not end with the separator.
pub collection_id_from_label-IsCollectionId :
    (label : Text) → IsCollectionId (collection_id_from_label label)
unfolding collection_id_from_label
collection_id_from_label-IsCollectionId label =
    let pushed = push_chars [] false (chars label) in
    let cut = take (min (length pushed) max_id_len) pushed in
    elim (Bool-cases (is_empty (trim_end cut))) [
      | inl e ↦
          rw (e, collection_id_from_label)
            (record {
              nonempty = refl;
              short = omega arith;
              id_bytes = refl;
              closed = default_closed;
            })
      | inr e ↦
          rw (e, collection_id_from_label)
            (record {
              nonempty = e;
              short =
                  omega (
                    arith,
                    length-trim_end cut,
                    length-take (min (length pushed) max_id_len) pushed,
                  );
              id_bytes =
                  all-trim_end cut
                    (all-take _ pushed (push_chars-id_bytes (chars label) [] false refl));
              closed = trim_end_closed cut;
            })
    ]
