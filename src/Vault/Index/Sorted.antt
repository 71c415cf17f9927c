-- ===== src/Vault/Index/Sorted.antt =====
-- The order of the digests, and that `sort_unstable` of vault/format.rs leaves them sorted.
use secret_manager.Base.{◌≡◌, refl, ◌≢◌, ◌↔◌, ◌⊎◌, inl, inr, List, [], ◌∷◌, arith, All, Bytes}
use Prim.Native.Nat.{Ordering}
use secret_manager.Vault.Index.{cmp_bytes, insert_sorted, sort}

-- `h` is one of the elements.
abbrev pub Has : {A : Type 0} → List A → A → Type 0
Has [] h = ⊥
Has (x ∷ xs) h = (x ≡ h) ⊎ Has xs h

abbrev pub IsBelow : Bytes → Bytes → Type 0
IsBelow a b = cmp_bytes a b ≢ Ordering.gt

abbrev pub IsSorted : List Bytes → Type 0
IsSorted [] = Unit {0}
IsSorted (x ∷ xs) = All (IsBelow x) xs × IsSorted xs

pub cmp_bytes-eq : (a b : Bytes) → cmp_bytes a b ≡ Ordering.eq → a ≡ b
unfolding cmp_bytes
cmp_bytes-eq [] [] h = refl
cmp_bytes-eq [] (y ∷ ys) h = cc
cmp_bytes-eq (x ∷ xs) [] h = cc
cmp_bytes-eq (x ∷ xs) (y ∷ ys) h = ground (arith, cmp_bytes-eq xs ys)

pub cmp_bytes_refl : (a : Bytes) → cmp_bytes a a ≡ Ordering.eq
unfolding cmp_bytes
cmp_bytes_refl [] = refl
cmp_bytes_refl (x ∷ xs) = ground (arith, cmp_bytes_refl xs)

pub cmp_bytes-lt_flip : (a b : Bytes) → cmp_bytes a b ≡ Ordering.lt → cmp_bytes b a ≡ Ordering.gt
unfolding cmp_bytes
cmp_bytes-lt_flip [] [] h = cc
cmp_bytes-lt_flip [] (y ∷ ys) h = refl
cmp_bytes-lt_flip (x ∷ xs) [] h = cc
cmp_bytes-lt_flip (x ∷ xs) (y ∷ ys) h = ground (arith, cmp_bytes-lt_flip xs ys)

pub cmp_bytes-gt_flip : (a b : Bytes) → cmp_bytes a b ≡ Ordering.gt → cmp_bytes b a ≡ Ordering.lt
unfolding cmp_bytes
cmp_bytes-gt_flip [] [] h = cc
cmp_bytes-gt_flip [] (y ∷ ys) h = cc
cmp_bytes-gt_flip (x ∷ xs) [] h = refl
cmp_bytes-gt_flip (x ∷ xs) (y ∷ ys) h = ground (arith, cmp_bytes-gt_flip xs ys)

pub cmp_bytes-lt_trans :
    (a b c : Bytes)
    → cmp_bytes a b ≡ Ordering.lt
    → cmp_bytes b c ≡ Ordering.lt
    → cmp_bytes a c ≡ Ordering.lt
unfolding cmp_bytes
cmp_bytes-lt_trans [] [] c h k = cc
cmp_bytes-lt_trans [] (y ∷ ys) [] h k = cc
cmp_bytes-lt_trans [] (y ∷ ys) (z ∷ zs) h k = refl
cmp_bytes-lt_trans (x ∷ xs) [] c h k = cc
cmp_bytes-lt_trans (x ∷ xs) (y ∷ ys) [] h k = cc
cmp_bytes-lt_trans (x ∷ xs) (y ∷ ys) (z ∷ zs) h k = ground (arith, cmp_bytes-lt_trans xs ys zs)

pub Ordering-cases : (o : Ordering) → (o ≡ Ordering.lt) ⊎ ((o ≡ Ordering.eq) ⊎ (o ≡ Ordering.gt))
Ordering-cases Ordering.lt = inl refl
Ordering-cases Ordering.eq = inr (inl refl)
Ordering-cases Ordering.gt = inr (inr refl)

IsBelow-trans : (a b c : Bytes) → IsBelow a b → IsBelow b c → IsBelow a c
IsBelow-trans a b c h k g = elim (Ordering-cases (cmp_bytes a b)) [
  | inl l ↦ k (cmp_bytes-lt_flip c b (cmp_bytes-lt_trans c a b (cmp_bytes-gt_flip a c g) l))
  | inr (inl e) ↦ k (rw (cmp_bytes-eq a b e) at g)
  | inr (inr r) ↦ h r
]

All-IsBelow-trans :
    (a b : Bytes) (xs : List Bytes) → IsBelow a b → All (IsBelow b) xs → All (IsBelow a) xs
All-IsBelow-trans a b [] h k = tt
All-IsBelow-trans a b (x ∷ xs) h k = (IsBelow-trans a b x h k.0, All-IsBelow-trans a b xs h k.1)

All-insert_sorted :
    (a h : Bytes) (xs : List Bytes)
    → IsBelow a h
    → All (IsBelow a) xs
    → All (IsBelow a) (insert_sorted h xs)
unfolding insert_sorted
All-insert_sorted a h [] p q = (p, tt)
All-insert_sorted a h (x ∷ xs) p q = ground (arith, All-insert_sorted a h xs p q.1)

insert_sorted-IsSorted : (h : Bytes) (xs : List Bytes) → IsSorted xs → IsSorted (insert_sorted h xs)
unfolding insert_sorted
insert_sorted-IsSorted h [] s = (tt, tt)
insert_sorted-IsSorted h (x ∷ xs) s = elim (Ordering-cases (cmp_bytes x h)) [
  | inl l ↦
      rw (l, insert_sorted)
        (All-insert_sorted x h xs (λ g. cc (rw l at g)) s.0, insert_sorted-IsSorted h xs s.1)
  | inr (inl e) ↦
      rw (e, insert_sorted) (in_front (λ g. cc (cmp_bytes_refl x, rw (← cmp_bytes-eq x h e) at g)))
  | inr (inr r) ↦ rw (r, insert_sorted) (in_front (λ g. cc (rw (cmp_bytes-gt_flip x h r) at g)))
]
  where
    in_front : IsBelow h x → IsSorted (h ∷ x ∷ xs)
    in_front b = ((b, All-IsBelow-trans h x xs b s.0), s)

-- Sorting makes a sorted list of the same digests.
pub sort-IsSorted : (xs : List Bytes) → IsSorted (sort xs)
unfolding sort
sort-IsSorted [] = tt
sort-IsSorted (x ∷ xs) = insert_sorted-IsSorted x (sort xs) (sort-IsSorted xs)

has-insert_sorted :
    (g h : Bytes) (xs : List Bytes) → Has (insert_sorted h xs) g ↔ ((h ≡ g) ⊎ Has xs g)
unfolding insert_sorted
has-insert_sorted g h [] = ground arith
has-insert_sorted g h (x ∷ xs) = ground (arith, has-insert_sorted g h xs)

pub has-sort : (g : Bytes) (xs : List Bytes) → Has (sort xs) g ↔ Has xs g
unfolding sort
has-sort g [] = ground arith
has-sort g (x ∷ xs) = ground (arith, has-insert_sorted g x (sort xs), has-sort g xs)
