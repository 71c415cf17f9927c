-- ===== src/Vault/Index/Lookup.antt =====
-- The binary search of vault/format.rs against the list of digests.
use secret_manager.Base.{
  ℕ, zero, suc, ◌+◌, ◌-◌, ◌/◌, ◌≤◌, ◌<◌, ◌≡◌, refl, ap, ◌↔◌, inl, inr, true, some, List, [], ◌∷◌,
  arith, ltb, ◌==◌, ltb→lt, ==_iff, Bool-cases, Option-cases, length, get_elem?, All, Bytes,
}
use Prim.Native.Nat.{Ordering}
use mathlib.Core.Path.{subst}
use secret_manager.Vault.Index.{cmp_bytes, search_between, binary_search}
use secret_manager.Vault.Index.Sorted.{
  Has, IsBelow, IsSorted, cmp_bytes-eq, cmp_bytes_refl, cmp_bytes-lt_flip, Ordering-cases,
}

some_eq : {A : Type 0} {a b : A} → some a ≡ some b → a ≡ b
some_eq e = cc

has-get_elem? : (xs : List Bytes) (i : ℕ) (h : Bytes) → get_elem? xs i ≡ some h → Has xs h
has-get_elem? [] i h e = cc
has-get_elem? (x ∷ xs) zero h e = inl (cc)
has-get_elem? (x ∷ xs) (suc i) h e = inr (has-get_elem? xs i h e)

get_elem?-has :
    (xs : List Bytes) (h : Bytes) → Has xs h → (i : ℕ) × (i < length xs) × (get_elem? xs i ≡ some h)
get_elem?-has [] h m = absurd m
get_elem?-has (x ∷ xs) h (inl e) = (0, omega arith, ap some e)
get_elem?-has (x ∷ xs) h (inr m) =
    let (i, small, e) = get_elem?-has xs h m in (suc i, omega arith, e)

All-get_elem? :
    (xs : List Bytes) (a y : Bytes) (i : ℕ)
    → All (IsBelow a) xs
    → get_elem? xs i ≡ some y
    → IsBelow a y
All-get_elem? [] a y i p e = cc
All-get_elem? (x ∷ xs) a y zero p e = subst (IsBelow a) (some_eq e) p.0
All-get_elem? (x ∷ xs) a y (suc i) p e = All-get_elem? xs a y i p.1 e

-- In a sorted list an element is not above one that stands behind it.
get_elem?-IsBelow :
    (xs : List Bytes) (x y : Bytes) (i j : ℕ)
    → IsSorted xs
    → i < j
    → get_elem? xs i ≡ some x
    → get_elem? xs j ≡ some y
    → IsBelow x y
get_elem?-IsBelow [] x y i j s lt e f = cc
get_elem?-IsBelow (z ∷ xs) x y i zero s lt e f = absurd (omega arith)
get_elem?-IsBelow (z ∷ xs) x y zero (suc j) s lt e f =
    subst (λ a. IsBelow a y) (some_eq e) (All-get_elem? xs z y j s.0 f)
get_elem?-IsBelow (z ∷ xs) x y (suc i) (suc j) s lt e f =
    get_elem?-IsBelow xs x y i j s.1 (omega arith) e f

search_sound :
    (fuel : ℕ) (xs : List Bytes) (h : Bytes) (lo hi : ℕ)
    → search_between fuel xs h lo hi ≡ true
    → Has xs h
unfolding search_between
search_sound zero xs h lo hi e = cc
search_sound (suc fuel) xs h lo hi e =
    let mid : ℕ = lo + (hi - lo) / 2 in
    elim (Option-cases (get_elem? xs mid)) [
      | inl n ↦ ground (arith, n)
      | inr (x, n) ↦ ground (
        arith,
        n,
        has-get_elem? xs mid h,
        cmp_bytes-eq x h,
        search_sound fuel xs h lo mid,
        search_sound fuel xs h (mid + 1) hi,
      )
    ]

get_elem?_total :
    (xs : List Bytes) (i : ℕ) → i < length xs → (x : Bytes) × (get_elem? xs i ≡ some x)
get_elem?_total [] i h = absurd (omega arith)
get_elem?_total (x ∷ xs) zero h = (x, refl)
get_elem?_total (x ∷ xs) (suc i) h = get_elem?_total xs i (omega arith)

-- An element below `h` stands before every place of `h`, one above it behind.
module _ (xs : List Bytes) (x h : Bytes) (mid i : ℕ) (s : IsSorted xs)
    (n : get_elem? xs mid ≡ some x) (e : get_elem? xs i ≡ some h) where
  not_same : i ≡ mid → cmp_bytes x h ≡ Ordering.eq
  not_same p = let q : x ≡ h = cc (n, e, ap (get_elem? xs) p) in rw q (cmp_bytes_refl h)

  after_mid : cmp_bytes x h ≡ Ordering.lt → mid < i
  after_mid o = elim (Bool-cases (ltb mid i)) [
    | inl t ↦ ltb→lt mid i t
    | inr t ↦ elim (Bool-cases (i == mid)) [
      | inl p ↦ cc (o, not_same ((==_iff i mid).0 p))
      | inr p ↦
          absurd (get_elem?-IsBelow xs h x i mid s (ground arith) e n (cmp_bytes-lt_flip x h o))
    ]
  ]

  before_mid : cmp_bytes x h ≡ Ordering.gt → i < mid
  before_mid o = elim (Bool-cases (ltb i mid)) [
    | inl t ↦ ltb→lt i mid t
    | inr t ↦ elim (Bool-cases (i == mid)) [
      | inl p ↦ cc (o, not_same ((==_iff i mid).0 p))
      | inr p ↦ absurd (get_elem?-IsBelow xs x h mid i s (ground arith) n e o)
    ]
  ]

search_complete :
    (fuel : ℕ) (xs : List Bytes) (h : Bytes) (lo hi i : ℕ)
    → IsSorted xs
    → hi ≤ lo + fuel
    → hi ≤ length xs
    → lo ≤ i
    → i < hi
    → get_elem? xs i ≡ some h
    → search_between fuel xs h lo hi ≡ true
unfolding search_between
search_complete zero xs h lo hi i s f b l u e = absurd (omega arith)
search_complete (suc fuel) xs h lo hi i s f b l u e =
    let mid : ℕ = lo + (hi - lo) / 2 in
    let (x, n) = get_elem?_total xs mid (omega arith) in
    elim (Ordering-cases (cmp_bytes x h)) [
      | inl o ↦
          let later : mid < i = after_mid xs x h mid i s n e o in
          ground (arith, n, o, search_complete fuel xs h (mid + 1) hi i s)
      | inr (inl o) ↦ ground (arith, n, o)
      | inr (inr o) ↦
          let sooner : i < mid = before_mid xs x h mid i s n e o in
          ground (arith, n, o, search_complete fuel xs h lo mid i s)
    ]

-- On a sorted list of digests the binary search succeeds exactly on the elements; its fuel, the
-- length of the list, is enough.
pub binary_search-has :
    (xs : List Bytes) (h : Bytes) → IsSorted xs → (binary_search xs h ≡ true) ↔ Has xs h
unfolding binary_search
binary_search-has xs h s = (
  search_sound (length xs) xs h 0 (length xs),
  λ m.
      let (i, small, e) = get_elem?-has xs h m in
      search_complete (length xs) xs h 0 (length xs) i s (omega arith) (omega arith) (omega arith)
        small e,
)
