-- ===== src/Vault/Store/Delta/Undo.antt =====
-- Each mutation of the item list in vault/store.rs and its undo.
use secret_manager.Base.{
  ℕ, zero, suc, ◌≤◌, ◌≡◌, refl, ap, Bool, some, List, [], ◌∷◌, ◌++◌, arith, length, get_elem?, set,
  length-append,
}
use secret_manager.Vault.Types.{Item}
use secret_manager.Vault.Store.Delta.{position, insert_at, remove_at, pop, reinsert}

pub position-get_elem? {ℓ} :
    {A : Type ℓ} (p : A → Bool) (xs : List A) (n : ℕ) (a : A)
    → position p xs ≡ some (n, a)
    → get_elem? xs n ≡ some a
unfolding position
position-get_elem? p [] n a h = cc
position-get_elem? p (x ∷ xs) zero a h = ground (arith, position-get_elem? p xs 0 a)
position-get_elem? p (x ∷ xs) (suc n) a h = ground (arith, position-get_elem? p xs n a)

pub pop-append {ℓ} : {A : Type ℓ} (xs : List A) (a : A) → pop (xs ++ a ∷ []) ≡ xs
unfolding pop
pop-append [] a = refl
pop-append (x ∷ []) a = refl
pop-append (x ∷ y ∷ xs) a = ap (λ r. x ∷ r) (pop-append (y ∷ xs) a)

pub set-set {ℓ} :
    {A : Type ℓ} (xs : List A) (n : ℕ) (a b : A)
    → get_elem? xs n ≡ some b
    → set (set xs n a) n b ≡ xs
set-set [] n a b h = refl
set-set (x ∷ xs) zero a b h = cc
set-set (x ∷ xs) (suc n) a b h = ap (λ r. x ∷ r) (set-set xs n a b h)

insert_at-remove_at {ℓ} :
    {A : Type ℓ} (xs : List A) (n : ℕ) (a : A)
    → get_elem? xs n ≡ some a
    → insert_at n a (remove_at n xs) ≡ xs
unfolding insert_at remove_at
insert_at-remove_at [] n a h = cc
insert_at-remove_at (x ∷ xs) zero a h = cc
insert_at-remove_at (x ∷ xs) (suc n) a h = ap (λ r. x ∷ r) (insert_at-remove_at xs n a h)

le-length-remove_at {ℓ} :
    {A : Type ℓ} (xs : List A) (n : ℕ) (a : A)
    → get_elem? xs n ≡ some a
    → n ≤ length (remove_at n xs)
unfolding remove_at
le-length-remove_at [] n a h = cc
le-length-remove_at (x ∷ xs) zero a h = omega arith
le-length-remove_at (x ∷ xs) (suc n) a h = omega (arith, le-length-remove_at xs n a h)

pub reinsert-remove_at :
    (xs : List Item) (n : ℕ) (a : Item)
    → get_elem? xs n ≡ some a
    → reinsert (n, a) (remove_at n xs) ≡ xs
unfolding reinsert
reinsert-remove_at xs n a h =
    ground (arith, insert_at-remove_at xs n a h, le-length-remove_at xs n a h)

insert_at-length {ℓ} :
    {A : Type ℓ} (front back : List A) (a : A)
    → insert_at (length front) a (front ++ back) ≡ (front ++ a ∷ []) ++ back
unfolding insert_at
insert_at-length [] back a = refl
insert_at-length (x ∷ front) back a = ap (λ r. x ∷ r) (insert_at-length front back a)

-- Putting an element back behind what stood before it.
pub reinsert-length :
    (front back : List Item) (a : Item)
    → reinsert (length front, a) (front ++ back) ≡ (front ++ a ∷ []) ++ back
unfolding reinsert
reinsert-length front back a =
    ground (arith, insert_at-length front back a, length-append front back)
