-- ===== src/Base/Powers.antt =====
-- Powers of numbers and their remainders.
use Prim.Native.Nat.{ℕ, zero, suc, ◌+◌, ◌*◌, ◌/◌, ◌%◌, ◌^◌}
use mathlib.Core.Path.{◌≡◌, sym, ap, ◌∙◌}
use native.Mathlib.Nat.{
  pow-zero, pow-suc, mul-one, mul-zero, mul-suc, mul_comm, mul_assoc, div-add-mod, add-mul,
  mul-add-mod_self_left,
}
use native.Mathlib.Omega.{arith}

mul-mod : (a b p : ℕ) → (a % p) * b % p ≡ a * b % p
mul-mod a b p =
    let whole : a * b ≡ p * (a / p * b) + (a % p) * b =
      ap (λ x. x * b) (sym (div-add-mod a p))
      ∙ add-mul (p * (a / p)) (a % p) b
      ∙ ap (λ x. x + (a % p) * b) (mul_assoc p (a / p) b) in
    sym (ap (λ x. x % p) whole ∙ mul-add-mod_self_left p (a / p * b) ((a % p) * b))

-- A power of a remainder has the remainder of the power.
pub pow-mod : (a n p : ℕ) → (a % p) ^ n % p ≡ a ^ n % p
pow-mod a zero p = ap (λ x. x % p) (pow-zero (a % p) ∙ sym (pow-zero a))
pow-mod a (suc n) p =
    ap (λ x. x % p) (pow-suc (a % p) n)
    ∙ sym (mul-mod ((a % p) ^ n) (a % p) p)
    ∙ ap (λ x. x * (a % p) % p) (pow-mod a n p)
    ∙ mul-mod (a ^ n) (a % p) p
    ∙ ap (λ x. x % p) (mul_comm (a ^ n) (a % p))
    ∙ mul-mod a (a ^ n) p
    ∙ ap (λ x. x % p) (mul_comm a (a ^ n) ∙ sym (pow-suc a n))

pow-add : (a m n : ℕ) → a ^ (m + n) ≡ a ^ m * a ^ n
pow-add a m zero =
    ap (λ k. a ^ k) (omega arith) ∙ sym (mul-one (a ^ m)) ∙ ap (λ x. a ^ m * x) (sym (pow-zero a))
pow-add a m (suc n) =
    ap (λ k. a ^ k) (omega arith)
    ∙ pow-suc a (m + n)
    ∙ ap (λ x. x * a) (pow-add a m n)
    ∙ mul_assoc (a ^ m) (a ^ n) a
    ∙ ap (λ x. a ^ m * x) (sym (pow-suc a n))

pow-mul : (a m n : ℕ) → a ^ (m * n) ≡ (a ^ m) ^ n
pow-mul a m zero = ap (λ k. a ^ k) (mul-zero m) ∙ pow-zero a ∙ sym (pow-zero (a ^ m))
pow-mul a m (suc n) =
    ap (λ k. a ^ k) (mul-suc m n)
    ∙ pow-add a (m * n) m
    ∙ ap (λ x. x * a ^ m) (pow-mul a m n)
    ∙ sym (pow-suc (a ^ m) n)

-- Exponents that are applied one after the other can change places.
pub pow_comm : (a m n : ℕ) → (a ^ m) ^ n ≡ (a ^ n) ^ m
pow_comm a m n = sym (pow-mul a m n) ∙ ap (λ k. a ^ k) (mul_comm m n) ∙ pow-mul a n m
