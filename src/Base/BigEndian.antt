-- ===== src/Base/BigEndian.antt =====
-- Numbers as bytes, the most significant byte first.
use Prim.Native.Nat.{ℕ, zero, suc, ◌+◌, ◌*◌, ◌/◌, ◌%◌, ◌^◌, ◌≤◌, ◌<◌}
use mathlib.Core.Path.{◌≡◌, refl, ap, ◌∙◌}
use mathlib.Core.Bool.{Bool, true, false}
use mathlib.Core.List.{[], ◌∷◌, ◌++◌}
use native.Mathlib.Nat.{pow-suc, pow-zero, div-lt_iff_lt-mul}
use native.Mathlib.Omega.{arith}
use secret_manager.Base.Lists.{length, length-append}
use secret_manager.Base.Tests.{if◌then◌else◌, ◌==◌, ==_iff}
use secret_manager.Base.Strings.{Bytes}

-- `n` bytes of `x`.
unfoldable pub to_be : ℕ → ℕ → Bytes
to_be zero x = []
to_be (suc n) x = to_be n (x / 256) ++ ((x % 256) ∷ [])

unfoldable pub from_be : ℕ → Bytes → ℕ
from_be acc [] = acc
from_be acc (b ∷ bs) = from_be (acc * 256 + b) bs

from_be-append : (acc b : ℕ) (xs : Bytes) → from_be acc (xs ++ (b ∷ [])) ≡ from_be acc xs * 256 + b
unfolding from_be
from_be-append acc b [] = refl
from_be-append acc b (x ∷ xs) = from_be-append (acc * 256 + x) b xs

pub from_be-to_be : (n x : ℕ) → x < 256 ^ n → from_be 0 (to_be n x) ≡ x
unfolding to_be from_be
from_be-to_be zero x h = let one = pow-zero 256 in omega arith
from_be-to_be (suc n) x h =
    let step = pow-suc 256 n in
    let small : x / 256 < 256 ^ n = (div-lt_iff_lt-mul {k = 256} (omega arith)).1 (omega arith) in
    from_be-append 0 (x % 256) (to_be n (x / 256))
    ∙ (let ih = from_be-to_be n (x / 256) small in omega arith)

pub length-to_be : (n x : ℕ) → length (to_be n x) ≡ n
unfolding to_be
length-to_be zero x = refl
length-to_be (suc n) x =
    omega (arith, length-append (to_be n (x / 256)) ((x % 256) ∷ []), length-to_be n (x / 256))

-- Without the zeros in front, but never empty: the bytes from the first one that is not zero.
unfoldable pub strip_zeros : Bytes → Bytes
strip_zeros [] = []
strip_zeros (b ∷ []) = b ∷ []
strip_zeros (b ∷ c ∷ bs) = let rest = strip_zeros (c ∷ bs) in if b == 0 then rest else b ∷ c ∷ bs

pub from_be-strip_zeros : (bs : Bytes) → from_be 0 (strip_zeros bs) ≡ from_be 0 bs
unfolding from_be strip_zeros
from_be-strip_zeros [] = refl
from_be-strip_zeros (b ∷ []) = refl
from_be-strip_zeros (b ∷ c ∷ bs) = by_zero (b == 0) refl (from_be-strip_zeros (c ∷ bs))
  where
    by_zero :
        (z : Bool)
        → (b == 0) ≡ z
        → from_be 0 (strip_zeros (c ∷ bs)) ≡ from_be 0 (c ∷ bs)
        → from_be 0 (if z then strip_zeros (c ∷ bs) else b ∷ c ∷ bs) ≡ from_be 0 (b ∷ c ∷ bs)
    by_zero true e ih =
        let zero' : b ≡ 0 = (==_iff b 0).0 e in ih ∙ ap (λ x. from_be x bs) (omega arith)
    by_zero false e ih = refl

length-strip_zeros : (bs : Bytes) → length (strip_zeros bs) ≤ length bs
unfolding strip_zeros
length-strip_zeros [] = omega arith
length-strip_zeros (b ∷ []) = omega arith
length-strip_zeros (b ∷ c ∷ bs) = ground (arith, length-strip_zeros (c ∷ bs))

-- The minimal form of a number is no longer than the full one, and padded it is the same number.
pub strip_zeros-to_be :
    (n x : ℕ)
    → x < 256 ^ n
    → (length (strip_zeros (to_be n x)) ≤ n) × (from_be 0 (strip_zeros (to_be n x)) ≡ x)
strip_zeros-to_be n x h = (
  omega (arith, length-strip_zeros (to_be n x), length-to_be n x),
  from_be-strip_zeros (to_be n x) ∙ from_be-to_be n x h,
)
