-- ===== src/Base/Decimal.antt =====
-- Numbers as `format!("{n}")` prints them, and what the digits read as.
use Prim.Native.Nat.{ℕ, zero, suc, ◌+◌, ◌-◌, ◌*◌, ◌/◌, ◌%◌, ◌<◌}
use mathlib.Core.Path.{◌≡◌, refl}
use mathlib.Core.Logic.{inl, inr}
use mathlib.Core.Bool.{Bool, true, ◌&&◌}
use mathlib.Core.List.{[], ◌∷◌, ◌++◌}
use native.Mathlib.Omega.{arith}
use secret_manager.Base.Tests.{ltb, leb, if◌then◌else◌, Bool-cases, not-ltb→le, ltb→lt}
use secret_manager.Base.Lists.{all}
use secret_manager.Base.Strings.{Text}

-- One digit for each unit of fuel, the last one first: `n + 1` units are enough.
digits_from : ℕ → ℕ → Text
digits_from zero n = []
digits_from (suc fuel) n =
    let more = digits_from fuel (n / 10) in
    if ltb n 10 then (b'0' + n) ∷ [] else more ++ ((b'0' + n % 10) ∷ [])

unfoldable pub to_decimal : ℕ → Text
unfolding digits_from
to_decimal n = digits_from (n + 1) n

abbrev pub is_digit : ℕ → Bool
is_digit b = leb b'0' b && leb b b'9'

unfoldable pub from_decimal : ℕ → Text → ℕ
from_decimal acc [] = acc
from_decimal acc (d ∷ ds) = from_decimal (acc * 10 + (d - b'0')) ds

from_decimal-append :
    (acc : ℕ) (xs ys : Text) → from_decimal acc (xs ++ ys) ≡ from_decimal (from_decimal acc xs) ys
unfolding from_decimal
from_decimal-append acc [] ys = refl
from_decimal-append acc (x ∷ xs) ys = from_decimal-append (acc * 10 + (x - b'0')) xs ys

from_decimal-digits_from : (fuel n : ℕ) → n < fuel → from_decimal 0 (digits_from fuel n) ≡ n
unfolding digits_from from_decimal
from_decimal-digits_from zero n h = absurd (omega arith)
from_decimal-digits_from (suc fuel) n h = elim (Bool-cases (ltb n 10)) [
  | inl e ↦ rw e (omega arith)
  | inr e ↦
      let big = not-ltb→le n 10 e in
      let ih = from_decimal-digits_from fuel (n / 10) (omega arith) in
      rw (e, from_decimal-append 0 (digits_from fuel (n / 10)) ((b'0' + n % 10) ∷ []))
        (rw ih (omega arith))
]

pub from-to_decimal : (n : ℕ) → from_decimal 0 (to_decimal n) ≡ n
unfolding to_decimal
from-to_decimal n = from_decimal-digits_from (n + 1) n (omega arith)

all-append :
    (p : ℕ → Bool) (xs ys : Text) → all p xs ≡ true → all p ys ≡ true → all p (xs ++ ys) ≡ true
all-append p [] ys h k = k
all-append p (x ∷ xs) ys h k = ground (arith, all-append p xs ys)

digits_from-all : (fuel n : ℕ) → all is_digit (digits_from fuel n) ≡ true
unfolding digits_from
digits_from-all zero n = refl
digits_from-all (suc fuel) n = elim (Bool-cases (ltb n 10)) [
  | inl e ↦ let small = ltb→lt n 10 e in rw e (ground arith)
  | inr e ↦ rw e (
      all-append is_digit (digits_from fuel (n / 10)) _ (digits_from-all fuel (n / 10))
        (ground arith))
]

pub to_decimal-all : (n : ℕ) → all is_digit (to_decimal n) ≡ true
unfolding to_decimal
to_decimal-all n = digits_from-all (n + 1) n
