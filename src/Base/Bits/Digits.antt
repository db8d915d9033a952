-- ===== src/Base/Bits/Digits.antt =====
-- The binary digits of a number, one at a time, and what `|` and `&` do to them.
use Prim.Native.Nat.{
  ℕ, zero, suc, ◌+◌, ◌*◌, ◌/◌, ◌%◌, ◌^◌, ◌≤◌, min, max, bit_and, bit_or, digits, bitwise,
  bit_and-bitwise, bit_or-bitwise,
}
use native.Mathlib.Nat.{pow-suc}
use mathlib.Core.Path.{◌≡◌, refl, ap, ◌∙◌}
use native.Mathlib.Omega.{arith}

-- The count of digits to go does not matter once it covers the number.
module _ (left : ℕ → ℕ) (op : ℕ → ℕ → ℕ) where
  -- One digit more, on a number whose other digits agree.
  under_digit :
      {s t : ℕ} (x y : ℕ) → s ≡ t → s * 2 + op (suc x % 2) (y % 2) ≡ t * 2 + op (suc x % 2) (y % 2)
  under_digit x y = ap (λ (d : ℕ). d * 2 + op (suc x % 2) (y % 2))

  digits_enough : (x k l : ℕ) (y : ℕ) → x ≤ k → x ≤ l → digits left op k x y ≡ digits left op l x y
  digits_enough zero zero zero y h i = refl
  digits_enough zero zero (suc _) y h i = refl
  digits_enough zero (suc _) zero y h i = refl
  digits_enough zero (suc _) (suc _) y h i = refl
  digits_enough (suc x) zero _ y h i = elim h [ ]
  digits_enough (suc x) _ zero y h i = elim i [ ]
  digits_enough (suc x) (suc k) (suc l) y h i =
      under_digit x y (digits_enough (suc x / 2) k l (y / 2) (omega arith) (omega arith))

  -- The lowest digit apart from the others.
  low_digit :
      (x y : ℕ)
      → bitwise left op (suc x) y
        ≡ digits left op (suc x / 2) (suc x / 2) (y / 2) * 2 + op (suc x % 2) (y % 2)
  low_digit x y =
      under_digit x y (digits_enough (suc x / 2) x (suc x / 2) (y / 2) (omega arith) (omega arith))

pub bit_or_digit : (x y : ℕ) → bit_or x y ≡ max (x % 2) (y % 2) + 2 * bit_or (x / 2) (y / 2)
bit_or_digit zero y = omega (arith, bit_or-bitwise 0 y, bit_or-bitwise 0 (y / 2))
bit_or_digit (suc x) y = omega (
  arith,
  low_digit (λ w. w) max x y,
  bit_or-bitwise (suc x / 2) (y / 2),
  bit_or-bitwise (suc x) y,
)

pub bit_and_digit : (x y : ℕ) → bit_and x y ≡ min (x % 2) (y % 2) + 2 * bit_and (x / 2) (y / 2)
bit_and_digit zero y = omega (arith, bit_and-bitwise 0 y, bit_and-bitwise 0 (y / 2))
bit_and_digit (suc x) y = omega (
  arith,
  low_digit (λ w. 0) min x y,
  bit_and-bitwise (suc x / 2) (y / 2),
  bit_and-bitwise (suc x) y,
)

-- Bit k of a number.
abbrev pub test_bit : ℕ → ℕ → ℕ
test_bit zero x = x % 2
test_bit (suc k) x = test_bit k (x / 2)

pub two_pow_half : (k : ℕ) → (2 ^ suc k / 2 ≡ 2 ^ k) × (2 ^ suc k % 2 ≡ 0)
two_pow_half k = omega (arith, pow-suc 2 k)

-- Nothing but zeros on one side.
pub or_zero_fuel : (n a : ℕ) → a ≤ n → bit_or a 0 ≡ a
or_zero_fuel n zero h = refl
or_zero_fuel zero (suc a) h = elim h [ ]
or_zero_fuel (suc n) (suc a) h =
    omega (arith, bit_or_digit (suc a) 0, or_zero_fuel n (suc a / 2) (omega arith))

pub and_zero_fuel : (n a : ℕ) → a ≤ n → bit_and a 0 ≡ 0
and_zero_fuel n zero h = refl
and_zero_fuel zero (suc a) h = elim h [ ]
and_zero_fuel (suc n) (suc a) h =
    omega (arith, bit_and_digit (suc a) 0, and_zero_fuel n (suc a / 2) (omega arith))

pub or_pow_suc : (k x : ℕ) → bit_or x (2 ^ suc k) ≡ bit_or (x / 2) (2 ^ k) * 2 + x % 2
or_pow_suc k x = bit_or_digit x (2 ^ suc k) ∙ ground (arith, two_pow_half k)

pub and_pow_suc : (k x : ℕ) → bit_and x (2 ^ suc k) ≡ bit_and (x / 2) (2 ^ k) * 2
and_pow_suc k x = bit_and_digit x (2 ^ suc k) ∙ ground (arith, two_pow_half k)

pub or_one : (x : ℕ) → bit_or x 1 ≡ (x / 2) * 2 + 1
or_one x = omega (arith, bit_or_digit x 1, or_zero_fuel (x / 2) (x / 2) (omega arith))

pub and_one : (x : ℕ) → bit_and x 1 ≡ x % 2
and_one x = omega (arith, bit_and_digit x 1, and_zero_fuel (x / 2) (x / 2) (omega arith))
