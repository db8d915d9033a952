-- ===== src/Base/Bits.antt =====
-- Single bits: what `|` with one bit and `&` with one bit or a mask of ones do to a number.
use Prim.Native.Nat.{
  ℕ, zero, suc, ◌+◌, ◌-◌, ◌*◌, ◌/◌, ◌%◌, ◌^◌, ◌≤◌, ◌<◌, min, max, bit_and, bit_or, digits, bitwise,
  bit_and-bitwise, bit_or-bitwise,
}
use native.Mathlib.Nat.{pow-suc}
use mathlib.Core.Path.{◌≡◌, refl, sym, ap, ◌∙◌}
use mathlib.Core.Logic.{◌≢◌}
use mathlib.Core.Bool.{Bool, true, false, not}
use native.Mathlib.Omega.{arith}
use transit_session.Base.Tests.{if◌then◌else◌, ◌==◌}
mod Digits
use transit_session.Base.Bits.Digits.{
  bit_or_digit, bit_and_digit, two_pow_half, or_zero_fuel, and_zero_fuel, or_pow_suc, and_pow_suc,
  or_one, and_one, test_bit,
}

pub test_bit-lt : (k x : ℕ) → test_bit k x < 2
test_bit-lt zero x = omega arith
test_bit-lt (suc k) x = test_bit-lt k (x / 2)

or_pow_half :
    (k x : ℕ)
    → (bit_or x (2 ^ suc k) / 2 ≡ bit_or (x / 2) (2 ^ k)) × (bit_or x (2 ^ suc k) % 2 ≡ x % 2)
or_pow_half k x = omega (arith, or_pow_suc k x)

-- `|=` sets its bit and leaves the others.
test_bit-or_self : (k x : ℕ) → test_bit k (bit_or x (2 ^ k)) ≡ 1
test_bit-or_self zero x = omega (arith, or_one x)
test_bit-or_self (suc k) x = ap (test_bit k) ((or_pow_half k x).0) ∙ test_bit-or_self k (x / 2)

test_bit-or_other : (j k x : ℕ) → j ≢ k → test_bit j (bit_or x (2 ^ k)) ≡ test_bit j x
test_bit-or_other zero zero x h = absurd (h refl)
test_bit-or_other zero (suc k) x h = (or_pow_half k x).1
test_bit-or_other (suc j) zero x h = ap (test_bit j) (omega (arith, or_one x))
test_bit-or_other (suc j) (suc k) x h =
    ap (test_bit j) ((or_pow_half k x).0) ∙ test_bit-or_other j k (x / 2) (λ e. h (ap suc e))

test_bit-small : (k x : ℕ) → x < 2 ^ k → test_bit k x ≡ 0
test_bit-small zero x h = omega arith
test_bit-small (suc k) x h = test_bit-small k (x / 2) (omega (arith, pow-suc 2 k))

bit_and-pow : (k x : ℕ) → bit_and x (2 ^ k) ≡ test_bit k x * 2 ^ k
bit_and-pow zero x = omega (arith, and_one x)
bit_and-pow (suc k) x =
    and_pow_suc k x
    ∙ omega (arith, bit_and-pow k (x / 2), ap (λ (t : ℕ). test_bit k (x / 2) * t) (pow-suc 2 k))

-- `(x & f) != 0`.
abbrev pub has_flag : ℕ → ℕ → Bool
has_flag x f = not (bit_and x f == 0)

pub pow_pos : (k : ℕ) → 0 < 2 ^ k
pow_pos zero = omega arith
pow_pos (suc k) = omega (arith, pow_pos k, pow-suc 2 k)

has_flag-test_bit : (k x : ℕ) → has_flag x (2 ^ k) ≡ (test_bit k x == 1)
has_flag-test_bit k x = ground (arith, bit_and-pow k x, pow_pos k, test_bit-lt k x)

pub has_flag-or_self : (k x : ℕ) → has_flag (bit_or x (2 ^ k)) (2 ^ k) ≡ true
has_flag-or_self k x =
    has_flag-test_bit k (bit_or x (2 ^ k)) ∙ ap (λ (b : ℕ). b == 1) (test_bit-or_self k x)

pub has_flag-or_other :
    (j k x : ℕ) → j ≢ k → has_flag (bit_or x (2 ^ k)) (2 ^ j) ≡ has_flag x (2 ^ j)
has_flag-or_other j k x h =
    has_flag-test_bit j (bit_or x (2 ^ k))
    ∙ ap (λ (b : ℕ). b == 1) (test_bit-or_other j k x h)
    ∙ sym (has_flag-test_bit j x)

pub has_flag-small : (k x : ℕ) → x < 2 ^ k → has_flag x (2 ^ k) ≡ false
has_flag-small k x h = has_flag-test_bit k x ∙ ap (λ (b : ℕ). b == 1) (test_bit-small k x h)

-- A mask of `m` ones keeps the digits below bit `m`.
mask_suc : (m x : ℕ) → bit_and x (2 ^ suc m - 1) ≡ bit_and (x / 2) (2 ^ m - 1) * 2 + x % 2
mask_suc m x = bit_and_digit x (2 ^ suc m - 1) ∙ ground (arith, half)
  where
    half : ((2 ^ suc m - 1) / 2 ≡ 2 ^ m - 1) × ((2 ^ suc m - 1) % 2 ≡ 1)
    half = omega (arith, pow_pos m, pow-suc 2 m)

pub mask-small : (m x : ℕ) → x < 2 ^ m → bit_and x (2 ^ m - 1) ≡ x
mask-small zero x h = omega (arith, and_zero_fuel x x (omega arith))
mask-small (suc m) x h =
    mask_suc m x ∙ omega (arith, mask-small m (x / 2) (omega (arith, pow-suc 2 m)))

pub mask-or_above :
    (m k x : ℕ) → m ≤ k → bit_and (bit_or x (2 ^ k)) (2 ^ m - 1) ≡ bit_and x (2 ^ m - 1)
mask-or_above zero k x h =
    and_zero_fuel (bit_or x (2 ^ k)) _ (omega arith) ∙ sym (and_zero_fuel x x (omega arith))
mask-or_above (suc m) zero x h = elim h [ ]
mask-or_above (suc m) (suc k) x h =
    mask_suc m (bit_or x (2 ^ suc k))
    ∙ ground (arith, or_pow_half k x, mask-or_above m k (x / 2), mask_suc m x)

-- The result of `|=` still fits its word.
pub bit_or-lt : (k n x : ℕ) → k < n → x < 2 ^ n → bit_or x (2 ^ k) < 2 ^ n
bit_or-lt k zero x h p = elim h [ ]
bit_or-lt zero (suc n) x h p = omega (arith, or_one x, pow-suc 2 n)
bit_or-lt (suc k) (suc n) x h p = omega (
  arith,
  or_pow_suc k x,
  pow-suc 2 n,
  bit_or-lt k n (x / 2) (omega arith) (omega (arith, pow-suc 2 n)),
)

-- `if (b) x |= f;`.
abbrev pub set_flag : Bool → ℕ → ℕ → ℕ
set_flag b f x = if b then bit_or x f else x

pub has_flag-set_flag :
    (b : Bool) (k x : ℕ) → has_flag x (2 ^ k) ≡ false → has_flag (set_flag b (2 ^ k) x) (2 ^ k) ≡ b
has_flag-set_flag true k x h = has_flag-or_self k x
has_flag-set_flag false k x h = h

pub has_flag-set_other :
    (b : Bool) (j k x : ℕ) → j ≢ k → has_flag (set_flag b (2 ^ k) x) (2 ^ j) ≡ has_flag x (2 ^ j)
has_flag-set_other true j k x h = has_flag-or_other j k x h
has_flag-set_other false j k x h = refl

pub mask-set_flag :
    (b : Bool) (m k x : ℕ)
    → m ≤ k
    → bit_and (set_flag b (2 ^ k) x) (2 ^ m - 1) ≡ bit_and x (2 ^ m - 1)
mask-set_flag true m k x h = mask-or_above m k x h
mask-set_flag false m k x h = refl

pub set_flag-lt : (b : Bool) (k n x : ℕ) → k < n → x < 2 ^ n → set_flag b (2 ^ k) x < 2 ^ n
set_flag-lt true k n x h p = bit_or-lt k n x h p
set_flag-lt false k n x h p = p

pub pow_mono : (m n : ℕ) → m ≤ n → 2 ^ m ≤ 2 ^ n
pow_mono zero n h = pow_pos n
pow_mono (suc m) zero h = elim h [ ]
pow_mono (suc m) (suc n) h = omega (arith, pow-suc 2 m, pow-suc 2 n, pow_mono m n (omega arith))

test_bit-and : (k x y : ℕ) → test_bit k (bit_and x y) ≡ min (test_bit k x) (test_bit k y)
test_bit-and zero x y = omega (arith, bit_and_digit x y)
test_bit-and (suc k) x y =
    let half : bit_and x y / 2 ≡ bit_and (x / 2) (y / 2) = omega (arith, bit_and_digit x y) in
    ap (test_bit k) half ∙ test_bit-and k (x / 2) (y / 2)

-- A flag of the mask and of the number that is compared under it is a flag of the other number.
pub has_flag-masked :
    (k x y m : ℕ)
    → bit_and x m ≡ bit_and y m
    → has_flag y (2 ^ k) ≡ true
    → has_flag m (2 ^ k) ≡ true
    → has_flag x (2 ^ k) ≡ true
has_flag-masked k x y m e h i = ground (
  arith,
  ap (test_bit k) e,
  test_bit-and k x m,
  test_bit-and k y m,
  has_flag-test_bit k x,
  has_flag-test_bit k y,
  has_flag-test_bit k m,
  test_bit-lt k x,
)

pub has_flag-set_on :
    (b : Bool) (k x : ℕ) → b ≡ true → has_flag (set_flag b (2 ^ k) x) (2 ^ k) ≡ true
has_flag-set_on true k x h = has_flag-or_self k x
has_flag-set_on false k x h = cc
