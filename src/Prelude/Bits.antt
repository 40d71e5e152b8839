-- ===== src/Prelude/Bits.antt =====
-- `|` and `&` on machine words, read as arithmetic: fields that do not overlap add up, and a mask
-- of low ones is a remainder.
use Prim.Native.Nat.{
  ℕ, zero, suc, ◌+◌, ◌-◌, ◌*◌, ◌/◌, ◌%◌, ◌^◌, ◌≤◌, ◌<◌, min, max, bit_and, bit_or, digits,
}
use Prim.Native.Nat.{bit_and-bitwise, bit_or-bitwise}
use mathlib.Core.Path.{◌≡◌, refl, ap, sym, ◌∙◌}
use native.Mathlib.Omega.{arith}
use native.Mathlib.Nat.{pow-suc, one-le-pow, mul_comm, div-div-eq-div-mul}

-- `x << k` and `x >> k` on a word of `w` bits.
abbrev pub shl : ℕ → ℕ → ℕ → ℕ
shl w x k = x * 2 ^ k % 2 ^ w

abbrev pub shr : ℕ → ℕ → ℕ
shr x k = x / 2 ^ k

-- More fuel than digits changes nothing.
module _ (keep : ℕ → ℕ) (f : ℕ → ℕ → ℕ) where
  more_fuel : (n m a b : ℕ) → a ≤ n → n ≤ m → digits keep f m a b ≡ digits keep f n a b
  more_fuel zero zero zero b p q = refl
  more_fuel zero (suc m) zero b p q = refl
  more_fuel zero m (suc a) b p q = absurd (omega arith)
  more_fuel (suc n) zero a b p q = absurd (omega arith)
  more_fuel (suc n) (suc m) zero b p q = refl
  more_fuel (suc n) (suc m) (suc a) b p q =
      omega (arith, more_fuel n m (suc a / 2) (b / 2) (omega arith) (omega arith))

pub or_digit : (x y : ℕ) → bit_or x y ≡ bit_or (x / 2) (y / 2) * 2 + max (x % 2) (y % 2)
or_digit zero b = omega (arith, bit_or-bitwise 0 b, bit_or-bitwise 0 (b / 2))
or_digit (suc a) b = omega (
  arith,
  bit_or-bitwise (suc a) b,
  bit_or-bitwise (suc a / 2) (b / 2),
  more_fuel (λ y. y) max (suc a / 2) a (suc a / 2) (b / 2) (omega arith) (omega arith),
)

pub and_digit : (x y : ℕ) → bit_and x y ≡ bit_and (x / 2) (y / 2) * 2 + min (x % 2) (y % 2)
and_digit zero b = omega (arith, bit_and-bitwise 0 b, bit_and-bitwise 0 (b / 2))
and_digit (suc a) b = omega (
  arith,
  bit_and-bitwise (suc a) b,
  bit_and-bitwise (suc a / 2) (b / 2),
  more_fuel (λ y. 0) min (suc a / 2) a (suc a / 2) (b / 2) (omega arith) (omega arith),
)

pub or_none : (n a : ℕ) → a ≤ n → bit_or a 0 ≡ a
or_none n zero h = refl
or_none zero (suc a) h = absurd (omega arith)
or_none (suc n) (suc a) h = omega (arith, or_digit (suc a) 0, or_none n (suc a / 2) (omega arith))

pub and_none : (n a : ℕ) → a ≤ n → bit_and a 0 ≡ 0
and_none n zero h = refl
and_none zero (suc a) h = absurd (omega arith)
and_none (suc n) (suc a) h =
    omega (arith, and_digit (suc a) 0, and_none n (suc a / 2) (omega arith))

double : (q k : ℕ) → q * 2 ^ suc k ≡ q * 2 ^ k * 2
double q k = omega (arith, ap (λ (t : ℕ). q * t) (pow-suc 2 k))

-- A field put above `k` low bits.
pub or_field : (k q r : ℕ) → r < 2 ^ k → bit_or (q * 2 ^ k) r ≡ q * 2 ^ k + r
or_field zero q r h = ground (arith, or_none q q)
or_field (suc k) q r h = ground (
  arith,
  or_digit (q * 2 ^ suc k) r,
  double q k,
  or_field k q (r / 2) (omega (arith, pow-suc 2 k)),
)

low_digits : (k q r : ℕ) → r < 2 ^ k → bit_and (q * 2 ^ k + r) (2 ^ k - 1) ≡ r
low_digits zero q r h = ground (arith, and_none (q * 1 + r) (q * 1 + r))
low_digits (suc k) q r h = ground (
  arith,
  and_digit (q * 2 ^ suc k + r) (2 ^ suc k - 1),
  double q k,
  pow-suc 2 k,
  one-le-pow k 2,
  low_digits k q (r / 2) (omega (arith, pow-suc 2 k)),
)

-- A mask of `k` ones.
pub and_mask : (k a : ℕ) → bit_and a (2 ^ k - 1) ≡ a % 2 ^ k
and_mask k a = ground (arith, one-le-pow k 2, low_digits k (a / 2 ^ k) (a % 2 ^ k))

-- The bits of `a | b` lie within the width of both.
pub or-lt : (k a b : ℕ) → a < 2 ^ k → b < 2 ^ k → bit_or a b < 2 ^ k
or-lt zero a b p q = ground (arith, or_none 0 0)
or-lt (suc k) a b p q = ground (
  arith,
  or_digit a b,
  pow-suc 2 k,
  or-lt k (a / 2) (b / 2) (omega (arith, pow-suc 2 k)) (omega (arith, pow-suc 2 k)),
)

half_div : (k a : ℕ) → a / 2 ^ suc k ≡ a / 2 / 2 ^ k
half_div k a =
    ap (λ (t : ℕ). a / t) (pow-suc 2 k ∙ mul_comm (2 ^ k) 2) ∙ sym (div-div-eq-div-mul a 2 (2 ^ k))

-- A mask of the single bit `k`.
pub and_bit : (k a : ℕ) → bit_and a (2 ^ k) ≡ a / 2 ^ k % 2 * 2 ^ k
and_bit zero a = omega (arith, and_mask 1 a)
and_bit (suc k) a = ground (
  arith,
  and_digit a (2 ^ suc k),
  pow-suc 2 k,
  half_div k a,
  double (a / 2 / 2 ^ k % 2) k,
  and_bit k (a / 2),
)

-- A mask with `k` low zeros looks at the bits above them.
pub and_high : (k a m : ℕ) → bit_and a (m * 2 ^ k) ≡ bit_and (a / 2 ^ k) m * 2 ^ k
and_high zero a m = ground arith
and_high (suc k) a m = ground (
  arith,
  and_digit a (m * 2 ^ suc k),
  double m k,
  double (bit_and (a / 2 / 2 ^ k) m) k,
  half_div k a,
  and_high k (a / 2) m,
)
