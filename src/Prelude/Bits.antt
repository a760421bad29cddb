-- ===== src/Prelude/Bits.antt =====
-- `&` with a mask of low bits, and `|` of fields that do not overlap, as arithmetic.
use Prim.Native.Nat.{
  ℕ, zero, suc, ◌+◌, ◌-◌, ◌*◌, ◌/◌, ◌%◌, ◌^◌, ◌≤◌, ◌<◌, min, max, bit_and, bit_or, bitwise, digits,
  bit_and-bitwise, bit_or-bitwise,
}
use mathlib.Core.Path.{◌≡◌, refl, ap, ◌∙◌}
use native.Mathlib.Nat.{pow-suc, one-le-pow}
use native.Mathlib.Omega.{arith}

-- One digit of a bitwise operation: any fuel that reaches the first argument will do.
module _ (rest : ℕ → ℕ) (digit : ℕ → ℕ → ℕ) where
  enough : (m n a b : ℕ) → a ≤ m → a ≤ n → digits rest digit m a b ≡ digits rest digit n a b
  enough zero zero a b h k = refl
  enough zero (suc n) zero b h k = refl
  enough zero (suc n) (suc a) b h k = absurd (omega arith)
  enough (suc m) zero zero b h k = refl
  enough (suc m) zero (suc a) b h k = absurd (omega arith)
  enough (suc m) (suc n) zero b h k = refl
  enough (suc m) (suc n) (suc a) b h k =
      ap (λ t. t * 2 + digit (suc a % 2) (b % 2))
        (enough m n (suc a / 2) (b / 2) (omega arith) (omega arith))

  low_digit :
      (a b : ℕ)
      → bitwise rest digit (suc a) b
        ≡ bitwise rest digit (suc a / 2) (b / 2) * 2 + digit (suc a % 2) (b % 2)
  low_digit a b =
      ap (λ t. t * 2 + digit (suc a % 2) (b % 2))
        (enough a (suc a / 2) (suc a / 2) (b / 2) (omega arith) (omega arith))

or_low : (a b : ℕ) → bit_or a b ≡ bit_or (a / 2) (b / 2) * 2 + max (a % 2) (b % 2)
or_low zero b = rw (bit_or-bitwise 0 b, bit_or-bitwise 0 (b / 2)) (omega arith)
or_low (suc a) b =
    rw (bit_or-bitwise (suc a) b, bit_or-bitwise (suc a / 2) (b / 2)) (low_digit _ max a b)

and_low : (a b : ℕ) → bit_and a b ≡ bit_and (a / 2) (b / 2) * 2 + min (a % 2) (b % 2)
and_low zero b = rw (bit_and-bitwise 0 b, bit_and-bitwise 0 (b / 2)) (omega arith)
and_low (suc a) b =
    rw (bit_and-bitwise (suc a) b, bit_and-bitwise (suc a / 2) (b / 2)) (low_digit _ min a b)

or-zero : (fuel a : ℕ) → a ≤ fuel → bit_or a 0 ≡ a
or-zero fuel zero h = refl
or-zero zero (suc a) h = absurd (omega arith)
or-zero (suc fuel) (suc a) h =
    omega (arith, or_low (suc a) 0, or-zero fuel (suc a / 2) (omega arith))

and-zero : (fuel a : ℕ) → a ≤ fuel → bit_and a 0 ≡ 0
and-zero fuel zero h = refl
and-zero zero (suc a) h = absurd (omega arith)
and-zero (suc fuel) (suc a) h =
    omega (arith, and_low (suc a) 0, and-zero fuel (suc a / 2) (omega arith))

double : (q k : ℕ) → q * 2 ^ suc k ≡ 2 * (q * 2 ^ k)
double q k = omega (arith, ap (λ (t : ℕ). q * t) (pow-suc 2 k))

-- A field above bit `k` and a field below it.
pub or_disjoint : (k q r : ℕ) → r < 2 ^ k → bit_or (q * 2 ^ k) r ≡ q * 2 ^ k + r
or_disjoint zero q r h = ground (arith, or-zero q q)
or_disjoint (suc k) q r h =
    ground (arith, or_low (q * 2 ^ suc k) r, double q k, or_disjoint k q (r / 2) (omega arith))

mod_double : (a m : ℕ) → 0 < m → a % (2 * m) ≡ (a / 2 % m) * 2 + a % 2
mod_double a m h = grind arith

-- A mask of `k` low bits takes the remainder by `2 ^ k`.
pub and_mask : (k a : ℕ) → bit_and a (2 ^ k - 1) ≡ a % 2 ^ k
and_mask zero a = and-zero a a (omega arith) ∙ omega arith
and_mask (suc k) a = ground (
  arith,
  and_low a (2 ^ suc k - 1),
  pow-suc 2 k,
  one-le-pow k 2,
  and_mask k (a / 2),
  mod_double a (2 ^ k),
)
