-- ===== src/Prelude/Bits.antt =====
-- `&`, `|` and `^` of C at variables: a law for the lowest digit, and what follows for masks and
-- fields, at every width.
use Prim.Native.Nat.{
  ℕ, zero, suc, ◌+◌, ◌-◌, ◌*◌, ◌/◌, ◌%◌, ◌^◌, ◌≤◌, ◌<◌, min, max, digits, bit_and, bit_or, bit_xor,
  bit_and-bitwise, bit_or-bitwise, bit_xor-bitwise,
}
use mathlib.Core.Path.{◌≡◌, refl, ap}
use native.Mathlib.Omega.{arith}
use native.Mathlib.Nat.{pow-suc, one-le-pow}

-- The digits of a number are found with any fuel that is at least the number.
module _ (rest : ℕ → ℕ) (digit : ℕ → ℕ → ℕ) where
  digits_enough : (n m a b : ℕ) → a ≤ n → a ≤ m → digits rest digit n a b ≡ digits rest digit m a b
  digits_enough zero zero a b p q = refl
  digits_enough zero (suc m) zero b p q = refl
  digits_enough (suc n) zero zero b p q = refl
  digits_enough (suc n) (suc m) zero b p q = refl
  digits_enough zero (suc m) (suc a) b p q = absurd (omega arith)
  digits_enough (suc n) zero (suc a) b p q = absurd (omega arith)
  digits_enough (suc n) (suc m) (suc a) b p q =
      rw (digits_enough n m (suc a / 2) (b / 2) (omega arith) (omega arith))

zero-bit_and : (b : ℕ) → bit_and 0 b ≡ 0
zero-bit_and b = bit_and-bitwise 0 b

zero-bit_or : (b : ℕ) → bit_or 0 b ≡ b
zero-bit_or b = bit_or-bitwise 0 b

zero-bit_xor : (b : ℕ) → bit_xor 0 b ≡ b
zero-bit_xor b = bit_xor-bitwise 0 b

pub bit_and_digit : (a b : ℕ) → bit_and a b ≡ bit_and (a / 2) (b / 2) * 2 + min (a % 2) (b % 2)
bit_and_digit zero b = omega (arith, zero-bit_and b, zero-bit_and (b / 2))
bit_and_digit (suc a) b = omega (
  arith,
  bit_and-bitwise (suc a) b,
  bit_and-bitwise (suc a / 2) (b / 2),
  digits_enough (λ y. 0) min a (suc a / 2) (suc a / 2) (b / 2) (omega arith) (omega arith),
)

pub bit_or_digit : (a b : ℕ) → bit_or a b ≡ bit_or (a / 2) (b / 2) * 2 + max (a % 2) (b % 2)
bit_or_digit zero b = omega (arith, zero-bit_or b, zero-bit_or (b / 2))
bit_or_digit (suc a) b = omega (
  arith,
  bit_or-bitwise (suc a) b,
  bit_or-bitwise (suc a / 2) (b / 2),
  digits_enough (λ y. y) max a (suc a / 2) (suc a / 2) (b / 2) (omega arith) (omega arith),
)

pub bit_and-zero : (a : ℕ) → bit_and a 0 ≡ 0
bit_and-zero a = below a a (omega arith)
  where
    below : (n a : ℕ) → a ≤ n → bit_and a 0 ≡ 0
    below n zero h = refl
    below zero (suc a) h = absurd (omega arith)
    below (suc n) (suc a) h =
        omega (arith, bit_and_digit (suc a) 0, below n (suc a / 2) (omega arith))

pub bit_or-zero : (a : ℕ) → bit_or a 0 ≡ a
bit_or-zero a = below a a (omega arith)
  where
    below : (n a : ℕ) → a ≤ n → bit_or a 0 ≡ a
    below n zero h = refl
    below zero (suc a) h = absurd (omega arith)
    below (suc n) (suc a) h =
        omega (arith, bit_or_digit (suc a) 0, below n (suc a / 2) (omega arith))

double-pow : (q k : ℕ) → q * 2 ^ suc k ≡ 2 * (q * 2 ^ k)
double-pow q k = omega (arith, ap (λ (t : ℕ). q * t) (pow-suc 2 k))

-- Shifting both sides of `&` by `k` shifts the result; what stands below the mask is lost.
pub bit_and_shift :
    (k q r b : ℕ) → r < 2 ^ k → bit_and (q * 2 ^ k + r) (b * 2 ^ k) ≡ bit_and q b * 2 ^ k
bit_and_shift zero q r b h = ground arith
bit_and_shift (suc k) q r b h = ground (
  arith,
  bit_and_digit (q * 2 ^ suc k + r) (b * 2 ^ suc k),
  double-pow q k,
  double-pow b k,
  double-pow (bit_and q b) k,
  pow-suc 2 k,
  bit_and_shift k q (r / 2) b (omega (arith, pow-suc 2 k)),
)

-- A mask of `k` low bits keeps the lower of two fields.
bit_and_lower : (k q r : ℕ) → r < 2 ^ k → bit_and (q * 2 ^ k + r) (2 ^ k - 1) ≡ r
bit_and_lower zero q r h = rw bit_and-zero (omega arith)
bit_and_lower (suc k) q r h = ground (
  arith,
  bit_and_digit (q * 2 ^ suc k + r) (2 ^ suc k - 1),
  double-pow q k,
  pow-suc 2 k,
  one-le-pow k 2,
  bit_and_lower k q (r / 2) (omega (arith, pow-suc 2 k)),
)

pub bit_and_low : (k a : ℕ) → bit_and a (2 ^ k - 1) ≡ a % 2 ^ k
bit_and_low k a = ground (arith, one-le-pow k 2, bit_and_lower k (a / 2 ^ k) (a % 2 ^ k))

-- `|` of two fields that share no bit is their sum.
pub bit_or_fields : (k q r : ℕ) → r < 2 ^ k → bit_or (q * 2 ^ k) r ≡ q * 2 ^ k + r
bit_or_fields zero q r h = ground (arith, bit_or-zero q)
bit_or_fields (suc k) q r h = ground (
  arith,
  bit_or_digit (q * 2 ^ suc k) r,
  double-pow q k,
  bit_or_fields k q (r / 2) (omega (arith, pow-suc 2 k)),
)

pub bit_or_comm : (a b : ℕ) → bit_or a b ≡ bit_or b a
bit_or_comm a b = below a a b (omega arith)
  where
    below : (n a b : ℕ) → a ≤ n → bit_or a b ≡ bit_or b a
    below n zero b h = omega (arith, zero-bit_or b, bit_or-zero b)
    below zero (suc a) b h = absurd (omega arith)
    below (suc n) (suc a) b h = omega (
      arith,
      bit_or_digit (suc a) b,
      bit_or_digit b (suc a),
      below n (suc a / 2) (b / 2) (omega arith),
    )

-- One bit of a number, as a test: `x & 2^k` is `2^k` or 0.
pub bit_and_bit : (k x : ℕ) → bit_and x (1 * 2 ^ k) ≡ x / 2 ^ k % 2 * 2 ^ k
bit_and_bit k x =
    ground
      (arith, one-le-pow k 2, bit_and_shift k (x / 2 ^ k) (x % 2 ^ k) 1, bit_and_low 1 (x / 2 ^ k))

-- Shifting both sides of `|` by `k`, with a field below that the second number does not touch.
pub bit_or_shift :
    (k q r b : ℕ) → r < 2 ^ k → bit_or (q * 2 ^ k + r) (b * 2 ^ k) ≡ bit_or q b * 2 ^ k + r
bit_or_shift zero q r b h = ground arith
bit_or_shift (suc k) q r b h = ground (
  arith,
  bit_or_digit (q * 2 ^ suc k + r) (b * 2 ^ suc k),
  double-pow q k,
  double-pow b k,
  double-pow (bit_or q b) k,
  pow-suc 2 k,
  bit_or_shift k q (r / 2) b (omega (arith, pow-suc 2 k)),
)
