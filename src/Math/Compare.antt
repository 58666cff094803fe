-- ===== src/Math/Compare.antt =====
-- The tests: `z_je` over its operands, `z_test` on bits, `z_jl` and `z_jg` on signed values.
use jzip.Prelude.{
  ℕ, zero, suc, ◌+◌, ◌-◌, ◌/◌, ◌%◌, ◌^◌, ◌<◌, ◌≡◌, ◌≢◌, ap, refl, arith, ltb, ◌==◌, List, [], ◌∷◌,
  get_elem?, some, bit_and, true, false,
}
use native.Mathlib.Nat.{pow-suc, one-le-pow}
use jzip.Prelude.Bits.{bit_and_digit, bit_and-zero}
use jzip.Prelude.Int.{ltb_ℤ, signed}
use jzip.Machine.{Machine}
use jzip.Branch.{conditional_jump}
use jzip.Math.{any_equal, z_je, z_test, z_jl, z_jg}

any_equal-true :
    (a : ℕ) (rest : List ℕ) (i : ℕ) → get_elem? rest i ≡ some a → any_equal a rest ≡ true
unfolding any_equal
any_equal-true a [] i h = cc
any_equal-true a (b ∷ rest) zero h = ground arith
any_equal-true a (b ∷ rest) (suc i) h = ground (arith, any_equal-true a rest i h)

any_equal-false :
    (a : ℕ) (rest : List ℕ) → ((i : ℕ) → get_elem? rest i ≢ some a) → any_equal a rest ≡ false
unfolding any_equal
any_equal-false a [] h = refl
any_equal-false a (b ∷ rest) h = ground (arith, h 0, any_equal-false a rest (λ i. h (suc i)))

-- `z_je` tests true where one of the operands behind the first equals it, at any place, and false
-- where none does.
pub z_je_any :
    (a : ℕ) (rest : List ℕ) (m : Machine)
    → ((i : ℕ) → get_elem? rest i ≡ some a → z_je (a ∷ rest) m ≡ conditional_jump true m)
      × (((i : ℕ) → get_elem? rest i ≢ some a) → z_je (a ∷ rest) m ≡ conditional_jump false m)
unfolding z_je
z_je_any a rest m = (
  λ i h. ap (λ b. conditional_jump b m) (any_equal-true a rest i h),
  λ h. ap (λ b. conditional_jump b m) (any_equal-false a rest h),
)

-- The bits of a mask are those that a number has and those that its complement has.
bit_and_complement :
    (k a b : ℕ) → a < 2 ^ k → b < 2 ^ k → bit_and (2 ^ k - 1 - a) b + bit_and a b ≡ b
bit_and_complement zero a b ha hb =
    let e : b ≡ 0 = omega arith in
    rw e (omega (arith, bit_and-zero (2 ^ 0 - 1 - a), bit_and-zero a))
bit_and_complement (suc k) a b ha hb = ground (
  arith,
  bit_and_digit (2 ^ suc k - 1 - a) b,
  bit_and_digit a b,
  pow-suc 2 k,
  one-le-pow k 2,
  bit_and_complement k (a / 2) (b / 2) (omega (arith, pow-suc 2 k)) (omega (arith, pow-suc 2 k)),
)

-- `z_test` tests true exactly where the first operand has every bit of the second.
pub z_test_bits :
    (a b : ℕ) (m : Machine)
    → a < 0x10000
    → b < 0x10000
    → z_test a b m ≡ conditional_jump (bit_and a b == b) m
unfolding z_test
z_test_bits a b m ha hb =
    ap (λ t. conditional_jump t m) (ground (arith, bit_and_complement 16 a b ha hb))

-- The order of the signed values is that of the words with the sign bit turned over.
signed_order :
    (a b : ℕ)
    → a < 0x10000
    → b < 0x10000
    → ltb_ℤ (signed a) (signed b) ≡ ltb ((a + 0x8000) % 0x10000) ((b + 0x8000) % 0x10000)
unfolding signed
signed_order a b ha hb = ground arith

-- `z_jl` and `z_jg` compare the operands as two's complement numbers, each the other way round.
pub z_jl-z_jg :
    (a b : ℕ) (m : Machine)
    → a < 0x10000
    → b < 0x10000
    → (z_jl a b m ≡ conditional_jump (ltb ((a + 0x8000) % 0x10000) ((b + 0x8000) % 0x10000)) m)
      × (z_jg b a m ≡ z_jl a b m)
unfolding z_jl z_jg
z_jl-z_jg a b m ha hb = (ap (λ t. conditional_jump t m) (signed_order a b ha hb), refl)
