-- ===== src/Math/Divide.antt =====
-- `z_div` and `z_mod` against C's truncating division of the signed values.
use jzip.Prelude.{
  ℕ, zero, suc, ◌-◌, ◌/◌, ◌%◌, ◌<◌, ◌≤◌, ◌≡◌, ◌≢◌, ◌⊎◌, ◌∙◌, ap, refl, arith, ne→not_==, inl, inr,
}
use native.Mathlib.Decide.{dec_lt}
use native.Mathlib.Nat.{zero-div}
use jzip.Prelude.Int.{
  ℤ, pos, negsuc, ◌/ℤ◌, ◌%ℤ◌, neg_ℤ, to_word, signed, int16, to_word-int16, int16_self,
  int16_self_neg, signed_low, signed_high,
}
use jzip.Machine.{Machine}
use jzip.Operand.{store_operand}
use jzip.Math.{quotient, div_word, remainder, mod_word, z_div, z_mod}

neg-neg : (z : ℤ) → neg_ℤ (neg_ℤ z) ≡ z
neg-neg (pos zero) = refl
neg-neg (pos (suc n)) = refl
neg-neg (negsuc n) = refl

-- Changing the sign fits 16 bits but for -32768, which stays as it is.
int16-neg : (x : ℕ) → x < 0x8000 → int16 (neg_ℤ (pos x)) ≡ neg_ℤ (pos x)
unfolding signed to_word
int16-neg zero h = refl
int16-neg (suc x) h = int16_self_neg x (omega arith)

quotient-positive :
    (sa : ℤ) (y : ℕ) → to_word (quotient sa (pos (suc y))) ≡ to_word (sa /ℤ pos (suc y))
unfolding quotient
quotient-positive (pos x) y = to_word-int16 (pos (x / suc y))
quotient-positive (negsuc x) y = to_word-int16 (neg_ℤ (pos (suc x / suc y)))

-- Both signs changed, with the divisor -(y + 1).
quotient-neg :
    (x y : ℕ) → to_word (quotient (neg_ℤ (pos x)) (pos (suc y))) ≡ to_word (pos x /ℤ negsuc y)
unfolding quotient signed to_word
quotient-neg zero y = rw zero-div refl
quotient-neg (suc x) y = to_word-int16 (neg_ℤ (pos (suc x / suc y)))

quotient-neg-neg :
    (x y : ℕ) → to_word (quotient (pos (suc x)) (pos (suc y))) ≡ to_word (negsuc x /ℤ negsuc y)
unfolding quotient
quotient-neg-neg x y = to_word-int16 (pos (suc x / suc y))

-- The divisor -32768 stays negative when its sign is changed; the quotient is 0.
small_div : (x : ℕ) → x < 0x8000 → x / 0x8000 ≡ 0
small_div x h = omega arith

quotient_lowest : (x : ℕ) → x < 0x8000 → to_word (quotient (neg_ℤ (pos x)) (negsuc 0x7fff)) ≡ 0
unfolding quotient to_word signed
quotient_lowest zero h = refl
quotient_lowest (suc x) h = rw (small_div (suc x) h)

quotient_lowest_neg : (x : ℕ) → x < 0x8000 → to_word (quotient (pos x) (negsuc 0x7fff)) ≡ 0
unfolding quotient to_word signed
quotient_lowest_neg x h = rw (small_div x h)

-- `int16` of a changed sign.
changed : (x : ℕ) → x < 0x7fff → int16 (neg_ℤ (negsuc x)) ≡ pos (suc x)
changed x h = int16_self (suc x) (omega arith)

-- The quotient for a divisor that is not negative, and for a negative one by the dividend's sign.
by_nonneg : (a y : ℕ) → suc y < 0x8000 → div_word a (suc y) ≡ to_word (signed a /ℤ signed (suc y))
unfolding div_word
by_nonneg a y h = rw (signed_low (suc y) h) (quotient-positive (signed a) y)

nonneg_by_neg :
    (x y : ℕ)
    → x < 0x8000
    → y < 0x8000
    → to_word (quotient (int16 (neg_ℤ (pos x))) (int16 (neg_ℤ (negsuc y))))
      ≡ to_word (pos x /ℤ negsuc y)
unfolding to_word quotient signed
nonneg_by_neg x y hx hy = elim (dec_lt y 0x7fff) [
  | yes p ↦ rw (int16-neg x hx, changed y p) (quotient-neg x y)
  | no p ↦
      let e : y ≡ 0x7fff = omega arith in
      rw (e, int16-neg x hx, quotient_lowest x hx, small_div x hx)
]

neg_by_neg :
    (x y : ℕ)
    → x < 0x7fff
    → y < 0x8000
    → to_word (quotient (int16 (neg_ℤ (negsuc x))) (int16 (neg_ℤ (negsuc y))))
      ≡ to_word (negsuc x /ℤ negsuc y)
unfolding to_word quotient signed
neg_by_neg x y hx hy = elim (dec_lt y 0x7fff) [
  | yes p ↦ rw (changed x hx, changed y p) (quotient-neg-neg x y)
  | no p ↦
      let e : y ≡ 0x7fff = omega arith in
      rw (
        e,
        changed x hx,
        quotient_lowest_neg (suc x) (omega arith),
        small_div (suc x) (omega arith),
      )
]

by_negative :
    (a b : ℕ)
    → a < 0x10000
    → b < 0x10000
    → 0x8000 ≤ b
    → a ≢ 0x8000
    → div_word a b ≡ to_word (signed a /ℤ signed b)
unfolding div_word
by_negative a b ha hb neg ne = elim (dec_lt a 0x8000) [
  | yes p ↦ rw (signed_high b neg, signed_low a p) (nonneg_by_neg a (0xffff - b) p (omega arith))
  | no p ↦
      rw (signed_high b neg, signed_high a (omega arith))
        (neg_by_neg (0xffff - a) (0xffff - b) (omega arith) (omega arith))
]

-- `z_div` stores the quotient of the signed operands, rounded towards zero, for every divisor but 0,
-- where the dividend is not -32768 or the divisor is positive.
pub div_word-truncates :
    (a b : ℕ)
    → a < 0x10000
    → b < 0x10000
    → b ≢ 0
    → (a ≢ 0x8000) ⊎ (b < 0x8000)
    → div_word a b ≡ to_word (signed a /ℤ signed b)
div_word-truncates a zero ha hb nz in_range = absurd (nz refl)
div_word-truncates a (suc y) ha hb nz (inr low) = by_nonneg a y low
div_word-truncates a (suc y) ha hb nz (inl ne) = elim (dec_lt (suc y) 0x8000) [
  | yes p ↦ by_nonneg a y p
  | no p ↦ by_negative a (suc y) ha hb (omega arith) ne
]

int16_lowest : int16 (neg_ℤ (signed 0x8000)) ≡ negsuc 0x7fff
unfolding signed to_word
int16_lowest = refl

signed_lowest : signed 0x8000 ≡ negsuc 0x7fff
unfolding signed
signed_lowest = refl

quotient_of_lowest :
    (y : ℕ)
    → to_word (quotient (negsuc 0x7fff) (pos (suc y))) ≡ to_word (neg_ℤ (negsuc 0x7fff /ℤ negsuc y))
unfolding quotient
quotient_of_lowest y = to_word-int16 (neg_ℤ (pos (0x8000 / suc y)))

-- The dividend -32768 keeps its sign when both signs are changed, so a negative divisor from -2 to
-- -32767 gives the negated quotient.
pub div_word_lowest :
    (b : ℕ)
    → 0x8000 < b
    → b < 0xffff
    → div_word 0x8000 b ≡ to_word (neg_ℤ (signed 0x8000 /ℤ signed b))
unfolding div_word
div_word_lowest b lo hi =
    rw
      (signed_high b (omega arith), changed (0xffff - b) (omega arith), int16_lowest, signed_lowest)
      (quotient_of_lowest (0xffff - b))

-- The divisor of `z_mod` with its sign changed where it is negative; -32768 stays.
remainder-positive :
    (sa : ℤ) (y : ℕ) → to_word (remainder sa (pos (suc y))) ≡ to_word (sa %ℤ pos (suc y))
unfolding remainder
remainder-positive (pos x) y = to_word-int16 (pos (x % suc y))
remainder-positive (negsuc x) y = to_word-int16 (neg_ℤ (pos (suc x % suc y)))

remainder-negative : (sa : ℤ) (y : ℕ) → to_word (remainder sa (negsuc y)) ≡ to_word (sa %ℤ negsuc y)
unfolding remainder
remainder-negative (pos x) y = to_word-int16 (pos (x % suc y))
remainder-negative (negsuc x) y = to_word-int16 (neg_ℤ (pos (suc x % suc y)))

-- The sign of the divisor makes no difference to the remainder.
remainder_sign : (sa : ℤ) (y : ℕ) → sa %ℤ pos (suc y) ≡ sa %ℤ negsuc y
remainder_sign (pos x) y = refl
remainder_sign (negsuc x) y = refl

remainder_by_neg :
    (sa : ℤ) (y : ℕ)
    → y < 0x8000
    → to_word (remainder sa (int16 (neg_ℤ (negsuc y)))) ≡ to_word (sa %ℤ negsuc y)
unfolding signed to_word
remainder_by_neg sa y h = elim (dec_lt y 0x7fff) [
  | yes p ↦ rw (changed y p) (remainder-positive sa y ∙ ap to_word (remainder_sign sa y))
  | no p ↦ let e : y ≡ 0x7fff = omega arith in rw e (remainder-negative sa 0x7fff)
]

-- `z_mod` stores the remainder that goes with the quotient rounded towards zero, for every divisor
-- but 0.
pub mod_word-truncates :
    (a b : ℕ) → a < 0x10000 → b < 0x10000 → b ≢ 0 → mod_word a b ≡ to_word (signed a %ℤ signed b)
unfolding mod_word
mod_word-truncates a zero ha hb nz = absurd (nz refl)
mod_word-truncates a (suc y) ha hb nz = elim (dec_lt (suc y) 0x8000) [
  | yes p ↦ rw (signed_low (suc y) p) (remainder-positive (signed a) y)
  | no p ↦
      rw (signed_high (suc y) (omega arith))
        (remainder_by_neg (signed a) (0xffff - suc y) (omega arith))
]

-- For every divisor but 0, `z_div` stores the quotient of the signed operands rounded towards zero
-- and reports nothing, where the dividend is not -32768 or the divisor is positive.
pub z_div-truncates :
    (a b : ℕ) (m : Machine)
    → a < 0x10000
    → b < 0x10000
    → b ≢ 0
    → (a ≢ 0x8000) ⊎ (b < 0x8000)
    → z_div a b m ≡ store_operand (to_word (signed a /ℤ signed b)) m
unfolding z_div
z_div-truncates a b m ha hb nz in_range =
    rw (ne→not_== b 0 nz, div_word-truncates a b ha hb nz in_range)

-- The dividend -32768 with a divisor from -32767 to -2: `z_div` stores the quotient with the wrong
-- sign.
pub z_div_lowest :
    (b : ℕ) (m : Machine)
    → 0x8000 < b
    → b < 0xffff
    → z_div 0x8000 b m ≡ store_operand (to_word (neg_ℤ (signed 0x8000 /ℤ signed b))) m
unfolding z_div
z_div_lowest b m lo hi = rw (ne→not_== b 0 (omega arith), div_word_lowest b lo hi)

-- For every divisor but 0, `z_mod` stores the remainder of the signed operands, which has the sign
-- of the dividend, and reports nothing.
pub z_mod-truncates :
    (a b : ℕ) (m : Machine)
    → a < 0x10000
    → b < 0x10000
    → b ≢ 0
    → z_mod a b m ≡ store_operand (to_word (signed a %ℤ signed b)) m
unfolding z_mod
z_mod-truncates a b m ha hb nz = rw (ne→not_== b 0 nz, mod_word-truncates a b ha hb nz)
