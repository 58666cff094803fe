-- ===== src/Prelude/Int.antt =====
-- Signed integers over the native numbers, the 16-bit patterns (`zword_t`) that stand for them
-- (`ZINT16`), and C's truncating division.
use Prim.Native.Nat.{ℕ, zero, suc, ◌+◌, ◌-◌, ◌*◌, ◌/◌, ◌%◌, ◌≤◌, ◌<◌}
use mathlib.Core.Path.{◌≡◌}
use mathlib.Core.Bool.{Bool}
use native.Mathlib.Omega.{arith}
use jzip.Prelude.Tests.{ltb, leb, if◌then◌else◌}

-- `negsuc n` is -(n + 1).
pub data ℤ : Type 0 where
  pos : ℕ → ℤ
  negsuc : ℕ → ℤ

abbrev pub pos_part : ℤ → ℕ
pos_part (pos n) = n
pos_part (negsuc n) = 0

abbrev pub neg_part : ℤ → ℕ
neg_part (pos n) = 0
neg_part (negsuc n) = suc n

-- a - b, as an integer.
abbrev pub sub_ℕ : ℕ → ℕ → ℤ
sub_ℕ a b = if leb b a then pos (a - b) else negsuc (b - a - 1)

infixl 65 ◌+ℤ◌ ◌-ℤ◌
infixl 70 ◌*ℤ◌ ◌/ℤ◌ ◌%ℤ◌
infix 50 ◌<ℤ◌
abbrev pub ◌+ℤ◌ : ℤ → ℤ → ℤ
a +ℤ b = sub_ℕ (pos_part a + pos_part b) (neg_part a + neg_part b)

abbrev pub ◌-ℤ◌ : ℤ → ℤ → ℤ
a -ℤ b = sub_ℕ (pos_part a + neg_part b) (neg_part a + pos_part b)

abbrev pub neg_ℤ : ℤ → ℤ
neg_ℤ (pos zero) = pos 0
neg_ℤ (pos (suc n)) = negsuc n
neg_ℤ (negsuc n) = pos (suc n)

abbrev pub ◌*ℤ◌ : ℤ → ℤ → ℤ
a *ℤ b =
    sub_ℕ (pos_part a * pos_part b + neg_part a * neg_part b)
      (pos_part a * neg_part b + neg_part a * pos_part b)

abbrev pub ltb_ℤ : ℤ → ℤ → Bool
ltb_ℤ a b = ltb (pos_part a + neg_part b) (pos_part b + neg_part a)

abbrev pub ◌<ℤ◌ : ℤ → ℤ → Type 0
a <ℤ b = pos_part a + neg_part b < pos_part b + neg_part a

-- C's `/` and `%`: the quotient is rounded towards zero, the remainder has the dividend's sign.
abbrev pub ◌/ℤ◌ : ℤ → ℤ → ℤ
pos a /ℤ pos b = pos (a / b)
pos a /ℤ negsuc b = neg_ℤ (pos (a / suc b))
negsuc a /ℤ pos b = neg_ℤ (pos (suc a / b))
negsuc a /ℤ negsuc b = pos (suc a / suc b)

abbrev pub ◌%ℤ◌ : ℤ → ℤ → ℤ
pos a %ℤ pos b = pos (a % b)
pos a %ℤ negsuc b = pos (a % suc b)
negsuc a %ℤ pos b = neg_ℤ (pos (suc a % b))
negsuc a %ℤ negsuc b = neg_ℤ (pos (suc a % suc b))

-- `(zword_t) i`.
unfoldable pub to_word : ℤ → ℕ
to_word (pos n) = n % 0x10000
to_word (negsuc n) = 0xffff - n % 0x10000

-- `(ZINT16) w` of a word.
unfoldable pub signed : ℕ → ℤ
signed w = if ltb w 0x8000 then pos w else negsuc (0xffff - w)

-- `(ZINT16) i` of an `int`: the value wraps.
abbrev pub int16 : ℤ → ℤ
int16 i = signed (to_word i)

pub to_word-lt : (i : ℤ) → to_word i < 0x10000
unfolding to_word
to_word-lt (pos n) = omega arith
to_word-lt (negsuc n) = omega arith

pub to_word-signed : (w : ℕ) → w < 0x10000 → to_word (signed w) ≡ w
unfolding to_word signed
to_word-signed w h = ground arith

pub to_word-int16 : (i : ℤ) → to_word (int16 i) ≡ to_word i
to_word-int16 i = to_word-signed (to_word i) (to_word-lt i)

pub int16_self : (n : ℕ) → n < 0x8000 → int16 (pos n) ≡ pos n
unfolding to_word signed
int16_self n h = ground arith

pub int16_self_neg : (n : ℕ) → n < 0x8000 → int16 (negsuc n) ≡ negsuc n
unfolding to_word signed
int16_self_neg n h = ground arith

-- The two halves of the words: `signed` is the value itself, or the value less 2^16.
pub signed_low : (w : ℕ) → w < 0x8000 → signed w ≡ pos w
unfolding signed
signed_low w h = ground arith

pub signed_high : (w : ℕ) → 0x8000 ≤ w → signed w ≡ negsuc (0xffff - w)
unfolding signed
signed_high w h = ground arith
