-- ===== src/Math.antt =====
-- math.c: arithmetic, comparison and logic on 16-bit words. The signed operations go through the
-- integers that the words stand for (`ZINT16`, Prelude/Int.antt).
pub mod Divide
pub mod Compare
use jzip.Prelude.{
  ℕ, zero, suc, ◌+◌, ◌-◌, ◌*◌, ◌/◌, ◌%◌, ◌^◌, bit_and, bit_or, Bool, true, false, List, [], ◌∷◌,
  ltb, leb, ◌==◌, if◌then◌else◌, ◌||◌,
}
use jzip.Prelude.Int.{ℤ, pos, negsuc, ◌*ℤ◌, ◌/ℤ◌, ◌%ℤ◌, neg_ℤ, ltb_ℤ, to_word, signed, int16}
use jzip.Machine.{M, fault, pure, ◌>>=◌, ◌>>◌, when, report_strictz_error}
use jzip.Operand.{load_variable, z_store, store_operand}
use jzip.Branch.{conditional_jump}

pub z_add : ℕ → ℕ → M (Unit {0})
z_add a b = store_operand ((a + b) % 0x10000)

pub z_sub : ℕ → ℕ → M (Unit {0})
z_sub a b = store_operand ((a + 0x10000 - b) % 0x10000)

-- The product of two `ZINT16` fits an `int`.
pub z_mul : ℕ → ℕ → M (Unit {0})
z_mul a b = store_operand (to_word (signed a *ℤ signed b))

abbrev is_zero : ℤ → Bool
is_zero (pos zero) = true
is_zero _ = false

abbrev is_negative : ℤ → Bool
is_negative (pos n) = false
is_negative (negsuc n) = true

-- What `z_div` stores, for `sa` and `sb` after the change of signs. Each assignment to a `ZINT16`
-- cuts the value to 16 bits.
unfoldable pub quotient : ℤ → ℤ → ℤ
quotient sa sb =
    if is_zero sb
    then pos 32767
    else if is_negative sa
    then int16 (neg_ℤ (neg_ℤ sa /ℤ sb))
    else int16 (sa /ℤ sb)

-- The word that `z_div` stores: both signs change when the divisor is negative.
unfoldable pub div_word : ℕ → ℕ → ℕ
unfolding quotient
div_word a b = to_word (
    if is_negative (signed b)
    then quotient (int16 (neg_ℤ (signed a))) (int16 (neg_ℤ (signed b)))
    else quotient (signed a) (signed b))

abbrev strzerr_div_zero : ℕ
strzerr_div_zero = 15

unfoldable pub z_div : ℕ → ℕ → M (Unit {0})
z_div a b = do when (b == 0) (report_strictz_error strzerr_div_zero); store_operand (div_word a b)

-- What `z_mod` stores, for `sb` after the change of sign.
unfoldable pub remainder : ℤ → ℤ → ℤ
remainder sa sb = if is_negative sa then int16 (neg_ℤ (neg_ℤ sa %ℤ sb)) else int16 (sa %ℤ sb)

-- The word that `z_mod` stores for a divisor that is not 0.
unfoldable pub mod_word : ℕ → ℕ → ℕ
unfolding remainder
mod_word a b = to_word (
    if is_negative (signed b)
    then remainder (signed a) (int16 (neg_ℤ (signed b)))
    else remainder (signed a) (signed b))

-- After the report the code goes on to `sa % sb` with the divisor 0, which C leaves undefined.
unfoldable pub z_mod : ℕ → ℕ → M (Unit {0})
z_mod a b = do
  when (b == 0) (report_strictz_error strzerr_div_zero)
  (if b == 0 then (λ _. fault) else store_operand (mod_word a b))

-- `a << n` and `a >> n` of an `int`: a count from 32 on is undefined.
unfoldable pub shift_left : ℤ → ℕ → ℤ
shift_left a n = a *ℤ pos (2 ^ n)

-- An arithmetic shift: towards minus infinity.
unfoldable pub shift_right : ℤ → ℕ → ℤ
shift_right (pos a) n = pos (a / 2 ^ n)
shift_right (negsuc a) n = negsuc (a / 2 ^ n)

-- Shift a value by a signed word count: to the left where it is positive.
unfoldable pub shift_by : ℤ → ℤ → M (Unit {0})
unfolding shift_left shift_right
shift_by a (pos n) = if ltb n 32 then store_operand (to_word (shift_left a n)) else λ _. fault
shift_by a (negsuc n) =
    if ltb (suc n) 32 then store_operand (to_word (shift_right a (suc n))) else λ _. fault

pub z_log_shift : ℕ → ℕ → M (Unit {0})
z_log_shift a b = shift_by (pos a) (signed b)

pub z_art_shift : ℕ → ℕ → M (Unit {0})
z_art_shift a b = shift_by (signed a) (signed b)

pub z_or : ℕ → ℕ → M (Unit {0})
z_or a b = store_operand (bit_or a b)

pub z_not : ℕ → M (Unit {0})
z_not a = store_operand (0xffff - a)

pub z_and : ℕ → ℕ → M (Unit {0})
z_and a b = store_operand (bit_and a b)

-- `random` is the C library's generator: its next value. Seeding it leaves the machine alone.
pub z_random : ℕ → ℕ → M (Unit {0})
z_random random a =
    if a == 0
    then store_operand 0
    else if bit_and a 0x8000 == 0
    then store_operand ((random % a + 1) % 0x10000)
    else store_operand 0

unfoldable pub z_test : ℕ → ℕ → M (Unit {0})
z_test a b = conditional_jump (bit_and (0xffff - a) b == 0)

pub z_jz : ℕ → M (Unit {0})
z_jz a = conditional_jump (a == 0)

-- The loop of `z_je` over the operands behind the first.
unfoldable pub any_equal : ℕ → List ℕ → Bool
any_equal a [] = false
any_equal a (b ∷ rest) = a == b || any_equal a rest

-- No operand at all leaves `operand[0]` unread: the loop makes no round.
unfoldable pub z_je : List ℕ → M (Unit {0})
unfolding any_equal
z_je [] = conditional_jump false
z_je (a ∷ rest) = conditional_jump (any_equal a rest)

unfoldable pub z_jl : ℕ → ℕ → M (Unit {0})
z_jl a b = conditional_jump (ltb_ℤ (signed a) (signed b))

unfoldable pub z_jg : ℕ → ℕ → M (Unit {0})
z_jg a b = conditional_jump (ltb_ℤ (signed b) (signed a))

-- `z_inc_chk` and `z_dec_chk` of variable.c: the new value, cut to 16 bits, is stored and compared.
unfoldable pub z_inc_chk : ℕ → ℕ → M (Unit {0})
z_inc_chk variable target = do
  old ← load_variable variable
  let value = (old + 1) % 0x10000
  z_store variable value
  conditional_jump (ltb_ℤ (signed target) (signed value))

unfoldable pub z_dec_chk : ℕ → ℕ → M (Unit {0})
z_dec_chk variable target = do
  old ← load_variable variable
  let value = (old + 0xffff) % 0x10000
  z_store variable value
  conditional_jump (ltb_ℤ (signed value) (signed target))
