-- ===== src/Branch/Laws.antt =====
-- The branch after a test against a reading of its bytes in plain arithmetic.
use jzip.Prelude.{
  ℕ, zero, suc, ◌+◌, ◌-◌, ◌*◌, ◌%◌, ◌^◌, ◌<◌, ◌≤◌, ◌≡◌, ◌∙◌, ap, refl, arith, ltb, leb, ◌==◌,
  if◌then◌else◌, Bool, true, false, not, ◌||◌, bit_and, bit_or, le→not_ltb, lt→ltb,
}
use jzip.Prelude.Bits.{bit_and_bit, bit_and_low, bit_or_comm, bit_or_fields}
use native.Mathlib.Decide.{dec_lt}
use jzip.Prelude.Int.{ℤ, pos, negsuc, ◌+ℤ◌, ◌-ℤ◌, pos_part, neg_part}
use jzip.Machine.{Machine, M, Run, ok, pure, and_then, read_code_byte-ok}
use jzip.Return.{z_ret}
use jzip.Branch.{jump_by, branch_offset, conditional_jump}

-- What the branch bytes `s` and `low` ask for.
pub record Branch : Type 0 where
  pub on_true : Bool
  pub size : ℕ
  pub offset : ℤ

-- Bit 7 is the sense of the test; with bit 6 the offset is the other six bits, and without it they
-- are the upper bits of a 14-bit two's complement number.
unfoldable pub read_branch : ℕ → ℕ → Branch
read_branch s low =
    let wide = s % 64 * 256 + low in
    record {
      on_true = leb 128 s;
      size = if ltb (s % 128) 64 then 2 else 1;
      offset =
          if ltb (s % 128) 64
          then (if ltb wide 0x2000 then pos wide else negsuc (0x3fff - wide))
          else pos (s % 64);
    }

-- Carry out a branch that is taken: offsets 0 and 1 return, others are relative to the byte that
-- stands two before the next instruction.
unfoldable pub take_branch : ℤ → M (Unit {0})
take_branch (pos zero) m = z_ret 0 m
take_branch (pos (suc zero)) m = z_ret 1 m
take_branch offset m = ok tt (record m { pc = pos_part (pos m.pc +ℤ offset -ℤ pos 2) })

bit_seven : (s : ℕ) → s < 256 → (bit_and s 0x80 == 0) ≡ ltb s 128
bit_seven s h = ground (arith, bit_and_bit 7 s)

bit_six : (s : ℕ) → (bit_and s 0x40 == 0) ≡ ltb (s % 128) 64
bit_six s = ground (arith, bit_and_bit 6 s)

bit_thirteen : (x : ℕ) → x < 0x4000 → (bit_and x 0x2000 == 0) ≡ ltb x 0x2000
bit_thirteen x h = ground (arith, bit_and_bit 13 x)

sign_extend : (x : ℕ) → x < 0x4000 → bit_or x 0xc000 ≡ x + 0xc000
sign_extend x h = omega (arith, bit_or_comm x 0xc000, bit_or_fields 14 3 x h)

-- `pc` moved by a word is `pc` moved by the offset that the word stands for.
abbrev at : ℕ → Machine → Run (Unit {0})
at p m = ok tt (record m { pc = p })

jump_by-forward :
    (n : ℕ) (m : Machine)
    → suc (suc n) < 0x8000
    → m.pc < 2 ^ 63
    → jump_by (suc (suc n)) m ≡ take_branch (pos (suc (suc n))) m
unfolding jump_by take_branch
jump_by-forward n m h fits = ap (λ p. at p m) (ground arith)

jump_by-backward :
    (k w : ℕ) (m : Machine)
    → k < 0x2000
    → w ≡ 0xffff - k
    → k + 3 ≤ m.pc
    → m.pc < 2 ^ 63
    → jump_by w m ≡ take_branch (negsuc k) m
unfolding jump_by take_branch
jump_by-backward k w m h e low fits = ap (λ p. at p m) (ground arith)

-- The two last steps of `conditional_jump`: return or jump.
finish : ℕ → M (Unit {0})
finish offset = if offset == 0 || offset == 1 then z_ret offset else jump_by offset

finish-forward :
    (n : ℕ) (m : Machine) → n < 0x8000 → m.pc < 2 ^ 63 → finish n m ≡ take_branch (pos n) m
unfolding finish take_branch
finish-forward zero m h fits = refl
finish-forward (suc zero) m h fits = refl
finish-forward (suc (suc n)) m h fits =
    let far : (suc (suc n) == 0 || suc (suc n) == 1) ≡ false = ground arith in
    rw far (jump_by-forward n m h fits)

finish-backward :
    (k w : ℕ) (m : Machine)
    → k < 0x2000
    → w ≡ 0xffff - k
    → k + 3 ≤ m.pc
    → m.pc < 2 ^ 63
    → finish w m ≡ take_branch (negsuc k) m
unfolding finish
finish-backward k w m h e low fits =
    let far : (w == 0 || w == 1) ≡ false = ground arith in
    rw far (jump_by-backward k w m h e low fits)

-- The offset word of the wide form, and what becomes of it.
wide_word : ℕ → ℕ
wide_word wide = if ltb wide 0x2000 then wide else wide + 0xc000

abbrev pub advance : ℕ → Machine → Machine
advance n m = record m { pc = m.pc + n }

branch_offset-short : (s : ℕ) (m : Machine) → 64 ≤ s % 128 → branch_offset s m ≡ ok (s % 64) m
unfolding branch_offset
branch_offset-short s m h = rw (bit_six s, le→not_ltb (s % 128) 64 h, bit_and_low 6 s)

branch_offset-wide :
    (s : ℕ) (m : Machine)
    → s % 128 < 64
    → 512 ≤ m.pc
    → m.story m.pc < 256
    → branch_offset s m ≡ ok (wide_word (s % 64 * 256 + m.story m.pc)) (advance 1 m)
unfolding branch_offset wide_word
branch_offset-wide s m h far byte =
    let x = s % 64 * 256 + m.story m.pc in
    let fits : x < 0x4000 = omega arith in
    let e : (s % 64 * 256 + m.story m.pc) % 0x10000 ≡ x = omega arith in
    rw (
      bit_six s,
      lt→ltb (s % 128) 64 h,
      read_code_byte-ok m far,
      bit_and_low 6 s,
      e,
      bit_thirteen x fits,
      sign_extend x fits,
    )

finish-wide :
    (s low : ℕ) (m : Machine)
    → s % 128 < 64
    → low < 256
    → neg_part (read_branch s low).offset + 2 ≤ m.pc
    → m.pc < 2 ^ 63
    → finish (wide_word (s % 64 * 256 + low)) m ≡ take_branch (read_branch s low).offset m
unfolding read_branch wide_word
finish-wide s low m h byte room fits =
    let wide = s % 64 * 256 + low in
    elim (dec_lt wide 0x2000) [
      | yes p ↦
          rw (lt→ltb (s % 128) 64 h, lt→ltb wide 0x2000 p)
            (finish-forward wide m (omega arith) fits)
      | no p ↦
          let high = le→not_ltb wide 0x2000 (omega arith) in
          let room' = rw (lt→ltb (s % 128) 64 h, high) at room in
          rw (lt→ltb (s % 128) 64 h, high)
            (finish-backward (0x3fff - wide) (wide + 0xc000) m (omega arith) (omega arith)
              (omega (arith, room')) fits)
    ]

size-wide : (s low : ℕ) → s % 128 < 64 → (read_branch s low).size ≡ 2
unfolding read_branch
size-wide s low h = ground arith

size-short : (s low : ℕ) → 64 ≤ s % 128 → (read_branch s low).size ≡ 1
unfolding read_branch
size-short s low h = ground arith

offset-short : (s low : ℕ) → 64 ≤ s % 128 → (read_branch s low).offset ≡ pos (s % 64)
unfolding read_branch
offset-short s low h = rw (le→not_ltb (s % 128) 64 h)

-- Whether the branch is taken.
abbrev pub taken : Bool → ℕ → Bool
taken flag s = if leb 128 s then flag else not flag

sense :
    (flag : Bool) (s : ℕ)
    → s < 256
    → (if bit_and s 0x80 == 0 then flag else not flag) ≡ not (taken flag s)
sense flag s h = rw (bit_seven s h) (ground arith)

after_offset : Bool → ℕ → M (Unit {0})
after_offset flag' offset = if flag' then pure tt else finish offset

-- The last step, by the sense of the test.
after_offset-taken :
    (t : Bool) (w : ℕ) (o : ℤ) (m : Machine)
    → finish w m ≡ take_branch o m
    → after_offset (not t) w m ≡ (if t then take_branch o m else ok tt m)
unfolding after_offset
after_offset-taken true w o m e = e
after_offset-taken false w o m e = refl

conditional_jump-steps :
    (flag : Bool) (m : Machine)
    → 512 ≤ m.pc
    → m.story m.pc < 256
    → conditional_jump flag m
      ≡ and_then
          (branch_offset (m.story m.pc) (advance 1 m))
          (after_offset (not (taken flag (m.story m.pc))))
unfolding conditional_jump after_offset finish
conditional_jump-steps flag m code byte =
    rw (read_code_byte-ok m code, sense flag (m.story m.pc) byte)

-- The branch of a test, by its bytes at `pc`: the program goes on behind them where the test's flag
-- differs from the branch's sense, and takes the branch where it agrees. The bytes lie in the code,
-- and the target is not below address 0.
pub conditional_jump-take_branch :
    (flag : Bool) (m : Machine)
    → 512 ≤ m.pc
    → m.pc < 2 ^ 62
    → m.story m.pc < 256
    → m.story (m.pc + 1) < 256
    → neg_part (read_branch (m.story m.pc) (m.story (m.pc + 1))).offset ≤ m.pc
    → let b = read_branch (m.story m.pc) (m.story (m.pc + 1)) in
      conditional_jump flag m ≡ (
        if taken flag (m.story m.pc)
        then take_branch b.offset (advance b.size m)
        else ok tt (advance b.size m))
conditional_jump-take_branch flag m code fits byte byte' room =
    let s = m.story m.pc in
    let low = m.story (m.pc + 1) in
    conditional_jump-steps flag m code byte ∙ elim (dec_lt (s % 128) 64) [
      | yes far ↦
          let two : m.pc + 1 + 1 ≡ m.pc + 2 = omega arith in
          rw (branch_offset-wide s (advance 1 m) far (omega arith) byte', two, size-wide s low far)
            (after_offset-taken (taken flag s) (wide_word (s % 64 * 256 + low))
              (read_branch s low).offset (advance 2 m)
              (finish-wide s low (advance 2 m) far byte' (omega (arith, room)) (omega arith)))
      | no near ↦
          let short : 64 ≤ s % 128 = omega arith in
          rw
            (
              branch_offset-short s (advance 1 m) short,
              size-short s low short,
              offset-short s low short,
            )
            (after_offset-taken (taken flag s) (s % 64) (pos (s % 64)) (advance 1 m)
              (finish-forward (s % 64) (advance 1 m) (omega arith) (omega arith)))
    ]
