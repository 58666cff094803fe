-- ===== src/Quetzal/Overflow.antt =====
-- The dummy frame of a saved game that has more words than the stack.
use jzip.Prelude.{
  ℕ, zero, suc, ◌+◌, ◌-◌, ◌*◌, ◌<◌, ◌≤◌, ◌≡◌, ◌≢◌, refl, arith, true, false, ltb, ◌==◌, Bool-cases,
  inl, inr, Option, List, [], ◌∷◌, ◌++◌, length, ne→not_==, le→not_ltb,
}
use jzip.Machine.{Machine, M, fault, stack_size, push, stack_set}
use jzip.Quetzal.Stacks.{try, read_word, read_cells}
use jzip.Quetzal.Save.{write_word}
use jzip.Quetzal.Restore.{Progress, read_zeros, restore_dummy, restore_stacks}
use jzip.Quetzal.Words.{read_word-write_word}

read_cells-overflow :
    {A : Type 0} (k : ℕ) (bytes : List ℕ) (next : List ℕ → M (Option A)) (m : Machine)
    → m.sp < k
    → m.sp ≤ stack_size
    → k * 2 ≤ length bytes
    → read_cells k bytes next m ≡ fault
unfolding read_cells read_word try push stack_set
read_cells-overflow zero bytes next m few high enough = absurd (omega (arith, few))
read_cells-overflow (suc k) [] next m few high enough = absurd (omega (arith, enough))
read_cells-overflow (suc k) (a ∷ []) next m few high enough = absurd (omega (arith, enough))
read_cells-overflow (suc k) (a ∷ b ∷ rest) next m few high enough = elim (Bool-cases (m.sp == 0)) [
  | inl full ↦ rw full refl
  | inr room ↦
      let inside : ltb (m.sp - 1) stack_size ≡ true = ground arith in
      rw (room, inside)
        (read_cells-overflow k rest next _ (ground arith) (omega (arith, high))
          (omega (arith, enough)))
]

-- A stack chunk whose dummy frame has more words than the 1024 of the stack is not refused: where the chunk and
-- the file have as many, `restore_quetzal` writes below the stack.
pub restore_stacks-overflow :
    (progress : Progress) (currlen tmpw : ℕ) (bytes : List ℕ) (n : Machine)
    → progress.got_stack ≡ false
    → n.h_type ≢ 6
    → stack_size < tmpw
    → tmpw < 0x10000
    → tmpw * 2 + 8 ≤ currlen
    → tmpw * 2 ≤ length bytes
    → restore_stacks progress currlen (0 ∷ 0 ∷ 0 ∷ 0 ∷ 0 ∷ 0 ∷ (write_word tmpw ++ bytes)) n ≡ fault
unfolding restore_stacks restore_dummy read_zeros
restore_stacks-overflow progress currlen tmpw bytes n first type many small long enough =
    let size : ltb currlen 8 ≡ false = le→not_ltb currlen 8 (omega (arith, long)) in
    let fits : ltb (currlen - 8) (tmpw * 2) ≡ false =
      le→not_ltb (currlen - 8) (tmpw * 2) (omega (arith, long)) in
    rw (first, ne→not_== n.h_type 6 type, size, read_word-write_word tmpw bytes small, fits)
      (read_cells-overflow tmpw bytes _ (record n { sp = stack_size }) many (omega arith) enough)
