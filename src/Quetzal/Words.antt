-- ===== src/Quetzal/Words.antt =====
-- Words and long words of a saved game, written and read.
use jzip.Prelude.{
  ℕ, zero, suc, ◌+◌, ◌-◌, ◌*◌, ◌/◌, ◌%◌, ◌<◌, ◌≤◌, ◌≡◌, ◌∙◌, refl, sym, ap, arith, ◌==◌, Bool-cases,
  Option, some, List, [], ◌++◌, length, inl, inr, ==→eq, append_assoc,
}
use jzip.Machine.{Machine, M, ok, and_then, ◌>>=◌, stack_size, stack_get-ok, push, push-ok, update}
use jzip.Quetzal.Stacks.{read_word, read_long, read_cells}
use jzip.Quetzal.Save.{write_word, write_long, write_cells}

pub read_word-write_word :
    (w : ℕ) (rest : List ℕ) → w < 0x10000 → read_word (write_word w ++ rest) ≡ some (w, rest)
unfolding read_word write_word
read_word-write_word w rest h =
    let e : w / 0x100 % 0x100 * 0x100 + w % 0x100 ≡ w = omega arith in ap (λ x. some (x, rest)) e

pub read_long-write_long :
    (l : ℕ) (rest : List ℕ) → l < 0x100000000 → read_long (write_long l ++ rest) ≡ some (l, rest)
unfolding read_long write_long
read_long-write_long l rest h =
    let e : l / 0x1000000 % 0x100 * 0x1000000
          + l / 0x10000 % 0x100 * 0x10000
          + l / 0x100 % 0x100 * 0x100
          + l % 0x100
        ≡ l =
      omega arith in
    ap (λ x. some (x, rest)) e

-- The words of `n` cells from `top` downwards.
pub cells_of : ℕ → ℕ → (ℕ → ℕ) → List ℕ
cells_of zero top stack = []
cells_of (suc n) top stack = write_word (stack top) ++ cells_of n (top - 1) stack

pub length-cells_of : (n top : ℕ) (stack : ℕ → ℕ) → length (cells_of n top stack) ≡ 2 * n
unfolding cells_of write_word
length-cells_of zero top stack = refl
length-cells_of (suc n) top stack = omega (arith, length-cells_of n (top - 1) stack)

pub write_cells-ok :
    (n top : ℕ) (m : Machine)
    → n ≤ top
    → top < stack_size
    → write_cells n top m ≡ ok (cells_of n top m.stack) m
unfolding write_cells cells_of
write_cells-ok zero top m low high = refl
write_cells-ok (suc n) top m low high =
    let down : (top + 0xffff) % 0x10000 ≡ top - 1 = omega arith in
    rw (stack_get-ok top m high, down, write_cells-ok n (top - 1) m (omega arith) (omega arith))
      refl

-- A machine that has the stack of `m` from `low` on, whose memory reads as that of `m`, with its program
-- counter and `count` frames.
pub record Restores (count : ℕ) (m : Machine) (low : ℕ) (n : Machine) : Type 0 where
  pub sp_is : n.sp ≡ low
  pub cells_are : (i : ℕ) → low ≤ i → i < stack_size → n.stack i ≡ m.stack i
  pub data_size_is : n.data_size ≡ m.data_size
  pub datap_is : (a : ℕ) → a < m.data_size → n.datap a ≡ m.datap a
  pub story_is : n.story ≡ m.story
  pub count_is : n.frame_count ≡ count
  pub pc_is : n.pc ≡ m.pc

-- A machine of the same story, with the memory and the program counter of `m`.
pub record SameMemory (m n : Machine) : Type 0 where
  pub type_is : n.h_type ≡ m.h_type
  pub data_size_is : n.data_size ≡ m.data_size
  pub datap_is : (a : ℕ) → a < m.data_size → n.datap a ≡ m.datap a
  pub story_is : n.story ≡ m.story
  pub pc_is : n.pc ≡ m.pc

pub push-Restores :
    {count : ℕ} (v low : ℕ) (m n : Machine)
    → Restores count m (suc low) n
    → low < stack_size
    → v ≡ m.stack low
    → v < 0x10000
    → (n' : Machine) × Restores count m low n' × (push v n ≡ ok tt n') × (n'.fp ≡ n.fp)
push-Restores v low m n r high e small =
    let e' : n.sp - 1 ≡ low = omega (arith, r.sp_is) in
    let at_top : (i : ℕ)
        → low ≤ i
        → i < stack_size
        → update n.stack (n.sp - 1) (v % 0x10000) i ≡ m.stack i =
      λ i above inside. elim (Bool-cases (i == n.sp - 1)) [
        | inl top ↦
            let same : i ≡ low = ==→eq i (n.sp - 1) top ∙ e' in
            rw top (omega (arith, e, small) ∙ ap m.stack (sym same))
        | inr below ↦ rw below (r.cells_are i (ground arith) inside)
      ] in
    (
      record n { sp = n.sp - 1; stack = update n.stack (n.sp - 1) (v % 0x10000) },
      record {
        sp_is = e';
        cells_are = λ i above inside. at_top i above inside;
        data_size_is = r.data_size_is;
        datap_is = r.datap_is;
        story_is = r.story_is;
        count_is = r.count_is;
        pc_is = r.pc_is;
      },
      push-ok v n (omega (arith, r.sp_is)) (omega (arith, r.sp_is)),
      refl,
    )

-- The same number, where the stack pointer is.
pub at_same :
    {count : ℕ} (low low' : ℕ) (m n : Machine)
    → low ≡ low'
    → Restores count m low n
    → Restores count m low' n
at_same low low' m n e r = record {
  sp_is = r.sp_is ∙ e;
  cells_are = λ i above inside. r.cells_are i (omega (arith, e, above)) inside;
  data_size_is = r.data_size_is;
  datap_is = r.datap_is;
  story_is = r.story_is;
  count_is = r.count_is;
  pc_is = r.pc_is;
}

-- What follows a run that ends.
pub after-ok :
    {A B : Type 0} (c : M A) (next : A → M B) (m : Machine) (a : A) (n : Machine)
    → c m ≡ ok a n
    → (c >>= next) m ≡ next a n
after-ok c next m a n e = ap (λ r. and_then r next) e

pub read_cells-cells_of :
    {A : Type 0} {count : ℕ} (n low top : ℕ) (rest : List ℕ) (next : List ℕ → M (Option A))
    (m k : Machine)
    → ((i : ℕ) → m.stack i < 0x10000)
    → low + n ≡ top + 1
    → 0 < low
    → top < stack_size
    → Restores count m (top + 1) k
    → (k' : Machine) × Restores count m low k'
      × (k'.fp ≡ k.fp)
      × (read_cells n (cells_of n top m.stack ++ rest) next k ≡ next rest k')
unfolding read_cells cells_of
read_cells-cells_of zero low top rest next m k words e pos high r =
    (k, at_same (top + 1) low m k (omega (arith, e)) r, refl, refl)
read_cells-cells_of (suc n) low top rest next m k words e pos high r =
    let (k1, r1, pushed, f1) =
      push-Restores (m.stack top) top m k (at_same (top + 1) (suc top) m k (omega arith) r) high
        refl (words top) in
    let (k2, r2, f2, runs) =
      read_cells-cells_of n low (top - 1) rest next m k1 words (omega arith) pos (omega arith)
        (at_same top (top - 1 + 1) m k1 (omega arith) r1) in
    (
      k2,
      r2,
      f2 ∙ f1,
      rw
          (
            append_assoc (write_word (m.stack top)) (cells_of n (top - 1) m.stack) rest,
            read_word-write_word (m.stack top) (cells_of n (top - 1) m.stack ++ rest) (words top),
          )
          (after-ok (push (m.stack top))
              (λ _. read_cells n (cells_of n (top - 1) m.stack ++ rest) next) k tt k1 pushed
            ∙ runs),
    )
