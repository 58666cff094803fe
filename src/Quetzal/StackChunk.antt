-- ===== src/Quetzal/StackChunk.antt =====
-- The stack chunk that `save_quetzal` writes: the dummy frame and the frames.
use jzip.Prelude.{
  ℕ, ◌+◌, ◌-◌, ◌*◌, ◌%◌, ◌<◌, ◌≤◌, ◌≡◌, refl, arith, ◌==◌, if◌then◌else◌, Bool-cases, inl, inr,
  some, List, [], ◌∷◌, ◌++◌, length, length-append,
}
use jzip.Machine.{Machine, ok, stack_size, page_size}
use jzip.Quetzal.Save.{write_word, both, write_dummy, write_stacks}
use jzip.Quetzal.Words.{cells_of, length-cells_of, write_cells-ok}
use jzip.Quetzal.CallStack.{
  CallStack, bottom, chunk_of, find_frames-ok, bottom-inside, oldest-bottom, write_frames-ok,
  length-chunk_of,
}

-- The dummy frame's bytes, none in version 6.
abbrev dummy_of : Machine → ℕ → List ℕ
dummy_of m low =
    if m.h_type == 6
    then []
    else 0
      ∷ 0
      ∷ 0
      ∷ 0
      ∷ 0
      ∷ 0
      ∷ (write_word (stack_size - low) ++ cells_of (stack_size - low) (stack_size - 1) m.stack)

-- A machine with its calls on the stack: at most 256, and in version 6 nothing below the first.
pub record HasCalls (m : Machine) (frames : List ℕ) : Type 0 where
  pub calls : CallStack m m.sp m.fp frames
  pub few : length frames ≤ 256
  pub words : (i : ℕ) → m.stack i < 0x10000
  pub paged : page_size ≤ m.data_size
  pub no_dummy : m.h_type ≡ 6 → bottom m.sp frames ≡ stack_size

pub length-write_word : (w : ℕ) → length (write_word w) ≡ 2
unfolding write_word
length-write_word w = refl

module _ {m : Machine} {frames : List ℕ} (h : HasCalls m frames) where
  abbrev pub stack_chunk : List ℕ
  stack_chunk = dummy_of m (bottom m.sp frames) ++ chunk_of h.calls

  write_dummy-ok : write_dummy (bottom m.sp frames - 1) m ≡ ok (dummy_of m (bottom m.sp frames)) m
  unfolding write_dummy
  write_dummy-ok =
      let (pos, high) = bottom-inside h.calls in
      let low : ℕ = bottom m.sp frames in
      let size : stack_size - 1 - (low - 1) ≡ stack_size - low = omega (arith, pos, high) in
      let size' : (stack_size + 0xffff - (low - 1)) % 0x10000 ≡ stack_size - low =
        omega (arith, pos, high) in
      elim (Bool-cases (m.h_type == 6)) [
        | inl six ↦ rw six refl
        | inr other ↦
            rw
              (
                other,
                size,
                size',
                write_cells-ok (stack_size - low) (stack_size - 1) m (omega (arith, pos))
                    (omega arith),
              )
              refl
      ]

  -- The length of the chunk is even and small.
  pub length-stack_chunk : (length stack_chunk % 2 ≡ 0) × (length stack_chunk < 0x1000)
  length-stack_chunk =
      let (pos, high) = bottom-inside h.calls in
      let low : ℕ = bottom m.sp frames in
      let cells : List ℕ = cells_of (stack_size - low) (stack_size - 1) m.stack in
      let size = length-chunk_of h.calls in
      let total = length-append (dummy_of m low) (chunk_of h.calls) in
      elim (Bool-cases (m.h_type == 6)) [
        | inl six ↦
            let empty : length (dummy_of m low) ≡ 0 = rw six refl in
            (omega (arith, size, total, empty, high), omega (arith, size, total, empty, high))
        | inr other ↦
            let full : length (dummy_of m low)
                ≡ 6 + length (write_word (stack_size - low) ++ cells) =
              rw other (omega arith) in
            let cells_size : length (write_word (stack_size - low) ++ cells)
                ≡ 2 + (stack_size - low) * 2 =
              omega (
                arith,
                length-append (write_word (stack_size - low)) cells,
                length-write_word (stack_size - low),
                length-cells_of (stack_size - low) (stack_size - 1) m.stack,
              ) in
            (
              omega (arith, size, total, full, cells_size, high),
              omega (arith, size, total, full, cells_size, high),
            )
      ]

  pub write_stacks-ok : write_stacks m ≡ ok (some stack_chunk) m
  unfolding write_stacks both
  write_stacks-ok =
      rw
        (
          find_frames-ok 256 h.calls h.few,
          oldest-bottom h.calls,
          write_dummy-ok,
          write_frames-ok h.paged h.calls,
        )
        refl
