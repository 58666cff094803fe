-- ===== src/Quetzal/StackReading.antt =====
-- The stack chunk that `save_quetzal` writes, read by `restore_quetzal`.
use jzip.Prelude.{
  ℕ, suc, ◌+◌, ◌-◌, ◌*◌, ◌≡◌, ◌∙◌, refl, sym, ap, arith, true, false, ltb, ◌==◌, Bool-cases, inl,
  inr, some, List, ◌∷◌, ◌++◌, length, length-append, ==→eq, le→not_ltb, append_assoc,
}
use jzip.Machine.{Machine, ok, stack_size}
use jzip.Quetzal.Stacks.{read_frames}
use jzip.Quetzal.Save.{write_word}
use jzip.Quetzal.Restore.{Progress, read_zeros, restore_frames, restore_dummy, restore_stacks}
use jzip.Quetzal.Words.{
  SameMemory, at_same, read_word-write_word, cells_of, length-cells_of, Restores,
  read_cells-cells_of,
}
use jzip.Quetzal.CallStack.{bottom, chunk_of, bottom-inside, frames-length, read_frames-chunk_of}
use jzip.Quetzal.StackChunk.{HasCalls, stack_chunk, length-write_word}

module _ {m : Machine} {frames : List ℕ} (h : HasCalls m frames) where
  -- The frames behind the dummy frame.
  restore_frames-ok :
      (progress : Progress) (rest : List ℕ) (n : Machine) (count : ℕ)
      → Restores count m (bottom m.sp frames) n
      → (n' : Machine) × Restores 0 m m.sp n'
        × (n'.fp ≡ m.fp)
        × (restore_frames progress (length (chunk_of h.calls)) (chunk_of h.calls ++ rest) n
            ≡ ok (some (record { progress = progress; behind = rest })) n')
  unfolding restore_frames read_frames
  restore_frames-ok progress rest n count r =
      let bytes : List ℕ = chunk_of h.calls in
      let start : Machine = record n { fp = stack_size - 1; frame_count = 0 } in
      let r0 : Restores 0 m (bottom m.sp frames) start = record {
        sp_is = r.sp_is;
        cells_are = r.cells_are;
        data_size_is = r.data_size_is;
        datap_is = r.datap_is;
        story_is = r.story_is;
        count_is = refl;
        pc_is = r.pc_is;
      } in
      let spare : ℕ = length (bytes ++ rest) - length frames in
      let (n', r', e', runs) =
        read_frames-chunk_of (suc spare) 0 rest start h.words h.paged h.calls refl r0 in
      let rounds : length frames + suc spare ≡ length (bytes ++ rest) + 1 =
        omega (arith, length-append bytes rest, frames-length h.calls) in
      let total : length bytes ≡ length bytes + 0 = omega arith in
      let read : read_frames (length (bytes ++ rest) + 1)
            (record { bytes = bytes ++ rest; currlen = length bytes }) start
          ≡ ok (some (record { bytes = rest; currlen = 0 })) n' =
        ap (λ k. read_frames k (record { bytes = bytes ++ rest; currlen = length bytes }) start)
          (sym rounds)
        ∙ ap
            (λ k.
              read_frames (length frames + suc spare)
                (record { bytes = bytes ++ rest; currlen = k }) start)
            total
        ∙ runs in
      (n', r', e', rw read refl)

  restore_dummy-ok :
      (progress : Progress) (rest : List ℕ) (n : Machine)
      → Restores n.frame_count m stack_size n
      → (n' : Machine) × Restores 0 m m.sp n'
        × (n'.fp ≡ m.fp)
        × (restore_dummy progress
              (8 + (stack_size - bottom m.sp frames) * 2 + length (chunk_of h.calls))
              (0
                ∷ 0
                ∷ 0
                ∷ 0
                ∷ 0
                ∷ 0
                ∷ (write_word (stack_size - bottom m.sp frames)
                    ++ (cells_of (stack_size - bottom m.sp frames) (stack_size - 1) m.stack
                        ++ (chunk_of h.calls ++ rest))))
              n
            ≡ ok (some (record { progress = progress; behind = rest })) n')
  unfolding restore_dummy read_zeros
  restore_dummy-ok progress rest n r =
      let (pos, high) = bottom-inside h.calls in
      let low : ℕ = bottom m.sp frames in
      let cells : ℕ = stack_size - low in
      let body : List ℕ = chunk_of h.calls in
      let size : ℕ = length body in
      let (k, rk, ek, runs) =
        read_cells-cells_of cells low (stack_size - 1) (body ++ rest) (restore_frames progress size)
          m n h.words (omega (arith, high)) pos (omega arith)
          (at_same stack_size (stack_size - 1 + 1) m n (omega arith) r) in
      let (n', r', e', runs') = restore_frames-ok progress rest k n.frame_count rk in
      let enough : ltb (8 + cells * 2 + size) 8 ≡ false =
        le→not_ltb (8 + cells * 2 + size) 8 (omega arith) in
      let left : 8 + cells * 2 + size - 8 ≡ cells * 2 + size = omega arith in
      let enough' : ltb (cells * 2 + size) (cells * 2) ≡ false =
        le→not_ltb (cells * 2 + size) (cells * 2) (omega arith) in
      let left' : cells * 2 + size - cells * 2 ≡ size = omega arith in
      (
        n',
        r',
        e',
        rw
            (
              enough,
              read_word-write_word cells (cells_of cells (stack_size - 1) m.stack ++ (body ++ rest))
                  (omega (arith, pos)),
              left,
              enough',
              left',
            )
            (runs ∙ runs'),
      )

  -- The chunk that is written is read to the stack, the stack pointer and the frame pointer, and no frame is
  -- counted.
  pub restore_stacks-ok :
      (progress : Progress) (rest : List ℕ) (n : Machine)
      → progress.got_stack ≡ false
      → SameMemory m n
      → (n' : Machine) × Restores 0 m m.sp n'
        × (n'.fp ≡ m.fp)
        × (restore_stacks progress (length (stack_chunk h)) (stack_chunk h ++ rest) n
            ≡ ok
                (some (record { progress = record progress { got_stack = true }; behind = rest }))
                n')
  unfolding restore_stacks
  restore_stacks-ok progress rest n first r =
      let (pos, high) = bottom-inside h.calls in
      let low : ℕ = bottom m.sp frames in
      let got : Progress = record progress { got_stack = true } in
      let empty : Restores n.frame_count m stack_size (record n { sp = stack_size }) = record {
        sp_is = refl;
        cells_are = λ i above inside. absurd (omega (arith, above, inside));
        data_size_is = r.data_size_is;
        datap_is = r.datap_is;
        story_is = r.story_is;
        count_is = refl;
        pc_is = r.pc_is;
      } in
      let body : List ℕ = chunk_of h.calls in
      elim (Bool-cases (m.h_type == 6)) [
        | inl six ↦
            let six' : (n.h_type == 6) ≡ true = ap (λ t. t == 6) r.type_is ∙ six in
            let all : bottom m.sp frames ≡ stack_size = h.no_dummy (==→eq m.h_type 6 six) in
            let (n', r', e', runs) =
              restore_frames-ok got rest (record n { sp = stack_size }) n.frame_count
                (at_same stack_size (bottom m.sp frames) m (record n { sp = stack_size }) (sym all)
                  empty) in
            let chunk : stack_chunk h ≡ body = rw six refl in
            (
              n',
              r',
              e',
              ap (λ bytes. restore_stacks progress (length bytes) (bytes ++ rest) n) chunk
                  ∙ rw (first, six') runs,
            )
        | inr other ↦
            let (n', r', e', runs) =
              restore_dummy-ok got rest (record n { sp = stack_size }) empty in
            let other' : (n.h_type == 6) ≡ false = ap (λ t. t == 6) r.type_is ∙ other in
            let cells : List ℕ = cells_of (stack_size - low) (stack_size - 1) m.stack in
            let word : List ℕ = write_word (stack_size - low) in
            let chunk : stack_chunk h ≡ 0 ∷ 0 ∷ 0 ∷ 0 ∷ 0 ∷ 0 ∷ ((word ++ cells) ++ body) =
              rw other refl in
            let size : length (0 ∷ 0 ∷ 0 ∷ 0 ∷ 0 ∷ 0 ∷ ((word ++ cells) ++ body))
                ≡ 8 + (stack_size - low) * 2 + length body =
              omega (
                arith,
                length-write_word (stack_size - low),
                length-append (word ++ cells) body,
                length-append word cells,
                length-cells_of (stack_size - low) (stack_size - 1) m.stack,
              ) in
            let apart : ((word ++ cells) ++ body) ++ rest ≡ word ++ (cells ++ (body ++ rest)) =
              append_assoc (word ++ cells) body rest ∙ append_assoc word cells (body ++ rest) in
            (
              n',
              r',
              e',
              ap (λ bytes. restore_stacks progress (length bytes) (bytes ++ rest) n) chunk
                  ∙ ap
                      (λ k.
                        restore_stacks progress k
                          (0 ∷ 0 ∷ 0 ∷ 0 ∷ 0 ∷ 0 ∷ (((word ++ cells) ++ body) ++ rest)) n)
                      size
                  ∙ ap
                      (λ bytes.
                        restore_stacks progress (8 + (stack_size - low) * 2 + length body)
                          (0 ∷ 0 ∷ 0 ∷ 0 ∷ 0 ∷ 0 ∷ bytes) n)
                      apart
                  ∙ rw (first, other') runs,
            )
      ]
