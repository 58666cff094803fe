-- ===== src/Checker/Accepts.antt =====
-- The checker accepts what `save_quetzal` writes.
use jzip.Prelude.{
  ℕ, zero, suc, ◌+◌, ◌-◌, ◌*◌, ◌/◌, ◌%◌, ◌<◌, ◌≤◌, ◌≡◌, ◌∙◌, refl, sym, ap, arith, true, false, ltb,
  ◌==◌, if◌then◌else◌, Bool-cases, inl, inr, List, [], ◌∷◌, ◌++◌, length, length-append, ne→not_==,
  le→not_ltb, append_assoc, append_nil,
}
use jzip.Machine.{Machine, stack_size}
use jzip.Quetzal.Save.{write_word, write_long}
use jzip.Quetzal.Words.{read_word-write_word, read_long-write_long, cells_of, length-cells_of}
use jzip.Quetzal.Frames.{IsFrame, bitmap, data_at, address, bytes_of}
use jzip.Quetzal.CallStack.{
  CallStack, before_calls, call, bottom, chunk_of, length-bytes_of, frames-length, bottom-inside,
}
use jzip.Quetzal.StackChunk.{HasCalls, stack_chunk, length-write_word}
use jzip.Checker.{running, must, read_bytes, check_frame, check_stacks}

pub read_bytes-append :
    (xs rest : List ℕ) (k : ℕ) → length xs ≡ k → read_bytes k (xs ++ rest) ≡ running rest
unfolding read_bytes
read_bytes-append [] rest zero e = refl
read_bytes-append [] rest (suc k) e = absurd (omega (arith, e))
read_bytes-append (x ∷ xs) rest zero e = absurd (omega (arith, e))
read_bytes-append (x ∷ xs) rest (suc k) e = read_bytes-append xs rest k (omega (arith, e))

-- One frame of `n` cells.
check_frame-ok :
    (fuel tmpl var args w n top more : ℕ) (stack : ℕ → ℕ) (rest : List ℕ)
    → tmpl < 0x100000000
    → w < 0x10000
    → tmpl % 16 + w ≡ n
    → check_stacks
        (suc fuel)
        (n * 2 + 8 + more)
        (write_long tmpl ++ (var ∷ args ∷ (write_word w ++ (cells_of n top stack ++ rest))))
      ≡ check_stacks fuel more rest
unfolding check_stacks check_frame must
check_frame-ok fuel tmpl var args w n top more stack rest long word e =
    let some_left : (n * 2 + 8 + more == 0) ≡ false =
      ne→not_== (n * 2 + 8 + more) 0 (λ e. omega (arith, e)) in
    let enough : ltb (n * 2 + 8 + more) 8 ≡ false = le→not_ltb (n * 2 + 8 + more) 8 (omega arith) in
    let left : n * 2 + 8 + more - 8 ≡ n * 2 + more = omega arith in
    let fits : ltb ((n * 2 + more) / 2) n ≡ false =
      le→not_ltb ((n * 2 + more) / 2) n (omega arith) in
    let left' : n * 2 + more - n * 2 ≡ more = omega arith in
    rw
      (
        some_left,
        enough,
        read_long-write_long tmpl (var ∷ args ∷ (write_word w ++ (cells_of n top stack ++ rest)))
            long,
        read_word-write_word w (cells_of n top stack ++ rest) word,
        e,
        left,
        fits,
        read_bytes-append (cells_of n top stack) rest (n * 2)
            (omega (arith, length-cells_of n top stack)),
        left',
      )
      refl

module _ {m : Machine} where
  -- A frame that was written.
  check_bytes_of :
      (low fp fuel more : ℕ) (rest : List ℕ)
      → (f : IsFrame m low fp)
      → check_stacks (suc fuel) (length (bytes_of m low fp f) + more) (bytes_of m low fp f ++ rest)
        ≡ check_stacks fuel more rest
  check_bytes_of low fp fuel more rest f =
      let n : ℕ = fp + 1 - low in
      let body : List ℕ = write_word (n - f.nvars) ++ cells_of n fp m.stack in
      let tmpl : ℕ =
        if f.procedure
        then address m fp * 0x100 + 0x10 + f.nvars
        else (address m fp + 1) * 0x100 + f.nvars in
      let var : ℕ = if f.procedure then 0 else data_at m (address m fp) in
      let facts : (tmpl < 0x100000000) × (tmpl % 16 ≡ f.nvars) = elim (Bool-cases f.procedure) [
        | inl p ↦ rw p (omega (arith, f.address_fits, f.few_vars), omega (arith, f.few_vars))
        | inr p ↦ rw p (omega (arith, f.address_fits, f.few_vars), omega (arith, f.few_vars))
      ] in
      let (long, vars) = facts in
      ap (λ k. check_stacks (suc fuel) (k + more) (bytes_of m low fp f ++ rest))
        (length-bytes_of low fp f)
      ∙ ap (check_stacks (suc fuel) (n * 2 + 8 + more)) (
          append_assoc (write_long tmpl) (var ∷ bitmap f.args ∷ body) rest
          ∙ ap (λ b. write_long tmpl ++ (var ∷ bitmap f.args ∷ b))
              (append_assoc (write_word (n - f.nvars)) (cells_of n fp m.stack) rest))
      ∙ check_frame-ok fuel tmpl var (bitmap f.args) (n - f.nvars) n fp more m.stack rest long
          (omega (arith, f.inside)) (omega (arith, vars, f.cells_fit))

  check_chunk_of :
      (fuel more : ℕ) (rest : List ℕ) {low fp : ℕ} {frames : List ℕ}
      → (c : CallStack m low fp frames)
      → check_stacks (length frames + fuel) (length (chunk_of c) + more) (chunk_of c ++ rest)
        ≡ check_stacks fuel more rest
  check_chunk_of fuel more rest (before_calls pos high) =
      let no_fuel : 0 + fuel ≡ fuel = omega arith in
      let no_more : 0 + more ≡ more = omega arith in
      ap (λ k. check_stacks k (0 + more) rest) no_fuel ∙ ap (λ k. check_stacks fuel k rest) no_more
  check_chunk_of fuel more rest (call {low} {fp} {older} f c) =
      let frame : List ℕ = bytes_of m low fp f in
      let rounds : length (fp ∷ older) + fuel ≡ length older + suc fuel = omega arith in
      let total : length (chunk_of c ++ frame) + more
          ≡ length (chunk_of c) + (length frame + more) =
        omega (arith, length-append (chunk_of c) frame) in
      ap (λ k. check_stacks k (length (chunk_of c ++ frame) + more) ((chunk_of c ++ frame) ++ rest))
        rounds
      ∙ ap (λ k. check_stacks (length older + suc fuel) k ((chunk_of c ++ frame) ++ rest)) total
      ∙ ap (check_stacks (length older + suc fuel) (length (chunk_of c) + (length frame + more)))
          (append_assoc (chunk_of c) frame rest)
      ∙ check_chunk_of (suc fuel) (length frame + more) (frame ++ rest) c
      ∙ check_bytes_of low fp fuel more rest f

-- The dummy frame.
dummy-ok :
    (fuel n more top : ℕ) (stack : ℕ → ℕ) (rest : List ℕ)
    → n < 0x10000
    → check_stacks
        (suc fuel)
        (n * 2 + 8 + more)
        (0 ∷ 0 ∷ 0 ∷ 0 ∷ 0 ∷ 0 ∷ (write_word n ++ (cells_of n top stack ++ rest)))
      ≡ check_stacks fuel more rest
unfolding write_long
dummy-ok fuel n more top stack rest small =
    check_frame-ok fuel 0 0 0 n n top more stack rest (omega arith) small (omega arith)

-- The stack chunk that is written has whole frames.
pub check_stack_chunk :
    {m : Machine} {frames : List ℕ} (h : HasCalls m frames)
    → check_stacks (length (stack_chunk h) + 1) (length (stack_chunk h)) (stack_chunk h)
      ≡ running (true, [])
unfolding check_stacks
check_stack_chunk {m} {frames} h =
    let low : ℕ = bottom m.sp frames in
    let (pos, high) = bottom-inside h.calls in
    let n : ℕ = stack_size - low in
    let body : List ℕ = chunk_of h.calls in
    let size : ℕ = length body in
    let few : length frames ≤ size = frames-length h.calls in
    let cells : List ℕ = cells_of n (stack_size - 1) m.stack in
    let frames-end : (fuel : ℕ)
        → length frames + 1 ≤ fuel
        → check_stacks fuel size body ≡ running (true, []) =
      λ fuel enough.
        let rounds : fuel ≡ length frames + suc (fuel - length frames - 1) =
          omega (arith, enough) in
        let more : size ≡ size + 0 = omega arith in
        ap (λ k. check_stacks k size body) rounds
        ∙ ap (λ k. check_stacks (length frames + suc (fuel - length frames - 1)) k body) more
        ∙ ap (check_stacks (length frames + suc (fuel - length frames - 1)) (size + 0))
            (sym (append_nil body))
        ∙ check_chunk_of (suc (fuel - length frames - 1)) 0 [] h.calls in
    elim (Bool-cases (m.h_type == 6)) [
      | inl six ↦
          let chunk : stack_chunk h ≡ body = rw six refl in
          ap (λ b. check_stacks (length b + 1) (length b) b) chunk
          ∙ frames-end (size + 1) (omega (arith, few))
      | inr other ↦
          let word : List ℕ = write_word n in
          let chunk : stack_chunk h ≡ 0 ∷ 0 ∷ 0 ∷ 0 ∷ 0 ∷ 0 ∷ ((word ++ cells) ++ body) =
            rw other refl in
          let total : length (0 ∷ 0 ∷ 0 ∷ 0 ∷ 0 ∷ 0 ∷ ((word ++ cells) ++ body))
              ≡ n * 2 + 8 + size =
            omega (
              arith,
              length-append (word ++ cells) body,
              length-append word cells,
              length-write_word n,
              length-cells_of n (stack_size - 1) m.stack,
            ) in
          let one_more : n * 2 + 8 + size + 1 ≡ suc (n * 2 + 8 + size) = omega arith in
          ap (λ b. check_stacks (length b + 1) (length b) b) chunk
          ∙ ap (λ k. check_stacks (k + 1) k (0 ∷ 0 ∷ 0 ∷ 0 ∷ 0 ∷ 0 ∷ ((word ++ cells) ++ body)))
              total
          ∙ ap
              (λ b.
                check_stacks (n * 2 + 8 + size + 1) (n * 2 + 8 + size) (0 ∷ 0 ∷ 0 ∷ 0 ∷ 0 ∷ 0 ∷ b))
              (append_assoc word cells body)
          ∙ ap
              (λ k.
                check_stacks k (n * 2 + 8 + size)
                  (0 ∷ 0 ∷ 0 ∷ 0 ∷ 0 ∷ 0 ∷ (word ++ (cells ++ body))))
              one_more
          ∙ dummy-ok (n * 2 + 8 + size) n size (stack_size - 1) m.stack body (omega (arith, pos))
          ∙ frames-end (n * 2 + 8 + size) (omega (arith, few))
    ]
