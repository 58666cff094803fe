-- ===== src/Quetzal/CallStack.antt =====
-- All frames of the stack in a saved game, written and read.
use jzip.Prelude.{
  ℕ, zero, suc, ◌+◌, ◌-◌, ◌*◌, ◌%◌, ◌<◌, ◌≤◌, ◌≡◌, ◌∙◌, refl, sym, ap, arith, true, false, ltb, leb,
  ◌==◌, some, List, [], ◌∷◌, ◌++◌, length, length-append, ne→not_==, le→not_ltb, append_assoc,
}
use jzip.Machine.{Machine, ok, stack_size, page_size}
use jzip.Quetzal.Stacks.{read_frames}
use jzip.Quetzal.Save.{write_word, write_long, find_frames, both, write_frames, oldest}
use jzip.Quetzal.Words.{length-cells_of, Restores}
use jzip.Quetzal.Frames.{IsFrame, bytes_of, write_frame-ok}
use jzip.Quetzal.Reading.{read_frame-IsRead}

-- The frames from the frame pointer `fp` on, the most recent first. `low` is the lowest cell of the most
-- recent one; the oldest leaves the frame pointer as it was before any call.
pub data CallStack (m : Machine) : ℕ → ℕ → List ℕ → Type 0 where
  before_calls : {low : ℕ} → 0 < low → low ≤ stack_size → CallStack m low (stack_size - 1) []
  call :
      {low fp : ℕ} {older : List ℕ}
      → IsFrame m low fp
      → CallStack m (fp + 5) (m.stack (fp + 2)) older
      → CallStack m low fp (fp ∷ older)

-- The lowest cell above the oldest frame.
abbrev pub bottom : ℕ → List ℕ → ℕ
bottom low [] = low
bottom low (fp ∷ older) = bottom (fp + 5) older

abbrev pub chunk_of :
    {m : Machine} {low fp : ℕ} {frames : List ℕ} → CallStack m low fp frames → List ℕ
chunk_of (before_calls _ _) = []
chunk_of (call {low} {fp} {older} f c) = chunk_of c ++ bytes_of _ low fp f

module _ {m : Machine} where
  pub find_frames-ok :
      (fuel : ℕ) {low fp : ℕ} {frames : List ℕ}
      → CallStack m low fp frames
      → length frames ≤ fuel
      → find_frames fuel fp m ≡ ok frames m
  unfolding find_frames
  find_frames-ok zero (before_calls pos high) few = refl
  find_frames-ok (suc fuel) (before_calls pos high) few = refl
  find_frames-ok zero (call f c) few = absurd (omega (arith, few))
  find_frames-ok (suc fuel) (call {low} {fp} {older} f c) few =
      let inside : leb fp (stack_size - 5) ≡ true = ground (arith, f.inside) in
      rw (inside, find_frames-ok fuel c (omega (arith, few))) refl

  pub bottom-inside :
      {low fp : ℕ} {frames : List ℕ}
      → CallStack m low fp frames
      → (0 < bottom low frames) × (bottom low frames ≤ stack_size)
  bottom-inside (before_calls pos high) = (pos, high)
  bottom-inside (call f c) = bottom-inside c

  pub oldest-bottom :
      {low fp : ℕ} {frames : List ℕ}
      → CallStack m low fp frames
      → oldest ((low + 0xfffb) % 0x10000) frames ≡ bottom low frames - 1
  unfolding oldest
  oldest-bottom (before_calls {low} pos high) = omega (arith, pos, high)
  oldest-bottom (call {low} {fp} {older} f c) =
      let next : (fp + 5 + 0xfffb) % 0x10000 ≡ fp = omega (arith, f.inside) in
      ap (λ next. oldest next older) (sym next) ∙ oldest-bottom c

  pub write_frames-ok :
      {low fp : ℕ} {frames : List ℕ}
      → page_size ≤ m.data_size
      → (c : CallStack m low fp frames)
      → write_frames ((low + 0xfffb) % 0x10000) frames m ≡ ok (some (chunk_of c)) m
  unfolding write_frames both
  write_frames-ok paged (before_calls pos high) = refl
  write_frames-ok paged (call {low} {fp} {older} f c) =
      let next : (fp + 5 + 0xfffb) % 0x10000 ≡ fp = omega (arith, f.inside) in
      let before : write_frames fp older m ≡ ok (some (chunk_of c)) m =
        ap (λ next. write_frames next older m) (sym next) ∙ write_frames-ok paged c in
      rw (before, write_frame-ok low fp m f paged) refl

  pub length-bytes_of :
      (low fp : ℕ) (f : IsFrame m low fp) → length (bytes_of m low fp f) ≡ (fp + 1 - low) * 2 + 8
  unfolding write_long write_word
  length-bytes_of low fp f = omega (arith, length-cells_of (fp + 1 - low) fp m.stack)

  pub frames-length :
      {low fp : ℕ} {frames : List ℕ} (c : CallStack m low fp frames)
      → length frames ≤ length (chunk_of c)
  frames-length (before_calls pos high) = omega arith
  frames-length (call {low} {fp} {older} f c) = omega (
    arith,
    frames-length c,
    length-append (chunk_of c) (bytes_of m low fp f),
    length-bytes_of low fp f,
  )

  -- A frame takes as many bytes as its cells do.
  pub length-chunk_of :
      {low fp : ℕ} {frames : List ℕ} (c : CallStack m low fp frames)
      → length (chunk_of c) + low * 2 ≡ bottom low frames * 2
  length-chunk_of (before_calls {low} pos high) = omega arith
  length-chunk_of (call {low} {fp} {older} f c) = omega (
    arith,
    length-chunk_of c,
    length-append (chunk_of c) (bytes_of m low fp f),
    length-bytes_of low fp f,
    f.cells_fit,
  )

  -- One round of the loop.
  read_frames-call :
      (low fp fuel more : ℕ) (rest : List ℕ) (n : Machine)
      → ((i : ℕ) → m.stack i < 0x10000)
      → page_size ≤ m.data_size
      → (f : IsFrame m low fp) → n.fp ≡ m.stack (fp + 2)
      → Restores 0 m (fp + 5) n
      → (n' : Machine) × Restores 0 m low n'
        × (n'.fp ≡ fp)
        × (read_frames
              (suc fuel)
              (record {
                bytes = bytes_of m low fp f ++ rest;
                currlen = length (bytes_of m low fp f) + more;
              })
              n
            ≡ read_frames fuel (record { bytes = rest; currlen = more }) n')
  unfolding read_frames
  read_frames-call low fp fuel more rest n words paged f e r =
      let size : length (bytes_of m low fp f) ≡ (fp + 1 - low) * 2 + 8 = length-bytes_of low fp f in
      let cells : ℕ = (fp + 1 - low) * 2 in
      let (n', r', e', runs) =
        read_frame-IsRead low fp (cells + 8 + more) rest m n words paged f (omega arith) e r in
      let some_left : (cells + 8 + more == 0) ≡ false =
        ne→not_== (cells + 8 + more) 0 (λ e. omega (arith, e)) in
      let left : cells + 8 + more - cells ≡ 8 + more = omega arith in
      let enough : ltb (8 + more) 8 ≡ false = le→not_ltb (8 + more) 8 (omega arith) in
      let then_more : 8 + more - 8 ≡ more = omega arith in
      (
        n',
        r',
        e',
        ap
              (λ size.
                read_frames (suc fuel)
                  (record { bytes = bytes_of m low fp f ++ rest; currlen = size + more }) n)
              size
            ∙ rw (some_left, runs, left, enough, then_more) refl,
      )

  split_up :
      (fuel more : ℕ) (rest : List ℕ) {low fp : ℕ} {older : List ℕ}
      (c : CallStack m (fp + 5) (m.stack (fp + 2)) older)
      → (f : IsFrame m low fp) → (n : Machine)
      → read_frames
          (length (fp ∷ older) + fuel)
          (record {
            bytes = (chunk_of c ++ bytes_of m low fp f) ++ rest;
            currlen = length (chunk_of c ++ bytes_of m low fp f) + more;
          })
          n
        ≡ read_frames
            (length older + suc fuel)
            (record {
              bytes = chunk_of c ++ (bytes_of m low fp f ++ rest);
              currlen = length (chunk_of c) + (length (bytes_of m low fp f) + more);
            })
            n
  split_up fuel more rest {low} {fp} {older} c f n =
      let frame : List ℕ = bytes_of m low fp f in
      let rounds : length (fp ∷ older) + fuel ≡ length older + suc fuel = omega arith in
      let total : length (chunk_of c ++ frame) + more
          ≡ length (chunk_of c) + (length frame + more) =
        omega (arith, length-append (chunk_of c) frame) in
      ap
        (λ k.
          read_frames k
            (record {
              bytes = (chunk_of c ++ frame) ++ rest;
              currlen = length (chunk_of c ++ frame) + more;
            })
            n)
        rounds
      ∙ ap
          (λ k.
            read_frames (length older + suc fuel)
              (record { bytes = (chunk_of c ++ frame) ++ rest; currlen = k }) n)
          total
      ∙ ap
          (λ k.
            read_frames (length older + suc fuel)
              (record { bytes = k; currlen = length (chunk_of c) + (length frame + more) }) n)
          (append_assoc (chunk_of c) frame rest)

  pub read_frames-chunk_of :
      (fuel more : ℕ) (rest : List ℕ) (n : Machine) {low fp : ℕ} {frames : List ℕ}
      → ((i : ℕ) → m.stack i < 0x10000)
      → page_size ≤ m.data_size
      → (c : CallStack m low fp frames) → n.fp ≡ stack_size - 1
      → Restores 0 m (bottom low frames) n
      → (n' : Machine) × Restores 0 m low n'
        × (n'.fp ≡ fp)
        × (read_frames
              (length frames + fuel)
              (record { bytes = chunk_of c ++ rest; currlen = length (chunk_of c) + more })
              n
            ≡ read_frames fuel (record { bytes = rest; currlen = more }) n')
  unfolding read_frames
  read_frames-chunk_of fuel more rest n words paged (before_calls pos high) e r = (
    n,
    r,
    e,
    ap (λ k. read_frames k (record { bytes = rest; currlen = 0 + more }) n) (omega arith)
        ∙ ap (λ k. read_frames fuel (record { bytes = rest; currlen = k }) n) (omega arith),
  )
  read_frames-chunk_of fuel more rest n words paged (call {low} {fp} {older} f c) e r =
      let frame : List ℕ = bytes_of m low fp f in
      let (n1, r1, e1, runs1) =
        read_frames-chunk_of (suc fuel) (length frame + more) (frame ++ rest) n words paged c e r in
      let (n2, r2, e2, runs2) = read_frames-call low fp fuel more rest n1 words paged f e1 r1 in
      (n2, r2, e2, split_up fuel more rest c f n ∙ runs1 ∙ runs2)
