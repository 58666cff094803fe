-- ===== src/Quetzal/Safety.antt =====
-- Reading the stack frames of a saved game stays inside the stack, whatever the file has.
use jzip.Prelude.{
  ℕ, zero, suc, ◌+◌, ◌-◌, ◌*◌, ◌/◌, ◌%◌, ◌^◌, ◌<◌, ◌≤◌, ◌≡◌, ◌≢◌, inl, inr, refl, arith, false, ltb,
  leb, ◌==◌, if◌then◌else◌, Bool-cases, Option, none, some, List, [], ◌∷◌, length, lt→ltb,
  ne→not_==,
}
use jzip.Machine.{
  Machine, M, Run, ok, fatal, fault, out_of_fuel, pure, and_then, ◌>>=◌, ◌>>◌, stack_size,
  page_size, update, push, stack_set, read_data_byte,
}
use jzip.Quetzal.Stacks.{
  Left, read_word, read_long, get_c, try, read_cells, first_bit, read_locals, read_frame_body,
  read_frame, read_frames,
}

-- A machine whose stack pointer is inside the stack, with at least `room` cells below it, and the
-- number of frames `count`.
record HasRoom (room count : ℕ) (m : Machine) : Type 0 where
  pub low : room ≤ m.sp
  pub high : m.sp ≤ stack_size
  pub paged : page_size ≤ m.data_size
  pub frames : m.frame_count ≡ count

-- A run that ends without a fault, with the stack pointer inside the stack, the number of frames, and
-- fewer bytes left than `most`.
abbrev IsSafe : ℕ → ℕ → Run (Option Left) → Type 0
IsSafe count most (ok none m) = HasRoom 0 count m
IsSafe count most (ok (some l) m) = HasRoom 1 count m × (length l.bytes < most)
IsSafe count most (fatal e) = ⊥
IsSafe count most fault = ⊥
IsSafe count most out_of_fuel = ⊥

push-HasRoom :
    (v room count : ℕ) (m : Machine)
    → HasRoom (suc room) count m
    → (n : Machine) × (push v m ≡ ok tt n) × HasRoom room count n
unfolding push stack_set
push-HasRoom v room count m h =
    let nonzero : m.sp ≢ 0 = (λ e. omega (arith, h.low)) in
    let inside : m.sp - 1 < stack_size = omega (arith, h.low, h.high) in
    (
      record m { sp = m.sp - 1; stack = update m.stack (m.sp - 1) (v % 0x10000) },
      rw (ne→not_== m.sp 0 nonzero, lt→ltb (m.sp - 1) stack_size inside) refl,
      record {
        low = omega (arith, h.low);
        high = omega (arith, h.high);
        paged = h.paged;
        frames = h.frames;
      },
    )

push-IsSafe :
    (v room count most : ℕ) (m : Machine) (k : M (Option Left))
    → HasRoom (suc room) count m
    → ((n : Machine) → HasRoom room count n → IsSafe count most (k n))
    → IsSafe count most ((push v >> k) m)
push-IsSafe v room count most m k h each =
    let (n, e, h') = push-HasRoom v room count m h in rw e (each n h')

HasRoom-less :
    (room room' count : ℕ) (m : Machine)
    → room' ≤ room
    → HasRoom room count m
    → HasRoom room' count m
HasRoom-less room room' count m less h = record {
  low = omega (arith, h.low);
  high = h.high;
  paged = h.paged;
  frames = h.frames;
}

-- Reading from the file, with fewer bytes behind.
read_word-IsSafe :
    (count most : ℕ) (bytes : List ℕ) (next : ℕ → List ℕ → M (Option Left)) (m : Machine)
    → HasRoom 0 count m
    → ((w : ℕ) (rest : List ℕ) → length rest ≤ length bytes → IsSafe count most (next w rest m))
    → IsSafe count most (try (read_word bytes) next m)
unfolding try read_word
read_word-IsSafe count most [] next m h each = h
read_word-IsSafe count most (a ∷ []) next m h each = h
read_word-IsSafe count most (a ∷ b ∷ rest) next m h each = each _ rest (omega arith)

read_long-IsSafe :
    (count most : ℕ) (bytes : List ℕ) (next : ℕ → List ℕ → M (Option Left)) (m : Machine)
    → HasRoom 0 count m
    → ((w : ℕ) (rest : List ℕ) → length rest < length bytes → IsSafe count most (next w rest m))
    → IsSafe count most (try (read_long bytes) next m)
unfolding try read_long
read_long-IsSafe count most [] next m h each = h
read_long-IsSafe count most (a ∷ []) next m h each = h
read_long-IsSafe count most (a ∷ b ∷ []) next m h each = h
read_long-IsSafe count most (a ∷ b ∷ c ∷ []) next m h each = h
read_long-IsSafe count most (a ∷ b ∷ c ∷ d ∷ rest) next m h each = each _ rest (omega arith)

get_c-IsSafe :
    (count most : ℕ) (bytes : List ℕ) (next : ℕ → List ℕ → M (Option Left)) (m : Machine)
    → HasRoom 0 count m
    → ((w : ℕ) (rest : List ℕ) → length rest ≤ length bytes → IsSafe count most (next w rest m))
    → IsSafe count most (try (get_c bytes) next m)
unfolding try get_c
get_c-IsSafe count most [] next m h each = h
get_c-IsSafe count most (a ∷ rest) next m h each = each a rest (omega arith)

read_cells-IsSafe :
    (n count most : ℕ) (bytes : List ℕ) (next : List ℕ → M (Option Left)) (m : Machine)
    → HasRoom (n + 1) count m
    → ((rest : List ℕ) (m' : Machine)
        → length rest ≤ length bytes
        → HasRoom 1 count m'
        → IsSafe count most (next rest m'))
    → IsSafe count most (read_cells n bytes next m)
unfolding read_cells
read_cells-IsSafe zero count most bytes next m h each =
    each bytes m (omega arith) (HasRoom-less (0 + 1) 1 count m (omega arith) h)
read_cells-IsSafe (suc n) count most bytes next m h each =
    read_word-IsSafe count most bytes _ m (HasRoom-less (suc n + 1) 0 count m (omega arith) h)
      (λ w rest fewer.
        push-IsSafe w (n + 1) count most m (read_cells n rest next)
          (HasRoom-less (suc n + 1) (suc (n + 1)) count m (omega arith) h)
          (λ m' h'.
            read_cells-IsSafe n count most rest next m' h'
              (λ rest' m'' fewer'. each rest' m'' (omega arith))))

read_locals-IsSafe :
    (y flags currlen count most : ℕ) (bytes : List ℕ) (m : Machine)
    → length bytes < most
    → HasRoom 1 count m
    → IsSafe count most (read_locals y flags currlen bytes m)
unfolding read_locals
read_locals-IsSafe y flags currlen count most bytes m fewer h =
    push-IsSafe flags 0 count most m _ h (λ n h'.
      read_word-IsSafe count most bytes _ (record n { fp = (n.sp + 0xffff) % 0x10000 })
        (record { low = h'.low; high = h'.high; paged = h'.paged; frames = h'.frames })
        (λ w rest fewer'.
          let cells : ℕ = (w + y) % 0x10000 in
          elim (Bool-cases (leb n.sp cells)) [
            | inl much ↦
                rw much
                  (record { low = h'.low; high = h'.high; paged = h'.paged; frames = h'.frames })
            | inr fits ↦ elim (Bool-cases (ltb currlen (cells * 2))) [
              | inl short ↦
                  rw (fits, short)
                    (record { low = h'.low; high = h'.high; paged = h'.paged; frames = h'.frames })
              | inr long ↦
                  rw (fits, long)
                    (read_cells-IsSafe cells count most rest _
                      (record n { fp = (n.sp + 0xffff) % 0x10000 })
                      (record {
                        low = ground arith;
                        high = h'.high;
                        paged = h'.paged;
                        frames = h'.frames;
                      })
                      (λ rest' m' fewer'' h''. (h'', omega arith)))
            ]
          ]))

read_frame_body-IsSafe :
    (y kind return_pc currlen count most : ℕ) (bytes : List ℕ) (m : Machine)
    → length bytes < most
    → HasRoom 4 count m
    → IsSafe count most (read_frame_body y kind return_pc currlen bytes m)
unfolding read_frame_body
read_frame_body-IsSafe y kind return_pc currlen count most bytes m fewer h =
    push-IsSafe _ 3 count most m _ h (λ m1 h1. push-IsSafe _ 2 count most m1 _ h1 (λ m2 h2.
      push-IsSafe _ 1 count most m2 _ h2 (λ m3 h3.
        get_c-IsSafe count most bytes _ m3 (HasRoom-less 1 0 count m3 (omega arith) h3)
          (λ x rest fewer'. elim (Bool-cases (x + 1 == 2 ^ first_bit 8 0 (x + 1))) [
            | inl one ↦ rw one (read_locals-IsSafe y _ currlen count most rest m3 (omega arith) h3)
            | inr more ↦ rw more (HasRoom-less 1 0 count m3 (omega arith) h3)
          ]))))

read_data_byte-ok :
    (a : ℕ) (m : Machine) → page_size ≤ m.data_size → (v : ℕ) × (read_data_byte a m ≡ ok v m)
unfolding read_data_byte
read_data_byte-ok a m h = elim (Bool-cases (ltb a m.data_size)) [
  | inl resident ↦ (m.datap a, rw resident refl)
  | inr paged ↦
      let above : (a / page_size == 0) ≡ false = ground arith in (m.story a, rw (paged, above) refl)
]

read_frame-IsSafe :
    (currlen count most : ℕ) (bytes : List ℕ) (m : Machine)
    → length bytes ≤ most
    → HasRoom 0 count m
    → IsSafe count most (read_frame currlen bytes m)
unfolding read_frame
read_frame-IsSafe currlen count most bytes m fewer h = elim (Bool-cases (ltb currlen 8)) [
  | inl short ↦ rw short h
  | inr long ↦ elim (Bool-cases (ltb m.sp 4)) [
    | inl full ↦ rw (long, full) h
    | inr room ↦
        let h4 : HasRoom 4 count m = record {
          low = ground arith;
          high = h.high;
          paged = h.paged;
          frames = h.frames;
        } in
        rw (long, room)
          (read_long-IsSafe count most bytes _ m h (λ tmpl rest fewer'.
            get_c-IsSafe count most rest _ m h (λ x rest' fewer''.
              elim (Bool-cases (tmpl / 16 % 2 == 1)) [
                | inl procedure ↦
                    rw procedure
                      (read_frame_body-IsSafe _ _ _ currlen count most rest' m (omega arith) h4)
                | inr function ↦ rw function (function_frame _ _ x rest' h4 (omega arith))
              ])))
  ]
]
  where
    function_frame :
        (y before x : ℕ) (rest : List ℕ)
        → HasRoom 4 count m
        → length rest < most
        → IsSafe count most (
            (do
              value ← read_data_byte before
              if value == x then read_frame_body y 0 before currlen rest else pure none)
              m)
    function_frame y before x rest h4 less =
        let (value, e) = read_data_byte-ok before m h.paged in
        rw e (elim (Bool-cases (value == x)) [
          | inl same ↦ rw same (read_frame_body-IsSafe y 0 before currlen count most rest m less h4)
          | inr other ↦ rw other h
        ])

-- What the loop over the frames comes to: it ends, without a fault.
abbrev pub Ends : ℕ → Run (Option Left) → Type 0
Ends count (ok l m) = (m.sp ≤ stack_size) × (m.frame_count ≡ count)
Ends count (fatal e) = ⊥
Ends count fault = ⊥
Ends count out_of_fuel = ⊥

-- What the loop does behind a frame.
abbrev next_frame : ℕ → Option Left → M (Option Left)
next_frame fuel r = elim r [
  | none ↦ pure none
  | some next ↦ read_frames fuel (record next {
    currlen = if ltb next.currlen 8 then next.currlen + 2 ^ 32 - 8 else next.currlen - 8;
  })
]

next_frame-Ends :
    (fuel count : ℕ) (r : Run (Option Left))
    → ((l : Left) (m : Machine)
        → length l.bytes < fuel
        → HasRoom 0 count m
        → Ends count (read_frames fuel l m))
    → IsSafe count fuel r
    → Ends count (and_then r (next_frame fuel))
next_frame-Ends fuel count (ok none m) rest safe = (safe.high, safe.frames)
next_frame-Ends fuel count (ok (some l) m) rest safe =
    rest _ m safe.1 (HasRoom-less 1 0 count m (omega arith) safe.0)
next_frame-Ends fuel count (fatal e) rest safe = safe
next_frame-Ends fuel count fault rest safe = safe
next_frame-Ends fuel count out_of_fuel rest safe = safe

loop-Ends :
    (fuel count : ℕ) (l : Left) (m : Machine)
    → length l.bytes < fuel
    → HasRoom 0 count m
    → Ends count (read_frames fuel l m)
unfolding read_frames
loop-Ends zero count l m enough h = absurd (omega arith)
loop-Ends (suc fuel) count l m enough h = elim (Bool-cases (l.currlen == 0)) [
  | inl end ↦ rw end (h.high, h.frames)
  | inr more ↦ rw more (
      next_frame-Ends fuel count (read_frame l.currlen l.bytes m)
        (λ l' m' fewer h'. loop-Ends fuel count l' m' fewer h')
        (read_frame-IsSafe l.currlen count fuel l.bytes m (omega arith) h))
]

-- The loop over the stack frames of a saved game ends on any bytes and any length of the chunk, with as
-- much fuel as the file has bytes and one more: it never reads or writes outside the stack, leaves the
-- stack pointer inside it, and does not count the frames that it reads. The stack pointer is inside the
-- stack before, and the data area has its first page.
pub read_frames-Ends :
    (fuel : ℕ) (l : Left) (m : Machine)
    → length l.bytes < fuel
    → m.sp ≤ stack_size
    → page_size ≤ m.data_size
    → Ends m.frame_count (read_frames fuel l m)
read_frames-Ends fuel l m enough high paged =
    loop-Ends fuel m.frame_count l m enough
      (record { low = omega arith; high = high; paged = paged; frames = refl })
