-- ===== src/Quetzal/Stacks.antt =====
-- The stack chunk of a saved game, as `restore_quetzal` reads it (quetzal.c): the bytes of the file from
-- the chunk's body on. A result of none is the return of FALSE.
use jzip.Prelude.{
  ℕ, zero, suc, ◌+◌, ◌-◌, ◌*◌, ◌/◌, ◌%◌, ◌^◌, ltb, leb, ◌==◌, if◌then◌else◌, Option, none, some,
  List, [], ◌∷◌,
}
use jzip.Machine.{M, ok, out_of_fuel, pure, ◌>>=◌, ◌>>◌, page_size, push, read_data_byte}

-- What is left of the file and of the chunk.
pub record Left : Type 0 where
  pub bytes : List ℕ
  pub currlen : ℕ

-- `read_word` and `read_long`.
unfoldable pub read_word : List ℕ → Option (ℕ × List ℕ)
read_word (a ∷ b ∷ rest) = some (a * 0x100 + b, rest)
read_word _ = none

unfoldable pub read_long : List ℕ → Option (ℕ × List ℕ)
read_long (a ∷ b ∷ c ∷ d ∷ rest) = some (a * 0x1000000 + b * 0x10000 + c * 0x100 + d, rest)
read_long _ = none

unfoldable pub get_c : List ℕ → Option (ℕ × List ℕ)
get_c (a ∷ rest) = some (a, rest)
get_c [] = none

-- A call that can fail, and what is done with its result.
unfoldable pub try : {A : Type 0} → Option (ℕ × List ℕ) → (ℕ → List ℕ → M (Option A)) → M (Option A)
try none next = pure none
try (some (value, rest)) next = next value rest

-- `read_word( sfp, stack + ( --sp ) )`, `n` times.
unfoldable pub read_cells : {A : Type 0} → ℕ → List ℕ → (List ℕ → M (Option A)) → M (Option A)
unfolding try read_word
read_cells zero bytes next = next bytes
read_cells (suc n) bytes next = try (read_word bytes) (λ w rest. push w >> read_cells n rest next)

-- The first set bit of the eight lowest from `i` on, 8 where there is none.
unfoldable pub first_bit : ℕ → ℕ → ℕ → ℕ
first_bit zero i x = i
first_bit (suc n) i x = if x / 2 ^ i % 2 == 1 then i else first_bit n (i + 1) x

-- The body of the loop over the frames, behind the checks of the result variable.
unfoldable pub read_locals : ℕ → ℕ → ℕ → List ℕ → M (Option Left)
unfolding read_cells
read_locals y flags currlen bytes = do
  push flags
  m ← (λ n. ok n (record n { fp = (n.sp + 0xffff) % 0x10000 }))
  try (read_word bytes) (λ w rest.
      let cells : ℕ = (w + y) % 0x10000 in
      if leb m.sp cells
      then pure none
      else if ltb currlen (cells * 2)
      then pure none
      else read_cells cells rest
          (λ rest. pure (some (record { bytes = rest; currlen = currlen - cells * 2 }))))

-- The program counter that the frame returns to is pushed, then the frame pointer; the byte of the
-- arguments must be 2 to some power, less 1.
unfoldable pub read_frame_body : ℕ → ℕ → ℕ → ℕ → List ℕ → M (Option Left)
unfolding read_locals try get_c
read_frame_body y kind return_pc currlen bytes = do
  push (return_pc / page_size)
  push (return_pc % page_size)
  m ← (λ m. ok m m)
  push m.fp
  try (get_c bytes) (λ x rest.
      let i = first_bit 8 0 (x + 1) in
      if x + 1 == 2 ^ i then read_locals y (y * 256 + kind + i) currlen rest else pure none)

-- One frame. A function's frame has the result variable behind its call, which must be that of the
-- frame; the return address of 0 steps back to the highest number.
unfoldable pub read_frame : ℕ → List ℕ → M (Option Left)
unfolding read_frame_body read_long
read_frame currlen bytes m =
    if ltb currlen 8
    then ok none m
    else if ltb m.sp 4
    then ok none m
    else try (read_long bytes)
        (λ tmpl rest.
          let y : ℕ = tmpl % 16 in
          let return_pc : ℕ = tmpl / 256 in
          try (get_c rest) (λ x rest'.
            if tmpl / 16 % 2 == 1
            then read_frame_body y 0x1000 return_pc currlen rest'
            else let before : ℕ = if return_pc == 0 then 2 ^ 64 - 1 else return_pc - 1 in
              do
                value ← read_data_byte before
                if value == x then read_frame_body y 0 before currlen rest' else pure none))
        m

-- `for ( …; currlen > 0; currlen -= 8 )`, where `currlen` wraps below 0. A frame takes eight bytes, so
-- the bytes of the file are fuel enough.
unfoldable pub read_frames : ℕ → Left → M (Option Left)
unfolding read_frame
read_frames zero l = λ m. out_of_fuel
read_frames (suc fuel) l = if l.currlen == 0 then pure (some l) else (do
  r ← read_frame l.currlen l.bytes
  elim r [
    | none ↦ pure none
    | some next ↦ read_frames fuel (record next {
      currlen = if ltb next.currlen 8 then next.currlen + 2 ^ 32 - 8 else next.currlen - 8;
    })
  ])
