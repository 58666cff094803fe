-- ===== src/Quetzal/Restore.antt =====
-- `restore_quetzal` of quetzal.c, on the bytes of the saved game, but for what it prints. A result of none is
-- the return of FALSE where the file is refused; what was changed before it stays. The story file's bytes
-- are `story`, of which there are `story_size`.
use jzip.Prelude.{
  ℕ, zero, suc, ◌+◌, ◌-◌, ◌*◌, ◌%◌, bit_xor, Bool, true, false, ◌&&◌, ltb, ◌==◌, if◌then◌else◌, not,
  ◌||◌, Option, none, some, List, [], ◌∷◌, length,
}
use jzip.Machine.{M, ok, out_of_fuel, pure, ◌>>=◌, ◌>>◌, stack_size, get_byte, set_byte}
use jzip.Quetzal.{drop}
use jzip.Quetzal.Stacks.{read_word, read_long, get_c, try, read_cells, read_frames}
use jzip.Quetzal.Save.{Game, id_form, id_ifzs, id_ifhd, id_umem, id_cmem, id_stks}

-- The bits of `progress`, but `GOT_ERROR`, with which the function returns at once.
pub record Progress : Type 0 where
  pub got_header : Bool
  pub got_stack : Bool
  pub got_memory : Bool

abbrev pub nothing_yet : Progress
nothing_yet = record { got_header = false; got_stack = false; got_memory = false }

-- What a chunk leaves: the progress and the bytes of the file behind what was read.
pub record Loaded : Type 0 where
  pub progress : Progress
  pub behind : List ℕ

abbrev id_anno : ℕ
id_anno = 0x414e4e4f

unfoldable pub set_pc : ℕ → M (Unit {0})
set_pc value m = ok tt (record m { pc = value })

-- The release number and the serial number, `count` bytes from `i` on, against those of the header.
unfoldable pub match_release :
    ℕ → ℕ → Bool → List ℕ → (Bool → List ℕ → M (Option Loaded)) → M (Option Loaded)
unfolding try get_c
match_release zero i good bytes next = next good bytes
match_release (suc count) i good bytes next =
    try (get_c bytes)
      (λ x rest. do b ← get_byte i; match_release count (i + 1) (good && (x == b)) rest next)

-- `for ( i = 13; i < currlen; ++i )` with a 16-bit `i`, which never reaches a greater length.
unfoldable pub skip_header : ℕ → Loaded → M (Option Loaded)
skip_header currlen l =
    if ltb 0xffff currlen
    then (λ _. out_of_fuel)
    else pure (some (record l { behind = drop (currlen - 13) l.behind }))

-- The three bytes of the program counter.
unfoldable pub restore_pc : Progress → ℕ → List ℕ → M (Option Loaded)
unfolding set_pc try get_c skip_header
restore_pc progress currlen bytes = try (get_c bytes) (λ x rest.
    set_pc (x * 0x10000)
    >> try (get_c rest) (λ y rest'.
      set_pc (x * 0x10000 + y * 0x100)
      >> try (get_c rest') (λ z rest''.
        set_pc (x * 0x10000 + y * 0x100 + z)
        >> skip_header currlen
            (record { progress = record progress { got_header = true }; behind = rest'' }))))

-- `case ID_IFhd`
unfoldable pub restore_header : Game → Progress → ℕ → List ℕ → M (Option Loaded)
unfolding match_release restore_pc try read_word
restore_header g progress currlen bytes =
    if progress.got_header
    then pure none
    else if ltb currlen 13
    then pure none
    else try (read_word bytes) (λ version rest.
      match_release 6 18 (version == g.h_version) rest (λ good rest'.
        try (read_word rest') (λ checksum rest''.
          if good && (checksum == g.h_checksum)
          then restore_pc progress currlen rest''
          else pure none)))

-- `fp = STACK_SIZE - 1, frame_count = 0`, and the frames.
unfoldable pub restore_frames : Progress → ℕ → List ℕ → M (Option Loaded)
unfolding read_frames
restore_frames progress currlen bytes m =
    (do
      r ← read_frames (length bytes + 1) (record { bytes = bytes; currlen = currlen })
      elim r [
        | none ↦ pure none
        | some l ↦ pure (some (record { progress = progress; behind = l.bytes }))
      ])
      (record m { fp = stack_size - 1; frame_count = 0 })

-- The six zeros of the dummy frame.
unfoldable pub read_zeros : ℕ → List ℕ → Option (List ℕ)
read_zeros zero bytes = some bytes
read_zeros (suc n) [] = none
read_zeros (suc n) (x ∷ rest) = if x == 0 then read_zeros n rest else none

-- The dummy frame, for the stack that is used before the first call.
unfoldable pub restore_dummy : Progress → ℕ → List ℕ → M (Option Loaded)
unfolding read_zeros try read_word read_cells restore_frames
restore_dummy progress currlen bytes =
    if ltb currlen 8 then pure none else elim (read_zeros 6 bytes) [
      | none ↦ pure none
      | some rest ↦ try (read_word rest) (λ tmpw rest'.
          if ltb (currlen - 8) (tmpw * 2)
          then pure none
          else read_cells tmpw rest' (restore_frames progress (currlen - 8 - tmpw * 2)))
    ]

-- `case ID_Stks`: what a second chunk has is not skipped.
unfoldable pub restore_stacks : Progress → ℕ → List ℕ → M (Option Loaded)
unfolding restore_dummy restore_frames
restore_stacks progress currlen bytes m =
    if progress.got_stack
    then ok (some (record { progress = progress; behind = bytes })) m
    else (if m.h_type == 6
          then restore_frames (record progress { got_stack = true }) currlen bytes
          else restore_dummy (record progress { got_stack = true }) currlen bytes)
        (record m { sp = stack_size })

-- `jz_getc( gfp )` at a position of the story file: none at its end.
unfoldable pub story_getc : Game → ℕ → (ℕ → M (Option Loaded)) → M (Option Loaded)
story_getc g i next m = if ltb i g.story_size then next (m.story i) m else ok none m

-- `for ( ; x >= 0 && i < h_restart_size; --x, ++i )`, `count` bytes at most, and the loop for a short
-- chunk, with the story file at the position `from`.
unfoldable pub copy_run : Game → ℕ → ℕ → ℕ → (ℕ → ℕ → M (Option Loaded)) → M (Option Loaded)
unfolding story_getc
copy_run g zero from i next = next from i
copy_run g (suc count) from i next =
    if ltb i g.h_restart_size
    then story_getc g from (λ y. set_byte i y >> copy_run g count (from + 1) (i + 1) next)
    else next from i

-- The end of `case ID_CMem`: the rest as in the story, and whether the memory counts as read.
unfoldable pub finish_cmem : Game → Progress → Bool → ℕ → ℕ → List ℕ → M (Option Loaded)
unfolding copy_run
finish_cmem g progress done from i bytes = copy_run g (g.h_restart_size - i) from i (λ _ _. pure (
    some (record {
      progress = if done then record progress { got_memory = true } else progress;
      behind = bytes;
    })))

-- The loop over the bytes of the chunk, `i` of the data area being written. A chunk that ends behind a 0
-- is bogus: one byte too many is read, and `i` is then 0xFFFF. A chunk that is too long is skipped.
unfoldable pub restore_cmem : Game → Progress → ℕ → ℕ → ℕ → List ℕ → M (Option Loaded)
unfolding story_getc copy_run finish_cmem
restore_cmem g progress zero from i bytes = finish_cmem g progress true from i bytes
restore_cmem g progress (suc currlen) from i [] = pure none
restore_cmem g progress (suc zero) from i (zero ∷ rest) =
    finish_cmem g progress false from 0xffff (drop 1 rest)
restore_cmem g progress (suc (suc currlen)) from i (zero ∷ []) = pure none
restore_cmem g progress (suc (suc currlen)) from i (zero ∷ x ∷ rest) =
    copy_run g (x + 1) from i (λ from i. restore_cmem g progress currlen from i rest)
restore_cmem g progress (suc currlen) from i (suc x ∷ rest) = story_getc g from (λ y.
    set_byte i (bit_xor (suc x) y)
    >> (let next : ℕ = (i + 1) % 0x10000 in
        if ltb g.h_restart_size next
        then finish_cmem g progress false (from + 1) next (drop currlen rest)
        else restore_cmem g progress currlen (from + 1) next rest))

-- The bytes of the one element that `fread` reads; where the file ends early, what there is has been read.
unfoldable pub read_element :
    ℕ → ℕ → List ℕ → (Bool → List ℕ → M (Option Loaded)) → M (Option Loaded)
read_element zero i bytes next = next true bytes
read_element (suc n) i [] next = next false []
read_element (suc n) i (x ∷ rest) next = set_byte i x >> read_element n (i + 1) rest next

-- `fread` into the data area, with whether it returns 1. For a size of 0 it returns 0.
unfoldable pub read_area : ℕ → ℕ → List ℕ → (Bool → List ℕ → M (Option Loaded)) → M (Option Loaded)
unfolding read_element
read_area n i bytes next = if n == 0 then next false bytes else read_element n i bytes next

-- `case ID_UMem`, and `default`, into which it falls through.
unfoldable pub restore_umem : Game → Progress → ℕ → List ℕ → M (Option Loaded)
unfolding read_area
restore_umem g progress currlen bytes =
    if not progress.got_memory && (currlen == g.h_restart_size)
    then read_area g.h_restart_size 0 bytes (λ whole rest. pure (
        some (record {
          progress = if whole then record progress { got_memory = true } else progress;
          behind = if whole then rest else drop currlen rest;
        })))
    else pure (some (record { progress = progress; behind = drop currlen bytes }))

-- `case ID_ANNO` shows the bytes of the chunk.
unfoldable pub restore_anno : Progress → ℕ → List ℕ → M (Option Loaded)
restore_anno progress currlen bytes =
    if ltb (length bytes) currlen
    then pure none
    else pure (some (record { progress = progress; behind = drop currlen bytes }))

-- The `switch` over the chunk's name.
unfoldable pub restore_chunk : Game → Progress → ℕ → ℕ → List ℕ → M (Option Loaded)
unfolding restore_header restore_stacks restore_anno restore_cmem restore_umem
restore_chunk g progress name currlen bytes =
    if name == id_ifhd
    then restore_header g progress currlen bytes
    else if name == id_stks
    then restore_stacks progress currlen bytes
    else if name == id_anno
    then restore_anno progress currlen bytes
    else if (name == id_cmem) && not progress.got_memory
    then restore_cmem g progress currlen 0 0 bytes
    else if (name == id_cmem) || (name == id_umem)
    then restore_umem g progress currlen bytes
    else pure (some (record { progress = progress; behind = drop currlen bytes }))

-- A chunk's header, the checks of its length, the chunk, and the pad byte.
unfoldable pub next_chunk : Game → ℕ → Loaded → (ℕ → Loaded → M (Option Loaded)) → M (Option Loaded)
unfolding try read_long restore_chunk
next_chunk g ifzslen l next =
    if ltb ifzslen 8
    then pure none
    else try (read_long l.behind) (λ name rest. try (read_long rest) (λ currlen rest'.
      let skip : ℕ = currlen % 2 in
      if ltb (ifzslen - 8) currlen || ltb (ifzslen - 8 - currlen) skip then pure none else (do
        r ← restore_chunk g l.progress name currlen rest'
        elim r [
          | none ↦ pure none
          | some l' ↦
              next (ifzslen - 8 - currlen - skip) (record l' { behind = drop skip l'.behind })
        ])))

-- `while ( ifzslen > 0 )`: each round takes eight from the length that is left.
unfoldable pub restore_chunks : Game → ℕ → ℕ → Loaded → M (Option Loaded)
unfolding next_chunk
restore_chunks g zero ifzslen l = λ _. out_of_fuel
restore_chunks g (suc fuel) ifzslen l =
    if ifzslen == 0 then pure (some l) else next_chunk g ifzslen l (restore_chunks g fuel)

-- The result is whether the file was read, with all three parts of the state.
unfoldable pub restore_quetzal : Game → List ℕ → M Bool
unfolding restore_chunks read_long try
restore_quetzal g file = do
  r ← try (read_long file) (λ name rest. try (read_long rest) (λ ifzslen rest'.
      try (read_long rest') (λ form rest''.
        if not (name == id_form) || not (form == id_ifzs)
        then pure none
        else if (ifzslen % 2 == 1) || ltb ifzslen 4
        then pure none
        else restore_chunks g (ifzslen + 1) (ifzslen - 4)
            (record { progress = nothing_yet; behind = rest'' }))))
  elim r [
    | none ↦ pure false
    | some l ↦ pure (l.progress.got_header && (l.progress.got_stack && l.progress.got_memory))
  ]
