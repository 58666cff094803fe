-- ===== src/Quetzal/Save.antt =====
-- `save_quetzal` of quetzal.c, as the bytes of the file that it writes. A write does not fail. A result of
-- none is the return of FALSE: in an interrupt, or where the story file ends too early.
use jzip.Prelude.{
  ℕ, zero, suc, ◌+◌, ◌-◌, ◌*◌, ◌/◌, ◌%◌, ◌^◌, bit_and, Bool, ltb, leb, ◌==◌, if◌then◌else◌, Option,
  none, some, List, [], ◌∷◌, ◌++◌, length,
}
use jzip.Machine.{
  M, ok, fault, pure, ◌>>=◌, ◌>>◌, stack_size, page_size, get_byte, stack_get, read_data_byte,
}
use jzip.Return.{args_mask, vars_mask, type_mask, call_function, call_procedure}
use jzip.Quetzal.{encode}

-- The fields of the header that a saved game has, the option `quetzal_use_umem`, and the story file's
-- length. The file's bytes are `story`.
pub record Game : Type 0 where
  pub h_version : ℕ
  pub h_checksum : ℕ
  pub h_restart_size : ℕ
  pub quetzal_use_umem : Bool
  pub story_size : ℕ

-- `write_word`, `write_long` and `write_chnk`.
unfoldable pub write_word : ℕ → List ℕ
write_word w = (w / 0x100 % 0x100) ∷ (w % 0x100) ∷ []

unfoldable pub write_long : ℕ → List ℕ
write_long l =
    (l / 0x1000000 % 0x100) ∷ (l / 0x10000 % 0x100) ∷ (l / 0x100 % 0x100) ∷ (l % 0x100) ∷ []

unfoldable pub write_chnk : ℕ → ℕ → List ℕ
unfolding write_long
write_chnk id len = write_long id ++ write_long len

abbrev pub id_form : ℕ
id_form = 0x464f524d

abbrev pub id_ifzs : ℕ
id_ifzs = 0x49465a53

abbrev pub id_ifhd : ℕ
id_ifhd = 0x49466864

abbrev pub id_umem : ℕ
id_umem = 0x554d656d

abbrev pub id_cmem : ℕ
id_cmem = 0x434d656d

abbrev pub id_stks : ℕ
id_stks = 0x53746b73

-- `get_byte` at `n` addresses from `a` on.
unfoldable pub get_bytes : ℕ → ℕ → M (List ℕ)
get_bytes zero a = pure []
get_bytes (suc n) a = do b ← get_byte a; rest ← get_bytes n (a + 1); pure (b ∷ rest)

-- The story file's bytes from `a` on.
unfoldable pub file_bytes : ℕ → ℕ → (ℕ → ℕ) → List ℕ
file_bytes zero a story = []
file_bytes (suc n) a story = story a ∷ file_bytes n (a + 1) story

-- The memory chunk's bytes, which `memlen` counts as they are written.
unfoldable pub write_memory : Game → M (Option (List ℕ))
unfolding get_bytes file_bytes
write_memory g m =
    (do
      area ← get_bytes g.h_restart_size 0
      pure (
          if g.quetzal_use_umem
          then some area
          else if ltb g.story_size g.h_restart_size
          then none
          else some (encode 0 (file_bytes g.h_restart_size 0 m.story) area)))
      m

-- `for ( init_fp = fp, n = 0; init_fp <= STACK_SIZE - 5; … ) frames[++n] = init_fp;`: the array has room
-- for 256 frames behind its first element.
unfoldable pub find_frames : ℕ → ℕ → M (List ℕ)
find_frames zero init_fp m = if leb init_fp (stack_size - 5) then fault else ok [] m
find_frames (suc fuel) init_fp m =
    if leb init_fp (stack_size - 5)
    then (do older ← find_frames fuel (m.stack (init_fp + 2)); pure (init_fp ∷ older)) m
    else ok [] m

-- `n` words of the stack, downwards from `stack[tmp_fp]`.
unfoldable pub write_cells : ℕ → ℕ → M (List ℕ)
unfolding write_word
write_cells zero tmp_fp = pure []
write_cells (suc n) tmp_fp = do
  w ← stack_get tmp_fp
  rest ← write_cells n ((tmp_fp + 0xffff) % 0x10000)
  pure (write_word w ++ rest)

-- A frame's bytes from what was found of it; the number of arguments becomes a bitmap by `1 << args` on
-- an `int`.
unfoldable pub frame_bytes : ℕ → ℕ → ℕ → ℕ → ℕ → ℕ → M (Option (List ℕ))
unfolding write_cells write_word write_long
frame_bytes tmp_pc var args nstk count tmp_fp = do
  (if ltb 30 args then (λ _. fault) else pure tt)
  cells ← write_cells count tmp_fp
  pure (
      some (
        write_long tmp_pc
        ++ (var ∷ ((if args == 0 then 0 else 2 ^ args - 1) % 0x100) ∷ (write_word nstk ++ cells))))

-- The frame at `tmp_fp`, with the frame pointer of the frame behind it, `next`.
unfoldable pub write_frame : ℕ → ℕ → M (Option (List ℕ))
unfolding frame_bytes
write_frame next tmp_fp = do
  flags ← stack_get (tmp_fp + 1)
  offset ← stack_get (tmp_fp + 3)
  page ← stack_get (tmp_fp + 4)
  let nvars : ℕ = bit_and flags vars_mask / 0x100
  let args : ℕ = bit_and flags args_mask
  let nstk : ℕ = (tmp_fp + 0x20000 - next - nvars - 4) % 0x10000
  let tmp_pc : ℕ = offset + page * page_size
  let kind : ℕ = bit_and flags type_mask
  if kind == call_function
      then (do
        var ← read_data_byte tmp_pc
        frame_bytes ((tmp_pc + 1) * 0x100 + nvars) var args nstk (nvars + nstk) tmp_fp)
      else if kind == call_procedure
      then frame_bytes (tmp_pc * 0x100 + 0x10 + nvars) 0 args nstk (nvars + nstk) tmp_fp
      else pure none

-- The bytes of one write behind those of another, none where either fails.
unfoldable pub both : Option (List ℕ) → Option (List ℕ) → Option (List ℕ)
both none ys = none
both (some xs) none = none
both (some xs) (some ys) = some (xs ++ ys)

-- The frames of the list, the most recent first, are written from the oldest on; `next` is the frame
-- pointer behind the most recent.
unfoldable pub write_frames : ℕ → List ℕ → M (Option (List ℕ))
unfolding write_frame both
write_frames next [] = pure (some [])
write_frames next (tmp_fp ∷ older) = do
  before ← write_frames tmp_fp older
  elim before [
    | none ↦ pure none
    | some xs ↦ do frame ← write_frame next tmp_fp; pure (both (some xs) frame)
  ]

-- `frames[n] + 4`
unfoldable pub oldest : ℕ → List ℕ → ℕ
oldest next [] = (next + 4) % 0x10000
oldest next (tmp_fp ∷ older) = oldest tmp_fp older

-- The dummy frame for the stack that is used before the first call, but in version 6.
unfoldable pub write_dummy : ℕ → M (List ℕ)
unfolding write_cells write_word
write_dummy init_fp m =
    if m.h_type == 6
    then ok [] m
    else (do
      cells ← write_cells (stack_size - 1 - init_fp) (stack_size - 1)
      pure (
          0
          ∷ 0
          ∷ 0
          ∷ 0
          ∷ 0
          ∷ 0
          ∷ (write_word ((stack_size + 0xffff - init_fp) % 0x10000) ++ cells)))
        m

-- The body of the stack chunk; `frames[0]` is what FP would be after a call.
unfoldable pub write_stacks : M (Option (List ℕ))
unfolding find_frames oldest write_dummy write_frames both
write_stacks m =
    (do
      let next : ℕ = (m.sp + 0xfffb) % 0x10000
      frames ← find_frames 256 m.fp
      dummy ← write_dummy (oldest next frames)
      written ← write_frames next frames
      pure (both (some dummy) written))
      m

-- The file of the two bodies, with the lengths that are filled in at the end. `memlen` and `stkslen` are the
-- bytes written, for a stack pointer inside the stack.
unfoldable pub write_file : Game → ℕ → List ℕ → List ℕ → List ℕ → List ℕ
unfolding write_long write_word write_chnk
write_file g pc release memory stacks =
    let memlen = length memory in
    let stkslen = length stacks in
    let ifzslen : ℕ = 3 * 8 + 4 + 14 + memlen + stkslen + memlen % 2 in
    write_chnk id_form ifzslen
    ++ (write_long id_ifzs
        ++ (write_chnk id_ifhd 13
            ++ (write_word g.h_version
                ++ (release
                    ++ (write_word g.h_checksum
                        ++ (write_long (pc * 0x100)
                            ++ (write_chnk (if g.quetzal_use_umem then id_umem else id_cmem) memlen
                                ++ (memory
                                    ++ ((if memlen % 2 == 1 then 0 ∷ [] else [])
                                        ++ (write_chnk id_stks stkslen ++ stacks))))))))))

-- `H_RELEASE_DATE` is 18.
unfoldable pub save_quetzal : Game → M (Option (List ℕ))
unfolding write_memory write_stacks write_file
save_quetzal g m =
    (do
      release ← get_bytes 6 18
      memory ← write_memory g
      elim memory [
        | none ↦ pure none
        | some body ↦ do
          stacks ← write_stacks
          elim stacks [
            | none ↦ pure none
            | some frames ↦ pure (some (write_file g m.pc release body frames))
          ]
      ])
      m
