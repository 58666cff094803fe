-- ===== src/Quetzal/RoundTrip.antt =====
-- `restore_quetzal` on the file that `save_quetzal` writes.
use jzip.Prelude.{
  ℕ, suc, ◌+◌, ◌-◌, ◌*◌, ◌%◌, ◌<◌, ◌≤◌, ◌≡◌, ◌∙◌, refl, sym, ap, arith, Bool, true, false, ltb,
  ◌==◌, if◌then◌else◌, Bool-cases, inl, inr, Option, some, List, [], ◌∷◌, ◌++◌, length, ltb→lt,
  le→not_ltb, append_nil,
}
use jzip.Machine.{Machine, M, ok}
use jzip.Quetzal.{drop}
use jzip.Quetzal.Save.{
  Game, write_long, save_quetzal, id_form, id_ifzs, id_ifhd, id_umem, id_cmem, id_stks,
}
use jzip.Quetzal.Restore.{
  Progress, Loaded, nothing_yet, restore_header, restore_stacks, restore_chunk, restore_chunks,
  restore_quetzal,
}
use jzip.Quetzal.Words.{SameMemory, Restores, read_long-write_long}
use jzip.Quetzal.Memory.{HasStory, UpTo}
use jzip.Quetzal.StackChunk.{HasCalls, stack_chunk, length-stack_chunk}
use jzip.Quetzal.File.{
  HasHeader, SameStory, save_quetzal-writes, file_of, stacks_part, memory_part, header_part,
  padded_size, form_size_of, file_of-parts, name_fits,
}
use jzip.Quetzal.Chunks.{memory_bytes, length-memory_bytes, restore_memory-ok, restore_header-ok}
use jzip.Quetzal.StackReading.{restore_stacks-ok}
use jzip.Quetzal.Sequence.{
  next_chunk-ok, restore_chunks-next, restore_chunks-end, drop_pad, drop_nil,
}

module _ {g : Game} {m n : Machine} {frames : List ℕ} (h : HasCalls m frames) (s : HasStory g m)
    (f : HasHeader g m) (same : SameStory g m n) (bytes : (a : ℕ) → m.datap a < 256)
    (some_memory : 1 ≤ g.h_restart_size) where
  here : HasStory g n
  here = record {
    in_story = s.in_story;
    in_area = rw same.data_size_is s.in_area;
    small = s.small;
    story_has_bytes = λ a. rw same.story_is (s.story_has_bytes a);
  }

  abbrev memory : List ℕ
  memory = memory_bytes g m.story m.datap

  abbrev from_stacks : List ℕ
  from_stacks = stacks_part g m h

  abbrev from_memory : List ℕ
  from_memory = memory_part g m h

  abbrev from_header : List ℕ
  from_header = header_part g m h

  abbrev got : Bool → Bool → Bool → Progress
  got a b c = record { got_header = a; got_stack = b; got_memory = c }

  -- The last chunk.
  stacks-end :
      (fuel : ℕ) (k : Machine)
      → SameMemory m k
      → (n' : Machine) × Restores 0 m m.sp n'
        × (n'.fp ≡ m.fp)
        × (restore_chunks g
              (suc (suc fuel))
              (8 + length (stack_chunk h))
              (record { progress = got true false true; behind = from_stacks })
              k
            ≡ ok (some (record { progress = got true true true; behind = [] })) n')
  unfolding restore_chunk
  stacks-end fuel k r =
      let (even, short) = length-stack_chunk h in
      let size : ℕ = length (stack_chunk h) in
      let (n', r', e', runs) = restore_stacks-ok h (got true false true) [] k refl r in
      let end : 8 + size - 8 - size - size % 2 ≡ 0 = omega (arith, even) in
      let read : restore_chunk g (got true false true) id_stks size (stack_chunk h) k
          ≡ ok (some (record { progress = got true true true; behind = [] })) n' =
        ap (λ b. restore_stacks (got true false true) size b k) (sym (append_nil (stack_chunk h)))
        ∙ runs in
      let pad : drop (size % 2) [] ≡ [] = drop_nil (size % 2) in
      (
        n',
        r',
        e',
        ap (λ (run : M (Option Loaded)). run k)
              (restore_chunks-next g (suc fuel) (8 + size) _ (omega arith))
            ∙ next_chunk-ok g (8 + size) id_stks size (got true false true) (got true true true)
                (stack_chunk h) [] (restore_chunks g (suc fuel)) k n' (omega arith)
                (omega (arith, short)) (omega (arith, even)) read
            ∙ ap
                (λ left.
                  restore_chunks g (suc fuel) left
                    (record { progress = got true true true; behind = drop (size % 2) [] }) n')
                end
            ∙ ap
                (λ b.
                  restore_chunks g (suc fuel) 0
                    (record { progress = got true true true; behind = b }) n')
                pad
            ∙ ap (λ (run : M (Option Loaded)). run n') (restore_chunks-end g fuel _),
      )

  -- The memory is as that of `m` after the first two chunks.
  restored :
      (d : ℕ → ℕ)
      → UpTo m.datap n.datap g.h_restart_size d
      → SameMemory m (record n { pc = m.pc; datap = d })
  restored d u = record {
    type_is = same.type_is;
    data_size_is = same.data_size_is;
    datap_is = λ a inside. elim (Bool-cases (ltb a g.h_restart_size)) [
      | inl low ↦ u.done a (ltb→lt a g.h_restart_size low)
      | inr high ↦
          let above : g.h_restart_size ≤ a = ground arith in
          u.still a above ∙ same.static_is a above
    ];
    story_is = same.story_is;
    pc_is = refl;
  }

  abbrev padded : ℕ
  padded = padded_size g m

  -- The memory chunk and the last.
  memory-end :
      (fuel : ℕ)
      → (n' : Machine) × Restores 0 m m.sp n'
        × (n'.fp ≡ m.fp)
        × (restore_chunks g
              (suc (suc (suc fuel)))
              (8 + padded + (8 + length (stack_chunk h)))
              (record { progress = got true false false; behind = from_memory })
              (record n { pc = m.pc })
            ≡ ok (some (record { progress = got true true true; behind = [] })) n')
  memory-end fuel =
      let size : ℕ = length memory in
      let name : ℕ = if g.quetzal_use_umem then id_umem else id_cmem in
      let small : size ≤ g.h_restart_size * 2 = length-memory_bytes g m.story m.datap in
      let behind : List ℕ = (if size % 2 == 1 then 0 ∷ [] else []) ++ from_stacks in
      let k : Machine = record n { pc = m.pc } in
      let k_here : HasStory g k = record {
        in_story = here.in_story;
        in_area = here.in_area;
        small = here.small;
        story_has_bytes = here.story_has_bytes;
      } in
      let (d, u, runs) =
        restore_memory-ok k_here bytes (got true false false) behind refl some_memory in
      let (n', r', e', last) = stacks-end fuel (record k { datap = d }) (restored d u) in
      let total : ℕ = 8 + padded + (8 + length (stack_chunk h)) in
      let left : total - 8 - size - size % 2 ≡ 8 + length (stack_chunk h) = omega arith in
      let read : restore_chunk g (got true false false) name size (memory ++ behind) k
          ≡ ok (some (record { progress = got true false true; behind = behind }))
              (record k { datap = d }) =
        ap
          (λ story.
            restore_chunk g (got true false false) name (length (memory_bytes g story m.datap))
              (memory_bytes g story m.datap ++ behind) k)
          (sym same.story_is)
        ∙ runs in
      (
        n',
        r',
        e',
        ap (λ (run : M (Option Loaded)). run k)
              (restore_chunks-next g (suc (suc fuel)) total _ (omega arith))
            ∙ next_chunk-ok g total name size (got true false false) (got true false true)
                (memory ++ behind) behind (restore_chunks g (suc (suc fuel))) k
                (record k { datap = d }) (name_fits g.quetzal_use_umem)
                (omega (arith, small, s.small)) (omega arith) read
            ∙ ap
                (λ left.
                  restore_chunks g (suc (suc fuel)) left
                    (record { progress = got true false true; behind = drop (size % 2) behind })
                    (record k { datap = d }))
                left
            ∙ ap
                (λ b.
                  restore_chunks g (suc (suc fuel)) (8 + length (stack_chunk h))
                    (record { progress = got true false true; behind = b })
                    (record k { datap = d }))
                (drop_pad size from_stacks)
            ∙ last,
      )

  -- All chunks.
  chunks-end :
      (fuel : ℕ)
      → (n' : Machine) × Restores 0 m m.sp n'
        × (n'.fp ≡ m.fp)
        × (restore_chunks g
              (suc (suc (suc (suc fuel))))
              (22 + (8 + padded + (8 + length (stack_chunk h))))
              (record { progress = nothing_yet; behind = from_header })
              n
            ≡ ok (some (record { progress = got true true true; behind = [] })) n')
  unfolding restore_chunk restore_header
  chunks-end fuel =
      let (n', r', e', others) = memory-end fuel in
      let k : Machine = record n { pc = m.pc } in
      let rest : ℕ = 8 + padded + (8 + length (stack_chunk h)) in
      let fits : 24 ≤ n.data_size = rw same.data_size_is f.header_in_area in
      let read =
        restore_header-ok g nothing_yet from_memory m n refl f.version_fits f.checksum_fits
          f.pc_fits fits same.header_is in
      let left : 22 + rest - 8 - 13 - 1 ≡ rest = omega arith in
      (
        n',
        r',
        e',
        ap (λ (run : M (Option Loaded)). run n)
              (restore_chunks-next g (suc (suc (suc fuel))) (22 + rest) _ (omega arith))
            ∙ next_chunk-ok g (22 + rest) id_ifhd 13 nothing_yet (got true false false) _
                (0 ∷ from_memory) (restore_chunks g (suc (suc (suc fuel)))) n k (omega arith)
                (omega arith) (omega arith) read
            ∙ ap
                (λ left.
                  restore_chunks g (suc (suc (suc fuel))) left
                    (record { progress = got true false false; behind = from_memory }) k)
                left
            ∙ others,
      )

  abbrev form_size : ℕ
  form_size = form_size_of g m h

  restore_file :
      (n' : Machine) × Restores 0 m m.sp n'
      × (n'.fp ≡ m.fp)
      × (restore_quetzal g (file_of g m h) n ≡ ok true n')
  unfolding restore_quetzal
  restore_file =
      let (even, short) = length-stack_chunk h in
      let small : length memory ≤ g.h_restart_size * 2 = length-memory_bytes g m.story m.datap in
      let rest : ℕ = 8 + padded + (8 + length (stack_chunk h)) in
      let (n', r', e', runs) = chunks-end (rest + 23) in
      let fuel : form_size + 1 ≡ suc (suc (suc (suc (rest + 23)))) = omega arith in
      let left : form_size - 4 ≡ 22 + rest = omega arith in
      let full : form_size % 2 ≡ 0 = omega (arith, even) in
      let long : ltb form_size 4 ≡ false = le→not_ltb form_size 4 (omega arith) in
      let start : Loaded = record { progress = nothing_yet; behind = from_header } in
      let runs' : restore_chunks g (form_size + 1) (form_size - 4) start n
          ≡ ok (some (record { progress = got true true true; behind = [] })) n' =
        ap (λ k. restore_chunks g k (form_size - 4) start n) fuel
        ∙ ap (λ k. restore_chunks g (suc (suc (suc (suc (rest + 23))))) k start n) left
        ∙ runs in
      (
        n',
        r',
        e',
        ap (λ file. restore_quetzal g file n) (file_of-parts g m h)
            ∙ rw
                (
                  read_long-write_long id_form
                      (write_long form_size ++ (write_long id_ifzs ++ from_header)) (omega arith),
                  read_long-write_long form_size (write_long id_ifzs ++ from_header)
                      (omega (arith, short, small, s.small)),
                  read_long-write_long id_ifzs from_header (omega arith),
                  full,
                  long,
                  runs',
                )
                refl,
      )

-- A game that is saved is restored: `save_quetzal` writes a file with either kind of memory chunk, and
-- `restore_quetzal` accepts this file in any machine that runs the same story. It then has the program
-- counter, the stack pointer, the frame pointer, the stack and the data area of the saved machine,
-- and counts no frames. There are at most 256 calls on the stack, whose frames are as `z_call`
-- makes them, the words of the stack fit 16 bits, the data area has at least a page, and in version
-- 6 nothing is on the stack below the first call. The dynamic memory is not empty, and lies in the
-- data area and the story file, with less than 2^16 bytes; both have bytes. The release number and
-- the checksum are words and the program counter has 24 bits.
pub restore_quetzal-save_quetzal :
    (g : Game) (m n : Machine) {frames : List ℕ}
    → HasCalls m frames
    → HasStory g m
    → HasHeader g m
    → SameStory g m n
    → ((a : ℕ) → m.datap a < 256)
    → 1 ≤ g.h_restart_size
    → (file : List ℕ) × (n' : Machine) × (save_quetzal g m ≡ ok (some file) m)
      × (restore_quetzal g file n ≡ ok true n')
      × Restores 0 m m.sp n'
      × (n'.fp ≡ m.fp)
restore_quetzal-save_quetzal g m n h s f same bytes some_memory =
    let (n', r, e, runs) = restore_file h s f same bytes some_memory in
    (file_of g m h, n', save_quetzal-writes g m h s f.header_in_area, runs, r, e)
