-- ===== src/Quetzal/File.antt =====
-- The file that `save_quetzal` writes, and its parts.
use jzip.Prelude.{
  append_assoc, ℕ, ◌+◌, ◌*◌, ◌%◌, ◌<◌, ◌≤◌, ◌≡◌, refl, arith, Bool, true, false, ◌==◌,
  if◌then◌else◌, some, List, [], ◌∷◌, ◌++◌, length,
}
use jzip.Machine.{Machine, ok}
use jzip.Quetzal.Save.{
  save_quetzal, Game, write_word, write_long, write_chnk, file_bytes, write_file, id_form, id_ifzs,
  id_ifhd, id_umem, id_cmem, id_stks,
}
use jzip.Quetzal.Memory.{HasStory}
use jzip.Quetzal.StackChunk.{HasCalls, stack_chunk, write_stacks-ok}
use jzip.Quetzal.Chunks.{memory_bytes, get_bytes-ok, write_memory-ok}

pub write_chnk-apart :
    (name currlen : ℕ) (body : List ℕ)
    → write_chnk name currlen ++ body ≡ write_long name ++ (write_long currlen ++ body)
unfolding write_chnk
write_chnk-apart name currlen body = append_assoc (write_long name) (write_long currlen) body

pub name_fits : (umem : Bool) → (if umem then id_umem else id_cmem) < 0x100000000
name_fits true = omega arith
name_fits false = omega arith

-- The file that is written.
abbrev pub file_of : Game → (m : Machine) → {frames : List ℕ} → HasCalls m frames → List ℕ
file_of g m h =
    write_file g m.pc (file_bytes 6 18 m.datap) (memory_bytes g m.story m.datap) (stack_chunk h)

-- The file from each of the chunks on.
module _ (g : Game) (m : Machine) {frames : List ℕ} (h : HasCalls m frames) where
  abbrev pub stacks_part : List ℕ
  stacks_part = write_chnk id_stks (length (stack_chunk h)) ++ stack_chunk h

  abbrev pub memory_part : List ℕ
  memory_part =
      let memory : List ℕ = memory_bytes g m.story m.datap in
      write_chnk (if g.quetzal_use_umem then id_umem else id_cmem) (length memory)
      ++ (memory ++ ((if length memory % 2 == 1 then 0 ∷ [] else []) ++ stacks_part))

  abbrev pub header_part : List ℕ
  header_part =
      write_chnk id_ifhd 13
      ++ (write_word g.h_version
          ++ (file_bytes 6 18 m.datap
              ++ (write_word g.h_checksum ++ (write_long (m.pc * 0x100) ++ memory_part))))

abbrev pub padded_size : Game → Machine → ℕ
padded_size g m =
    length (memory_bytes g m.story m.datap) + length (memory_bytes g m.story m.datap) % 2

abbrev pub form_size_of : (g : Game) (m : Machine) {frames : List ℕ} → HasCalls m frames → ℕ
form_size_of g m h = 26 + (8 + padded_size g m + (8 + length (stack_chunk h)))

pub file_of-parts :
    (g : Game) (m : Machine) {frames : List ℕ} (h : HasCalls m frames)
    → file_of g m h
      ≡ write_long id_form
        ++ (write_long (form_size_of g m h) ++ (write_long id_ifzs ++ header_part g m h))
unfolding write_file
file_of-parts g m h =
    let memory : List ℕ = memory_bytes g m.story m.datap in
    let size : 3 * 8 + 4 + 14 + length memory + length (stack_chunk h) + length memory % 2
        ≡ form_size_of g m h =
      omega arith in
    rw size
      (write_chnk-apart id_form (form_size_of g m h) (write_long id_ifzs ++ header_part g m h))

-- A game whose header fits the file's fields.
pub record HasHeader (g : Game) (m : Machine) : Type 0 where
  pub version_fits : g.h_version < 0x10000
  pub checksum_fits : g.h_checksum < 0x10000
  pub pc_fits : m.pc < 0x1000000
  pub header_in_area : 24 ≤ m.data_size

-- A machine that runs the same story: outside the dynamic memory, and where the release and the serial
-- number are, its data area is that of `m`.
pub record SameStory (g : Game) (m n : Machine) : Type 0 where
  pub type_is : n.h_type ≡ m.h_type
  pub data_size_is : n.data_size ≡ m.data_size
  pub story_is : n.story ≡ m.story
  pub header_is : (a : ℕ) → 18 ≤ a → a < 24 → n.datap a ≡ m.datap a
  pub static_is : (a : ℕ) → g.h_restart_size ≤ a → n.datap a ≡ m.datap a

pub save_quetzal-writes :
    (g : Game) (m : Machine) {frames : List ℕ} (h : HasCalls m frames)
    → HasStory g m
    → 24 ≤ m.data_size
    → save_quetzal g m ≡ ok (some (file_of g m h)) m
unfolding save_quetzal
save_quetzal-writes g m h s fits =
    rw (get_bytes-ok 6 18 m fits, write_memory-ok g m s, write_stacks-ok h) refl
