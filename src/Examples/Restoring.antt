-- ===== src/Examples/Restoring.antt =====
-- The theorems on whole saved games, on the undo and on `z_verify` at a small story with one call on the stack.
use jzip.Prelude.{
  ◌-◌, ◌*◌, ◌%◌, ℕ, ◌≡◌, ◌⊎◌, refl, arith, true, false, if◌then◌else◌, ◌==◌, List, [], ◌∷◌, ◌++◌,
  replicate, length-replicate, some,
}
use jzip.Machine.{Machine, ok, fault}
use jzip.Quetzal.Save.{Game, save_quetzal, write_word}
use jzip.Quetzal.Restore.{nothing_yet, restore_quetzal, restore_stacks}
use jzip.Quetzal.Words.{Restores}
use jzip.Quetzal.Frames.{IsFrame}
use jzip.Quetzal.CallStack.{before_calls, call}
use jzip.Quetzal.StackChunk.{HasCalls}
use jzip.Quetzal.Memory.{HasStory}
use jzip.Quetzal.File.{HasHeader, SameStory}
use jzip.Quetzal.RoundTrip.{restore_quetzal-save_quetzal}
use jzip.Quetzal.Overflow.{restore_stacks-overflow}
use jzip.Checker.{exit_failure, running, Report, check_file, is_success}
use jzip.Checker.Saved.{check_file-save_quetzal}
use jzip.Checker.Ends.{check_file-ends}
use jzip.Undo.{Undo}
use jzip.Branch.{conditional_jump}
use jzip.Verify.{z_verify}
use jzip.Verify.Sum.{byte_sum, z_verify-byte_sum}
use jzip.Examples.{start}

-- Thirty bytes of dynamic memory.
abbrev game : Game
game = record {
  h_version = 7;
  h_checksum = 0x1234;
  h_restart_size = 30;
  quetzal_use_umem = false;
  story_size = 1000;
}

-- A function with one local and one argument was called, and has a word on the stack; a word was there
-- before the call.
abbrev saved : Machine
saved = record start {
  story = λ a. 0;
  datap = λ a. if a == 25 then 9 else 0;
  stack = λ i.
      if i == 1019
      then 0x101
      else if i == 1020
      then 1023
      else if i == 1021
      then 100
      else if i == 1022
      then 1
      else if i == 1023
      then 5
      else 77;
  sp = 1017;
  fp = 1018;
}

-- The same story elsewhere.
abbrev other : Machine
other = record saved {
  datap = λ a. if a == 26 then 8 else 0;
  stack = λ i. 0;
  sp = 1024;
  fp = 1023;
  pc = 2000;
}

frame : IsFrame saved 1017 1018
frame = record {
  nvars = 1;
  args = 1;
  procedure = false;
  few_vars = omega arith;
  few_args = omega arith;
  flags_are = refl;
  offset_fits = omega arith;
  address_fits = omega arith;
  some_cells = omega arith;
  cells_fit = omega arith;
  inside = omega arith;
}

calls : HasCalls saved (1018 ∷ [])
calls = record {
  calls = call frame (before_calls (omega arith) (omega arith));
  few = omega arith;
  words = λ i. ground arith;
  paged = omega arith;
  no_dummy = λ e. absurd (omega (arith, e));
}

has_story : HasStory game saved
has_story = record {
  in_story = omega arith;
  in_area = omega arith;
  small = omega arith;
  story_has_bytes = λ a. omega arith;
}

has_header : HasHeader game saved
has_header = record {
  version_fits = omega arith;
  checksum_fits = omega arith;
  pc_fits = omega arith;
  header_in_area = omega arith;
}

same_story : SameStory game saved other
same_story = record {
  type_is = refl;
  data_size_is = refl;
  story_is = refl;
  header_is = λ a low high. ground arith;
  static_is = λ a above. ground arith;
}

restore_quetzal-save_quetzal_example :
    (file : List ℕ) × (n' : Machine) × (save_quetzal game saved ≡ ok (some file) saved)
    × (restore_quetzal game file other ≡ ok true n')
    × Restores 0 saved 1017 n'
    × (n'.fp ≡ 1018)
restore_quetzal-save_quetzal_example =
    restore_quetzal-save_quetzal game saved other calls has_story has_header same_story
      (λ a. ground arith) (omega arith)

check_file-save_quetzal_example :
    (file : List ℕ) × (r : Report) × (save_quetzal game saved ≡ ok (some file) saved)
    × (check_file file ≡ running r)
    × (r.warnings ≡ 0)
    × (is_success r ≡ true)
check_file-save_quetzal_example = check_file-save_quetzal game saved calls has_story has_header

check_file-ends_example :
    (check_file (0x46 ∷ []) ≡ exit_failure) ⊎ ((r : Report) × (check_file (0x46 ∷ []) ≡ running r))
check_file-ends_example = check_file-ends (0x46 ∷ [])

abbrev many_words : List ℕ
many_words = replicate 2050 0

restore_stacks-overflow_example :
    restore_stacks nothing_yet 2058 (0 ∷ 0 ∷ 0 ∷ 0 ∷ 0 ∷ 0 ∷ (write_word 1025 ++ many_words)) start
    ≡ fault
restore_stacks-overflow_example =
    restore_stacks-overflow nothing_yet 2058 1025 many_words start refl (λ e. cc) (omega arith)
      (omega arith) (omega arith) (omega (arith, length-replicate {A = ℕ} 2050 0))

abbrev no_undo : Undo
no_undo = record { undo_datap = some (λ a. 0); undo_valid = false; undo_stack = λ i. 0 }

z_verify-byte_sum_example :
    z_verify game 400 saved
    ≡ conditional_jump (byte_sum (400 * 2 - 64) 64 (λ a. 0) % 0x10000 == 0x1234) saved
z_verify-byte_sum_example = z_verify-byte_sum game 400 saved (omega arith)
