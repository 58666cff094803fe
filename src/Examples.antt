-- ===== src/Examples.antt =====
-- The theorems at concrete machines, and runs of the code on them.
pub mod Tree
pub mod Tables
pub mod Saves
pub mod Words
pub mod Paging
pub mod Printing
pub mod Restoring
use jzip.Prelude.{
  ℕ, ◌≡◌, ◌≢◌, refl, arith, ltb, ◌==◌, if◌then◌else◌, inr, List, [], ◌∷◌, get_elem?, some, bit_and,
  true, false, not, ◌&&◌, ◌||◌, ◌<◌, ◌≤◌,
}
use jzip.Prelude.Int.{negsuc, ◌/ℤ◌, ◌%ℤ◌, neg_ℤ, to_word, signed}
use jzip.Machine.{Machine, ok, fault, pure, ◌>>◌, report_once, report_strictz_error}
use jzip.Operand.{z_store, load_variable, store_operand, z_inc, z_dec}
use jzip.Operand.Laws.{HasCell, load_variable-z_store, z_dec-z_inc}
use jzip.Return.{z_ret}
use jzip.Branch.{conditional_jump}
use jzip.Branch.Laws.{read_branch, take_branch, advance, conditional_jump-take_branch}
use jzip.Control.{z_call, z_throw}
use jzip.Control.Frames.{HasFrame, CanCall, Called, z_call-Called, z_ret-z_call}
use jzip.Control.Throw.{z_throw-z_ret}
use jzip.Math.{z_div, z_mod, z_je, z_test, z_jl, z_jg}
use jzip.Math.Divide.{z_div-truncates, z_div_lowest, z_mod-truncates}
use jzip.Math.Compare.{z_je_any, z_test_bits, z_jl-z_jg}
use jzip.Objects.{
  Field, parent, next, z_remove_obj, z_insert_obj, z_test_attr, z_set_attr, z_clear_attr,
}
use jzip.Objects.Links.{InTable, link}
use jzip.Objects.Chain.{erase}
use jzip.Objects.Unlink.{Children}
use jzip.Objects.Tree.{Unmoved, z_remove_obj-erase}
use jzip.Objects.Move.{Inserted, z_insert_obj-front}
use jzip.Objects.Between.{z_insert_obj-between}
use jzip.Objects.Attributes.{attribute, IsAttribute}
use jzip.Objects.Flags.{z_test_attr-z_set_attr, z_test_attr-z_clear_attr}

-- A version 3 story whose code has a branch at 600 and a routine with two locals at 700.
abbrev story : ℕ → ℕ
story a =
    if a == 600
    then 0xbf
    else if a == 601
    then 0xf0
    else if a == 700
    then 2
    else if a == 702
    then 7
    else if a == 704
    then 9
    else 0

abbrev start : Machine
start = record {
  h_type = 3;
  h_objects_offset = 100;
  h_globals_offset = 64;
  story_scaler = 2;
  property_mask = 31;
  property_size_mask = 0;
  story = story;
  data_size = 512;
  datap = λ a. 0;
  stack = λ i. i;
  sp = 1000;
  fp = 1003;
  frame_count = 2;
  pc = 600;
  running = true;
  interpreter_status = 1;
  halt = false;
  h_words_offset = 400;
  h_synonyms_offset = 40;
  lookup_table = λ i j. j;
  strictz_report_mode = report_once;
  strictz_error_count = λ e. 0;
  warnings = [];
}

z_div-truncates_example :
    z_div 0xfff9 2 start ≡ store_operand (to_word (signed 0xfff9 /ℤ signed 2)) start
z_div-truncates_example =
    z_div-truncates 0xfff9 2 start (omega arith) (omega arith) (omega arith) (inr (omega arith))

minus_seven_by_two : to_word (signed 0xfff9 /ℤ signed 2) ≡ 0xfffd
unfolding to_word signed
minus_seven_by_two = refl

z_div_lowest_example :
    z_div 0x8000 0xfffe start
    ≡ store_operand (to_word (neg_ℤ (signed 0x8000 /ℤ signed 0xfffe))) start
z_div_lowest_example = z_div_lowest 0xfffe start (omega arith) (omega arith)

z_mod-truncates_example :
    z_mod 0xfff9 2 start ≡ store_operand (to_word (signed 0xfff9 %ℤ signed 2)) start
z_mod-truncates_example = z_mod-truncates 0xfff9 2 start (omega arith) (omega arith) (omega arith)

local_two : HasCell 2 start
local_two = record {
  on_stack = λ h. (omega arith, omega arith);
  global = λ h. absurd (omega arith);
}

global_twenty : HasCell 20 start
global_twenty = record { on_stack = λ h. absurd (omega arith); global = λ h. omega arith }

load_variable-z_store_example :
    (m' : Machine) × (z_store 20 0x12345 start ≡ ok tt m')
    × (load_variable 20 m' ≡ ok 0x2345 m')
    × (load_variable 2 m' ≡ ok 1002 m')
load_variable-z_store_example =
    load_variable-z_store 20 2 0x12345 start global_twenty local_two (omega arith)
      (λ h k. absurd (omega arith))

-- The bytes 0xbf 0xf0 branch on true, 16 back from the byte two before the next instruction.
back_sixteen : take_branch (negsuc 15) (advance 2 start) ≡ ok tt (record start { pc = 584 })
unfolding take_branch
back_sixteen = refl

conditional_jump-take_branch_example :
    conditional_jump true start
    ≡ take_branch (read_branch 0xbf 0xf0).offset (advance (read_branch 0xbf 0xf0).size start)
conditional_jump-take_branch_example =
    conditional_jump-take_branch true start (omega arith) (omega arith) (omega arith) (omega arith)
      (unfold read_branch in omega arith)

can_call : CanCall 350 (5 ∷ []) start
can_call = record {
  routine_ne = omega arith;
  code = omega arith;
  vars = omega arith;
  args = omega arith;
  room = omega arith;
  bound = omega arith;
  pc_fits = omega arith;
  fp_fits = omega arith;
}

z_call-Called_example :
    (m' : Machine) × (z_call (pure 0) (350 ∷ 5 ∷ []) 0x1000 start ≡ ok 0 m')
    × Called 0x1000 350 (5 ∷ []) start m'
z_call-Called_example = z_call-Called (pure 0) 350 (5 ∷ []) 1 start can_call (omega arith)

called : HasFrame 0x1000 1 2 start (record start {
  fp = 995;
  stack = λ i.
      if i == 996
      then 0x1201
      else if i == 997
      then 1003
      else if i == 998
      then 88
      else if i == 999
      then 1
      else i;
})
called = record {
  room = refl;
  info = refl;
  saved_fp = refl;
  saved_offset = refl;
  saved_page = refl;
}

z_ret-z_call_example :
    z_ret 9 (record start {
      fp = 995;
      stack = λ i.
          if i == 996
          then 0x1201
          else if i == 997
          then 1003
          else if i == 998
          then 88
          else if i == 999
          then 1
          else i;
    })
    ≡ ok tt (record start {
      frame_count = 1;
      stack = λ i.
          if i == 996
          then 0x1201
          else if i == 997
          then 1003
          else if i == 998
          then 88
          else if i == 999
          then 1
          else i;
    })
z_ret-z_call_example =
    z_ret-z_call 9 1 1 2 called (omega arith) (omega arith) (omega arith) (omega arith)

z_throw-z_ret_example :
    z_throw 9 1 (record start { fp = 990; frame_count = 2; stack = λ i. 1003 })
    ≡ z_ret 9 (record start { fp = 1003; frame_count = 1; stack = λ i. 1003 })
z_throw-z_ret_example =
    z_throw-z_ret 1 9 1003 (record start { fp = 990; frame_count = 2; stack = λ i. 1003 })
      (omega arith, refl) (omega arith)

z_dec-z_inc_example :
    (m' : Machine) × ((z_inc 2 >> z_dec 2) start ≡ ok tt m') × (load_variable 2 m' ≡ ok 1002 m')
z_dec-z_inc_example = z_dec-z_inc 2 start local_two (omega arith)
