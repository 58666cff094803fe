-- ===== src/Control.antt =====
-- Routine calls (control.c): `z_call`, `z_catch` and `z_throw`. `z_ret` stands in Return.antt,
-- `z_jump` and `z_check_arg_count` in Branch.antt.
pub mod Frames
pub mod Locals
pub mod Throw
use jzip.Prelude.{
  ℕ, zero, suc, ◌+◌, ◌-◌, ◌*◌, ◌/◌, ◌%◌, bit_or, true, List, [], ◌∷◌, length, ltb, ◌==◌,
  if◌then◌else◌,
}
use jzip.Machine.{
  Machine, M, ok, fatal, fault, pure, ◌>>=◌, ◌>>◌, when, read_code_byte, read_code_word, stack_get,
  stack_set, push, page_size, nonexistent_frame,
}
use jzip.Operand.{store_operand}
use jzip.Return.{call_function, call_async, z_ret, set_sp}

-- `stack[--sp] = ( --argc > 0 ) ? argv[i++] : arg`, with the arguments that are left.
unfoldable pub push_value : List ℕ → ℕ → M (List ℕ)
push_value [] arg = do push arg; pure []
push_value (v ∷ rest) arg = do push v; pure rest

-- One round of the loop over the local variables: the default, in the code up to V4, is read also
-- where an argument replaces it.
unfoldable pub push_local : List ℕ → M (List ℕ)
unfolding push_value
push_local argv m =
    (do arg ← (if ltb 4 m.h_type then pure 0 else read_code_word); push_value argv arg) m

-- `while ( --args >= 0 )`: `argv` holds the arguments that are not used yet.
unfoldable pub push_locals : ℕ → List ℕ → M (Unit {0})
push_locals zero argv = pure tt
push_locals (suc args) argv = do rest ← push_local argv; push_locals args rest

-- `fp`, `pc` and the frame count of the new routine.
unfoldable pub enter_frame : ℕ → M (Unit {0})
enter_frame routine m = ok tt (record m {
  fp = (m.sp + 0xffff) % 0x10000;
  pc = routine * m.story_scaler;
  frame_count = (m.frame_count + 1) % 0x10000;
})

-- `stack[sp] |= args << VAR_SHIFT`
unfoldable pub note_vars : ℕ → M (Unit {0})
note_vars args m = (do info ← stack_get m.sp; stack_set m.sp (bit_or info (args * 256))) m

abbrev resume : M (Unit {0})
resume m = ok tt (record m { running = true; interpreter_status = 1 })

-- The operands are the routine and its arguments; `argc` is their number. `interpret` is the
-- interpreter's loop, which an async call runs until the routine returns. With no operand the code reads
-- an operand that an earlier instruction left, or that was never set: here a fault.
unfoldable pub z_call : M ℕ → List ℕ → ℕ → M ℕ
unfolding push_local push_locals enter_frame note_vars
z_call interpret [] type m = fault
z_call interpret (routine ∷ argv) type m =
    if routine == 0
    then (do when (type == call_function) (store_operand 0); pure 0) m
    else (do
      push (m.pc / page_size)
      push (m.pc % page_size)
      push m.fp
      push (bit_or (length argv) type)
      enter_frame routine
      args ← read_code_byte
      note_vars args
      push_locals args argv
      if type == call_async then (do status ← interpret; resume; pure status) else pure 0)
        m

pub z_catch : M (Unit {0})
z_catch m = if ltb 4 m.h_type then store_operand m.frame_count m else set_sp (m.sp + 1) m

unfoldable pub relink : ℕ → M (Unit {0})
relink old_fp m = ok tt (record m { fp = old_fp; frame_count = (m.frame_count + 0xffff) % 0x10000 })

-- One frame is dropped: `sp = fp + 1; fp = stack[sp + 1]; --frame_count`
unfoldable pub drop_frame : M (Unit {0})
unfolding relink
drop_frame m =
    (do set_sp (m.fp + 1); old_fp ← stack_get ((m.fp + 1) % 0x10000 + 1); relink old_fp) m

-- The loop drops one frame in each round, so its rounds are the frames above the one thrown to.
unfoldable pub drop_frames : ℕ → M (Unit {0})
unfolding drop_frame
drop_frames zero = pure tt
drop_frames (suc n) = do drop_frame; drop_frames n

unfoldable pub z_throw : ℕ → ℕ → M (Unit {0})
unfolding drop_frames
z_throw value new_fp m =
    if ltb m.fp new_fp
    then fatal nonexistent_frame
    else (do drop_frames (m.frame_count - new_fp); z_ret value) m
