-- ===== src/Interpreter/Switch.antt =====
-- The switches of `interpret` over the opcodes of its four classes.
use jzip.Prelude.{ℕ, zero, suc, ◌+◌, true, ltb, ◌==◌, if◌then◌else◌, List, [], ◌∷◌, ◌++◌}
use jzip.Machine.{M, ok, fatal, illegal_instruction, pure, ◌>>=◌, ◌>>◌, update, pop}
use jzip.Operand.{z_store, z_load, z_push, z_pull, z_inc, z_dec}
use jzip.Return.{call_function, call_procedure, z_ret}
use jzip.Branch.{z_piracy, z_jump, z_check_arg_count}
use jzip.Control.{z_call, z_catch, z_throw}
use jzip.Math.{
  z_add, z_sub, z_mul, z_div, z_mod, z_log_shift, z_art_shift, z_or, z_not, z_and, z_random, z_test,
  z_jz, z_je, z_jl, z_jg, z_inc_chk, z_dec_chk,
}
use jzip.Objects.{
  z_insert_obj, z_remove_obj, z_get_parent, z_get_child, z_get_sibling, z_jin, z_test_attr,
  z_set_attr, z_clear_attr,
}
use jzip.Property.{z_get_prop, z_put_prop, z_get_next_prop, z_get_prop_addr, z_get_prop_len}
use jzip.Table.{z_scan_table, z_copy_table, z_loadw, z_loadb, z_storew, z_storeb}
use jzip.Interpreter.Routines.{
  Outside, Routine, z_save, z_restore, z_save_undo, z_restore_undo, z_restart, z_verify, z_set_font,
  z_set_colour, z_split_window, z_set_window, z_erase_window, z_erase_line, z_set_cursor,
  z_set_text_style, z_buffer_mode, z_show_status, z_output_stream, z_input_stream, sound, z_print,
  z_print_ret, z_print_char, z_print_num, z_print_addr, z_print_paddr, z_print_obj, z_print_table,
  z_new_line, z_sread_aread, z_read_char, z_tokenise, z_encode,
}
use jzip.Interpreter.Loading.{Operands}

-- What a case of a switch does; it leaves the array of operands.
abbrev pub Case : Type 0
Case = M (ℕ → ℕ)

-- `default: fatal( … )`
abbrev pub illegal : Case
illegal m = fatal illegal_instruction

unfoldable pub switch : ℕ → List (ℕ × Case) → Case
switch opcode [] = illegal
switch opcode ((label, action) ∷ cases) = if label == opcode then action else switch opcode cases

-- The operands from `operand[i]` on, `n` of them.
abbrev pub arguments : ℕ → ℕ → (ℕ → ℕ) → List ℕ
arguments zero i operand = []
arguments (suc n) i operand = operand i ∷ arguments n (i + 1) operand

module _ (o : Operands) where
  -- A case that does not write into the array.
  abbrev does : M (Unit {0}) → Case
  does action = do action; pure o.operand

module _ (outside : Outside) (o : Operands) where
  abbrev io : Routine → Case
  io routine = outside.perform routine o.count o.operand

  abbrev pub extended_cases : List (ℕ × Case)
  extended_cases =
      (0x00, io z_save)
      ∷ (0x01, io z_restore)
      ∷ (0x02, does o (z_log_shift (o.operand 0) (o.operand 1)))
      ∷ (0x03, does o (z_art_shift (o.operand 0) (o.operand 1)))
      ∷ (0x04, io z_set_font)
      ∷ (0x09, io z_save_undo)
      ∷ (0x0a, io z_restore_undo)
      ∷ []

  abbrev pub zero_cases : List (ℕ × Case)
  zero_cases =
      (0x00, does o (z_ret 1))
      ∷ (0x01, does o (z_ret 0))
      ∷ (0x02, io z_print)
      ∷ (0x03, io z_print_ret)
      ∷ (0x04, pure o.operand)
      ∷ (0x05, none z_save)
      ∷ (0x06, none z_restore)
      ∷ (0x07, io z_restart)
      ∷ (0x08, does o (do value ← pop; z_ret value))
      ∷ (0x09, does o z_catch)
      ∷ (0x0a, λ m. ok o.operand (record m { halt = true }))
      ∷ (0x0b, io z_new_line)
      ∷ (0x0c, io z_show_status)
      ∷ (0x0d, io z_verify)
      ∷ (0x0f, does o (z_piracy true))
      ∷ []
    where
      -- A call with zeros for its arguments.
      none : Routine → Case
      none routine = do array ← outside.perform routine 0 (λ i. 0); pure o.operand

module _ (outside : Outside) (interpret : M ℕ) (o : Operands) where
  abbrev call : ℕ → Case
  call type = do status ← z_call interpret (arguments o.count 0 o.operand) type; pure o.operand

  abbrev pub two_cases : List (ℕ × Case)
  two_cases =
      (0x01, does o (z_je (arguments o.count 0 o.operand)))
      ∷ (0x02, does o (z_jl (o.operand 0) (o.operand 1)))
      ∷ (0x03, does o (z_jg (o.operand 0) (o.operand 1)))
      ∷ (0x04, does o (z_dec_chk (o.operand 0) (o.operand 1)))
      ∷ (0x05, does o (z_inc_chk (o.operand 0) (o.operand 1)))
      ∷ (0x06, does o (z_jin (o.operand 0) (o.operand 1)))
      ∷ (0x07, does o (z_test (o.operand 0) (o.operand 1)))
      ∷ (0x08, does o (z_or (o.operand 0) (o.operand 1)))
      ∷ (0x09, does o (z_and (o.operand 0) (o.operand 1)))
      ∷ (0x0a, does o (z_test_attr (o.operand 0) (o.operand 1)))
      ∷ (0x0b, does o (z_set_attr (o.operand 0) (o.operand 1)))
      ∷ (0x0c, does o (z_clear_attr (o.operand 0) (o.operand 1)))
      ∷ (0x0d, does o (z_store (o.operand 0) (o.operand 1)))
      ∷ (0x0e, does o (z_insert_obj (o.operand 0) (o.operand 1)))
      ∷ (0x0f, does o (z_loadw (o.operand 0) (o.operand 1)))
      ∷ (0x10, does o (z_loadb (o.operand 0) (o.operand 1)))
      ∷ (0x11, does o (z_get_prop (o.operand 0) (o.operand 1)))
      ∷ (0x12, does o (z_get_prop_addr (o.operand 0) (o.operand 1)))
      ∷ (0x13, does o (z_get_next_prop (o.operand 0) (o.operand 1)))
      ∷ (0x14, does o (z_add (o.operand 0) (o.operand 1)))
      ∷ (0x15, does o (z_sub (o.operand 0) (o.operand 1)))
      ∷ (0x16, does o (z_mul (o.operand 0) (o.operand 1)))
      ∷ (0x17, does o (z_div (o.operand 0) (o.operand 1)))
      ∷ (0x18, does o (z_mod (o.operand 0) (o.operand 1)))
      ∷ (0x19, call call_function)
      ∷ (0x1a, call call_procedure)
      ∷ (0x1b, io outside o z_set_colour)
      ∷ (0x1c, does o (z_throw (o.operand 0) (o.operand 1)))
      ∷ []

  abbrev pub multiple_cases : List (ℕ × Case)
  multiple_cases =
      (0x20, call call_function)
      ∷ (0x21, does o (z_storew (o.operand 0) (o.operand 1) (o.operand 2)))
      ∷ (0x22, does o (z_storeb (o.operand 0) (o.operand 1) (o.operand 2)))
      ∷ (0x23, does o (z_put_prop (o.operand 0) (o.operand 1) (o.operand 2)))
      ∷ (0x24, io outside o z_sread_aread)
      ∷ (0x25, io outside o z_print_char)
      ∷ (0x26, io outside o z_print_num)
      ∷ (0x27, does o (do next ← outside.random; z_random next (o.operand 0)))
      ∷ (0x28, does o (z_push (o.operand 0)))
      ∷ (0x29, does o (z_pull (o.operand 0)))
      ∷ (0x2a, io outside o z_split_window)
      ∷ (0x2b, io outside o z_set_window)
      ∷ (0x2c, call call_function)
      ∷ (0x2d, io outside o z_erase_window)
      ∷ (0x2e, io outside o z_erase_line)
      ∷ (0x2f, io outside o z_set_cursor)
      ∷ (0x31, io outside o z_set_text_style)
      ∷ (0x32, io outside o z_buffer_mode)
      ∷ (0x33, io outside o z_output_stream)
      ∷ (0x34, io outside o z_input_stream)
      ∷ (0x35, io outside o sound)
      ∷ (0x36, io outside o z_read_char)
      ∷ (0x37, scan_table)
      ∷ (0x38, does o (z_not (o.operand 0)))
      ∷ (0x39, call call_procedure)
      ∷ (0x3a, call call_procedure)
      ∷ (0x3b, io outside o z_tokenise)
      ∷ (0x3c, io outside o z_encode)
      ∷ (0x3d, does o (z_copy_table (o.operand 0) (o.operand 1) (o.operand 2)))
      ∷ (0x3e, io outside o z_print_table)
      ∷ (0x3f, does o (z_check_arg_count (o.operand 0)))
      ∷ []
    where
      -- `z_scan_table` writes the form that it supplies into the array.
      scan_table : Case
      scan_table = do
        z_scan_table o.count (o.operand 0) (o.operand 1) (o.operand 2) (o.operand 3)
        pure (if ltb o.count 4 then update o.operand 3 0x82 else o.operand)

  abbrev pub one_cases : ℕ → List (ℕ × Case)
  one_cases h_type =
      (0x00, does o (z_jz (o.operand 0)))
      ∷ (0x01, does o (z_get_sibling (o.operand 0)))
      ∷ (0x02, does o (z_get_child (o.operand 0)))
      ∷ (0x03, does o (z_get_parent (o.operand 0)))
      ∷ (0x04, does o (z_get_prop_len (o.operand 0)))
      ∷ (0x05, does o (z_inc (o.operand 0)))
      ∷ (0x06, does o (z_dec (o.operand 0)))
      ∷ (0x07, io outside o z_print_addr)
      ∷ (0x08, call_one call_function)
      ∷ (0x09, does o (z_remove_obj (o.operand 0)))
      ∷ (0x0a, io outside o z_print_obj)
      ∷ (0x0b, does o (z_ret (o.operand 0)))
      ∷ (0x0c, does o (z_jump (o.operand 0)))
      ∷ (0x0d, io outside o z_print_paddr)
      ∷ (0x0e, does o (z_load (o.operand 0)))
      ∷ (0x0f, if ltb 4 h_type then call_one call_procedure else does o (z_not (o.operand 0)))
      ∷ []
    where
      call_one : ℕ → Case
      call_one type = do status ← z_call interpret (o.operand 0 ∷ []) type; pure o.operand

unfoldable pub execute_extended : Outside → ℕ → Operands → Case
unfolding switch
execute_extended outside opcode o = switch opcode (extended_cases outside o)

unfoldable pub execute_two : Outside → M ℕ → ℕ → Operands → Case
unfolding switch
execute_two outside interpret opcode o =
    switch opcode (two_cases outside interpret o ++ multiple_cases outside interpret o)

unfoldable pub execute_one : Outside → M ℕ → ℕ → Operands → Case
unfolding switch
execute_one outside interpret opcode o m = switch opcode (one_cases outside interpret o m.h_type) m

unfoldable pub execute_zero : Outside → ℕ → (ℕ → ℕ) → Case
unfolding switch
execute_zero outside opcode operand =
    switch opcode (zero_cases outside (record { count = 0; operand = operand }))
