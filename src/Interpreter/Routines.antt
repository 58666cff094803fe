-- ===== src/Interpreter/Routines.antt =====
-- The opcodes that print, read input, draw on the screen, or save and restore files, by the C
-- functions that perform them. They are an argument of the interpreter.
use jzip.Prelude.{ℕ}
use jzip.Machine.{M}

pub data Routine : Type 0 where
  z_save z_restore z_save_undo z_restore_undo z_restart z_verify : Routine
  z_set_font z_set_colour z_split_window z_set_window z_erase_window z_erase_line : Routine
  z_set_cursor z_set_text_style z_buffer_mode z_show_status : Routine
  z_output_stream z_input_stream sound : Routine
  z_print z_print_ret z_print_char z_print_num z_print_addr z_print_paddr z_print_obj : Routine
  z_print_table z_new_line : Routine
  z_sread_aread z_read_char z_tokenise z_encode : Routine

-- `perform` runs a routine on the count and the array of operands, into which some write; `random` is
-- the next number of the C library's generator.
pub record Outside : Type 0 where
  pub perform : Routine → ℕ → (ℕ → ℕ) → M (ℕ → ℕ)
  pub random : M ℕ
