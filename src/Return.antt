-- ===== src/Return.antt =====
-- `z_ret` of control.c, apart from its siblings because the branch of every test may return.
use jzip.Prelude.{ℕ, ◌+◌, ◌*◌, ◌%◌, bit_and, false, ◌==◌, if◌then◌else◌}
use jzip.Machine.{M, ok, ◌>>=◌, ◌>>◌, pop, page_size}
use jzip.Operand.{store_operand}

-- The call types, and the fields of a frame's word of argument count, variable count and type.
abbrev pub call_function : ℕ
call_function = 0

abbrev pub call_procedure : ℕ
call_procedure = 0x1000

abbrev pub call_async : ℕ
call_async = 0x2000

abbrev pub args_mask : ℕ
args_mask = 0xff

abbrev pub vars_mask : ℕ
vars_mask = 0xf00

abbrev pub type_mask : ℕ
type_mask = 0xf000

abbrev pub set_sp : ℕ → M (Unit {0})
set_sp i m = ok tt (record m { sp = i % 0x10000 })

-- `fp`, `pc` and the frame count after the frame's words are popped.
unfoldable pub leave_frame : ℕ → ℕ → M (Unit {0})
leave_frame old_fp pc m =
    ok tt (record m { fp = old_fp; pc = pc; frame_count = (m.frame_count + 0xffff) % 0x10000 })

-- An async frame stops the interpreter with the value, a function's frame stores it.
unfoldable pub finish_return : ℕ → ℕ → M (Unit {0})
finish_return type value m =
    if type == call_async
    then ok tt (record m { running = false; interpreter_status = value })
    else if type == call_function
    then store_operand value m
    else ok tt m

unfoldable pub z_ret : ℕ → M (Unit {0})
unfolding leave_frame finish_return
z_ret value m =
    (do
      set_sp (m.fp + 1)
      argc ← pop
      old_fp ← pop
      offset ← pop
      page ← pop
      leave_frame old_fp (offset + page * page_size)
      finish_return (bit_and argc type_mask) value)
      m
