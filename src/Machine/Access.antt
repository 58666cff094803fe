-- ===== src/Machine/Access.antt =====
-- Reads and writes of the memory areas. Each access is checked against its array's size, and is a
-- fault outside it.
use jzip.Prelude.{ℕ, ◌+◌, ◌-◌, ◌*◌, ◌/◌, ◌%◌, ◌∷◌, ltb, leb, ◌==◌, if◌then◌else◌, ◌||◌}
use jzip.Machine.Defs.{
  Machine, M, ok, fatal, fault, pure, ◌>>=◌, ◌>>◌, update, stack_size, page_size, ReportMode,
  report_never, report_once, report_always, report_fatal, strictz_error,
}

-- `get_byte( offset )`
unfoldable pub get_byte : ℕ → M ℕ
get_byte a m = if ltb a m.data_size then ok (m.datap a) m else fault

-- `set_byte( offset, value )`: the value is cut to a byte.
unfoldable pub set_byte : ℕ → ℕ → M (Unit {0})
set_byte a v m =
    if ltb a m.data_size then ok tt (record m { datap = update m.datap a (v % 256) }) else fault

-- `get_word( offset )`: the high byte comes first.
unfoldable pub get_word : ℕ → M ℕ
get_word a = do hi ← get_byte a; lo ← get_byte (a + 1); pure ((hi * 256 + lo) % 0x10000)

-- `set_word( offset, value )`
unfoldable pub set_word : ℕ → ℕ → M (Unit {0})
set_word a v = do set_byte a (v % 0x10000 / 256); set_byte (a + 1) (v % 256)

-- `read_code_byte`, with the page cache seen as the story file that it caches. Page 0 never enters
-- the translation buffer by a miss: what is read there is not determined by the story file.
unfoldable pub read_code_byte : M ℕ
read_code_byte m =
    if m.pc / page_size == 0 then fault else ok (m.story m.pc) (record m { pc = m.pc + 1 })

-- `read_code_word`
unfoldable pub read_code_word : M ℕ
read_code_word = do hi ← read_code_byte; lo ← read_code_byte; pure ((hi * 256 + lo) % 0x10000)

-- `read_data_byte`, with the address passed and returned: from the data area where it reaches, else
-- from the story file's page.
unfoldable pub read_data_byte : ℕ → M ℕ
read_data_byte a m =
    if ltb a m.data_size
    then ok (m.datap a) m
    else if a / page_size == 0
    then fault
    else ok (m.story a) m

-- `read_data_word`
unfoldable pub read_data_word : ℕ → M ℕ
read_data_word a = do
  hi ← read_data_byte a
  lo ← read_data_byte (a + 1)
  pure ((hi * 256 + lo) % 0x10000)

-- `stack[i]` and `stack[i] = v`
unfoldable pub stack_get : ℕ → M ℕ
stack_get i m = if ltb i stack_size then ok (m.stack i) m else fault

unfoldable pub stack_set : ℕ → ℕ → M (Unit {0})
stack_set i v m =
    if ltb i stack_size then ok tt (record m { stack = update m.stack i (v % 0x10000) }) else fault

-- `stack[--sp] = v`: below 0 the index wraps to 65535, outside the array.
unfoldable pub push : ℕ → M (Unit {0})
push v m = if m.sp == 0 then fault else stack_set (m.sp - 1) v (record m { sp = m.sp - 1 })

-- `stack[sp++]`
unfoldable pub pop : M ℕ
pop m = if ltb m.sp stack_size then ok (m.stack m.sp) (record m { sp = m.sp + 1 }) else fault

unfoldable pub count_error : ℕ → Machine → Machine
count_error errnum m = record m {
  strictz_error_count = update m.strictz_error_count errnum (m.strictz_error_count errnum + 1);
}

unfoldable pub print_warning : ℕ → Machine → Machine
print_warning errnum m = record m { warnings = errnum ∷ m.warnings }

-- `report_strictz_error` for a number that it knows; what it prints is kept as its number.
unfoldable pub report_by : ReportMode → ℕ → M (Unit {0})
unfolding count_error print_warning
report_by report_fatal errnum m = fatal strictz_error
report_by report_never errnum m = ok tt (count_error errnum m)
report_by report_always errnum m = ok tt (print_warning errnum (count_error errnum m))
report_by report_once errnum m =
    if m.strictz_error_count errnum == 0
    then ok tt (print_warning errnum (count_error errnum m))
    else ok tt (count_error errnum m)

unfoldable pub report_strictz_error : ℕ → M (Unit {0})
unfolding report_by
report_strictz_error errnum m =
    if errnum == 0 || leb 17 errnum then ok tt m else report_by m.strictz_report_mode errnum m
