-- ===== src/Machine/Laws.antt =====
-- What an access does where it is in range, for rewriting; and words stored as two bytes.
use jzip.Prelude.{ℕ, ◌+◌, ◌-◌, ◌*◌, ◌/◌, ◌%◌, ◌≤◌, ◌<◌, ◌≡◌, arith}
use jzip.Prelude.{◌≢◌, refl, ◌||◌, leb, ◌==◌, Bool-cases, inl, inr}
use jzip.Machine.Access.{report_by, report_strictz_error, count_error, print_warning}
use jzip.Machine.Defs.{
  ReportMode, report_never, report_once, report_always, report_fatal, Machine, ok, update,
  stack_size,
}
use jzip.Machine.Access.{
  get_byte, set_byte, get_word, set_word, read_code_byte, stack_get, stack_set, push, pop,
}

-- Each cell of the data area and of the story file holds a byte, each cell of the stack a word.
pub record IsTyped (m : Machine) : Type 0 where
  pub data_bytes : (a : ℕ) → m.datap a < 256
  pub story_bytes : (a : ℕ) → m.story a < 256
  pub stack_words : (i : ℕ) → m.stack i < 0x10000

pub get_byte-ok : (a : ℕ) (m : Machine) → a < m.data_size → get_byte a m ≡ ok (m.datap a) m
unfolding get_byte
get_byte-ok a m h = ground arith

pub set_byte-ok :
    (a v : ℕ) (m : Machine)
    → a < m.data_size
    → set_byte a v m ≡ ok tt (record m { datap = update m.datap a (v % 256) })
unfolding set_byte
set_byte-ok a v m h = ground arith

pub get_word-ok :
    (a : ℕ) (m : Machine)
    → a + 1 < m.data_size
    → get_word a m ≡ ok ((m.datap a * 256 + m.datap (a + 1)) % 0x10000) m
unfolding get_word get_byte
get_word-ok a m h = ground arith

-- The data area after `set_word( a, v )`.
abbrev pub update_word : (ℕ → ℕ) → ℕ → ℕ → ℕ → ℕ
update_word f a v = update (update f a (v % 0x10000 / 256 % 256)) (a + 1) (v % 256 % 256)

pub set_word-ok :
    (a v : ℕ) (m : Machine)
    → a + 1 < m.data_size
    → set_word a v m ≡ ok tt (record m { datap = update_word m.datap a v })
unfolding set_word set_byte
set_word-ok a v m h = ground arith

pub read_code_byte-ok :
    (m : Machine) → 512 ≤ m.pc → read_code_byte m ≡ ok (m.story m.pc) (record m { pc = m.pc + 1 })
unfolding read_code_byte
read_code_byte-ok m h = ground arith

pub stack_get-ok : (i : ℕ) (m : Machine) → i < stack_size → stack_get i m ≡ ok (m.stack i) m
unfolding stack_get
stack_get-ok i m h = ground arith

pub stack_set-ok :
    (i v : ℕ) (m : Machine)
    → i < stack_size
    → stack_set i v m ≡ ok tt (record m { stack = update m.stack i (v % 0x10000) })
unfolding stack_set
stack_set-ok i v m h = ground arith

pub push-ok :
    (v : ℕ) (m : Machine)
    → 0 < m.sp
    → m.sp ≤ stack_size
    → push v m ≡ ok tt (record m { sp = m.sp - 1; stack = update m.stack (m.sp - 1) (v % 0x10000) })
unfolding push stack_set
push-ok v m h k = ground arith

pub pop-ok :
    (m : Machine) → m.sp < stack_size → pop m ≡ ok (m.stack m.sp) (record m { sp = m.sp + 1 })
unfolding pop
pop-ok m h = ground arith

report_by-returns :
    (mode : ReportMode) (errnum : ℕ) (m : Machine)
    → mode ≢ report_fatal
    → (m' : Machine) × (report_by mode errnum m ≡ ok tt m')
unfolding report_by
report_by-returns report_fatal errnum m h = absurd (h refl)
report_by-returns report_never errnum m h = (count_error errnum m, refl)
report_by-returns report_always errnum m h = (print_warning errnum (count_error errnum m), refl)
report_by-returns report_once errnum m h = elim (Bool-cases (m.strictz_error_count errnum == 0)) [
  | inl first ↦ (print_warning errnum (count_error errnum m), rw first)
  | inr later ↦ (count_error errnum m, rw later)
]

-- A report returns unless the mode ends the program.
pub report_strictz_error-returns :
    (errnum : ℕ) (m : Machine)
    → m.strictz_report_mode ≢ report_fatal
    → (m' : Machine) × (report_strictz_error errnum m ≡ ok tt m')
unfolding report_strictz_error
report_strictz_error-returns errnum m h = elim (Bool-cases (errnum == 0 || leb 17 errnum)) [
  | inl unknown ↦ (m, rw unknown)
  | inr known ↦ let (m', e) = report_by-returns m.strictz_report_mode errnum m h in (m', rw known e)
]
