-- ===== src/Operand.antt =====
-- operand.c and variable.c: operands, variables, and the opcodes that move values between them.
pub mod Laws
use jzip.Prelude.{ℕ, ◌+◌, ◌-◌, ◌*◌, ◌%◌, Bool, ltb, ◌==◌, if◌then◌else◌}
use jzip.Machine.{
  Machine, M, ok, fault, pure, ◌>>=◌, ◌>>◌, get_word, set_word, read_code_byte, read_code_word,
  stack_get, stack_set, push, pop,
}

-- Local variable `number` stands at `stack[fp - ( number - 1 )]`; below 0 is outside the stack.
unfoldable pub local_get : ℕ → M ℕ
local_get number m = if ltb m.fp (number - 1) then fault else stack_get (m.fp - (number - 1)) m

unfoldable pub local_set : ℕ → ℕ → M (Unit {0})
local_set number v m = if ltb m.fp (number - 1) then fault else stack_set (m.fp - (number - 1)) v m

-- The address of global variable `number`.
abbrev pub global_addr : ℕ → Machine → ℕ
global_addr number m = m.h_globals_offset + (number - 16) * 2

unfoldable pub load_variable : ℕ → M ℕ
load_variable number m =
    if number == 0
    then stack_get m.sp m
    else if ltb number 16
    then local_get number m
    else get_word (global_addr number m) m

unfoldable pub z_store : ℕ → ℕ → M (Unit {0})
z_store number variable m =
    if number == 0
    then stack_set m.sp variable m
    else if ltb number 16
    then local_set number variable m
    else set_word (global_addr number m) variable m

-- Type 0 is a word literal, 1 a byte literal, 2 a variable or the top of the stack, which is popped.
unfoldable pub load_operand : ℕ → M ℕ
load_operand type = if type == 0 then read_code_word else do
  operand ← read_code_byte
  if type == 2 then (if operand == 0 then pop else load_variable operand) else pure operand

unfoldable pub store_operand : ℕ → M (Unit {0})
store_operand operand = do
  specifier ← read_code_byte
  if specifier == 0 then push operand else z_store specifier operand

pub z_load : ℕ → M (Unit {0})
z_load variable = do value ← load_variable variable; store_operand value

pub z_push : ℕ → M (Unit {0})
z_push value = push value

pub z_pull : ℕ → M (Unit {0})
z_pull variable = do value ← pop; z_store variable value

pub z_inc : ℕ → M (Unit {0})
z_inc variable = do value ← load_variable variable; z_store variable ((value + 1) % 0x10000)

pub z_dec : ℕ → M (Unit {0})
z_dec variable = do value ← load_variable variable; z_store variable ((value + 0xffff) % 0x10000)
