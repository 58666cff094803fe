-- ===== src/Interpreter.antt =====
-- The instruction loop (interpre.c): the operands of an instruction, and the switches over the
-- opcodes. The switches themselves stand in Interpreter/Switch.antt.
pub mod Routines
pub mod Loading
pub mod Switch
pub mod Laws
use jzip.Prelude.{
  ℕ, zero, suc, ◌+◌, ◌*◌, ◌/◌, ◌%◌, bit_and, Bool, true, false, not, ◌&&◌, ◌||◌, ltb, leb, ◌==◌,
  if◌then◌else◌,
}
use jzip.Machine.{Machine, M, ok, out_of_fuel, pure, ◌>>=◌, ◌>>◌, read_code_byte}
use jzip.Operand.{load_operand}
use jzip.Interpreter.Routines.{Outside}
use jzip.Interpreter.Loading.{Operands, load_two, load_variable_class, load_one}
use jzip.Interpreter.Switch.{execute_extended, execute_two, execute_one, execute_zero}

-- One instruction, whose first byte is read. `interpret` is the whole interpreter, for the calls that
-- run it again; `operand` is the array as the instruction before left it.
unfoldable pub dispatch : Outside → M ℕ → (ℕ → ℕ) → Bool → ℕ → M (ℕ → ℕ)
dispatch outside interpret operand extended opcode =
    if ltb opcode 0x80 || ltb 0xc0 opcode || extended
    then (if ltb opcode 0x80 && not extended
        then (do
          loaded ← load_two opcode operand
          execute_two outside interpret (bit_and opcode 0x1f) loaded)
        else (do
          loaded ← load_variable_class (bit_and opcode 0x3f) operand
          if extended
              then execute_extended outside (bit_and opcode 0x3f) loaded
              else execute_two outside interpret (bit_and opcode 0x3f) loaded))
    else if ltb opcode 0xb0
    then (do
      loaded ← load_one opcode operand
      execute_one outside interpret (bit_and opcode 0x0f) loaded)
    else execute_zero outside (bit_and opcode 0x0f) operand

unfoldable pub instruction : Outside → M ℕ → (ℕ → ℕ) → M (ℕ → ℕ)
instruction outside interpret operand m =
    (do
      opcode ← read_code_byte
      if ltb 4 m.h_type && opcode == 0xbe
          then (do extended ← read_code_byte; dispatch outside interpret operand true extended)
          else dispatch outside interpret operand false opcode)
      m

-- `interpreter_status = 1` and `interpreter_state = RUN`, before the loop.
abbrev pub started : Machine → Machine
started m = record m { interpreter_status = 1; running = true }

-- The loop, with its array of operands. A nested call of `interpret` has an array of its own, which
-- begins as `fresh`.
unfoldable pub loop : Outside → (ℕ → ℕ) → ℕ → (ℕ → ℕ) → M ℕ
loop outside fresh zero operand m = out_of_fuel
loop outside fresh (suc fuel) operand m =
    if m.running && not m.halt
    then (do
      operand' ← instruction outside (λ n. loop outside fresh fuel fresh (started n)) operand
      loop outside fresh fuel operand')
        m
    else ok m.interpreter_status m

pub interpret : Outside → (ℕ → ℕ) → ℕ → M ℕ
unfolding loop
interpret outside fresh fuel m = loop outside fresh fuel fresh (started m)
