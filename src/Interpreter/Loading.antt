-- ===== src/Interpreter/Loading.antt =====
-- Loading the operands of an instruction into the array `operand[8]`.
use jzip.Prelude.{ℕ, zero, suc, ◌+◌, ◌/◌, ◌%◌, ◌^◌, bit_and, ◌||◌, ltb, ◌==◌, if◌then◌else◌}
use jzip.Machine.{M, fault, pure, ◌>>=◌, update, read_code_byte, read_code_word}
use jzip.Operand.{load_operand}

-- The count of operands and their array.
pub record Operands : Type 0 where
  pub count : ℕ
  pub operand : ℕ → ℕ

-- `operand[count++] = value`: the array has eight elements.
unfoldable pub add_operand : ℕ → Operands → M Operands
add_operand value o =
    if ltb o.count 8
    then pure (record { count = o.count + 1; operand = update o.operand o.count value })
    else λ _. fault

unfoldable pub append_operand : ℕ → Operands → M Operands
append_operand type o = do value ← load_operand type; add_operand value o

-- The two operands of the long form: bits 6 and 5 of the opcode say variable or byte.
unfoldable pub load_two : ℕ → (ℕ → ℕ) → M Operands
load_two opcode operand = do
  first ←
      append_operand (if bit_and opcode 0x40 == 0 then 1 else 2)
        (record { count = 0; operand = operand })
  append_operand (if bit_and opcode 0x20 == 0 then 1 else 2) first

-- The loop over the pairs of bits of the specifier, from `shift` pairs above the lowest down; type 3
-- ends it.
unfoldable pub load_by : ℕ → ℕ → Operands → M Operands
load_by zero specifier o = pure o
load_by (suc pairs) specifier o =
    if specifier / 4 ^ pairs % 4 == 3
    then pure o
    else (do more ← append_operand (specifier / 4 ^ pairs % 4) o; load_by pairs specifier more)

-- The variable class: a word of types for the two calls with up to eight operands, else a byte.
unfoldable pub load_variable_class : ℕ → (ℕ → ℕ) → M Operands
load_variable_class opcode operand =
    if opcode == 0x2c || opcode == 0x3a
    then (do
      specifier ← read_code_word
      load_by 8 specifier (record { count = 0; operand = operand }))
    else (do
      specifier ← read_code_byte
      load_by 4 specifier (record { count = 0; operand = operand }))

-- The single operand: `operand[0] = load_operand( ( opcode >> 4 ) & 0x03 )`.
unfoldable pub load_one : ℕ → (ℕ → ℕ) → M Operands
load_one opcode operand = do
  value ← load_operand (opcode / 16 % 4)
  pure (record { count = 0; operand = update operand 0 value })
