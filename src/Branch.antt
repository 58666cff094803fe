-- ===== src/Branch.antt =====
-- The branch that follows a test: `conditional_jump` and `z_piracy` of operand.c, `z_jump` and
-- `z_check_arg_count` of control.c.
pub mod Laws
use jzip.Prelude.{
  ℕ, ◌+◌, ◌-◌, ◌*◌, ◌%◌, ◌^◌, bit_and, bit_or, Bool, true, false, not, ltb, leb, ◌==◌,
  if◌then◌else◌, ◌||◌,
}
use jzip.Machine.{Machine, M, ok, pure, ◌>>=◌, ◌>>◌, read_code_byte, stack_get}
use jzip.Return.{z_ret, args_mask}

-- `pc = pc + ( ZINT16 ) offset - 2`, in an `unsigned long` of 64 bits.
unfoldable pub jump_by : ℕ → M (Unit {0})
jump_by offset m = ok tt (record m {
  pc =
      (m.pc + (if ltb offset 0x8000 then offset else 2 ^ 64 - (0x10000 - offset)) + (2 ^ 64 - 2))
      % 2 ^ 64;
})

-- The offset of the branch: six bits of the specifier, or fourteen with the byte that follows, of
-- which bit 13 is the sign.
unfoldable pub branch_offset : ℕ → M ℕ
branch_offset specifier =
    if bit_and specifier 0x40 == 0
    then (do
      low ← read_code_byte
      let offset = (bit_and specifier 0x3f * 256 + low) % 0x10000
      pure (if bit_and offset 0x2000 == 0 then offset else bit_or offset 0xc000))
    else pure (bit_and specifier 0x3f)

unfoldable pub conditional_jump : Bool → M (Unit {0})
conditional_jump flag = do
  specifier ← read_code_byte
  let flag' = if bit_and specifier 0x80 == 0 then flag else not flag
  offset ← branch_offset specifier
  if flag' then pure tt else if offset == 0 || offset == 1 then z_ret offset else jump_by offset

pub z_piracy : Bool → M (Unit {0})
z_piracy flag = conditional_jump flag

pub z_jump : ℕ → M (Unit {0})
z_jump offset = jump_by offset

-- The argument count of the running routine stands in its frame, above the local variables.
pub z_check_arg_count : ℕ → M (Unit {0})
z_check_arg_count argc m =
    (do frame ← stack_get (m.fp + 1); conditional_jump (leb argc (bit_and frame args_mask))) m
