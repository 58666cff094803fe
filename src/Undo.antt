-- ===== src/Undo.antt =====
-- The undo of fileio.c: `z_save_undo`, `z_restore_undo`, and `save_restore` with the flags of the undo, as it is
-- built with Quetzal.
pub mod RoundTrip
use jzip.Prelude.{
  ℕ, ◌+◌, ◌-◌, ◌*◌, ◌/◌, ◌%◌, Bool, true, false, ltb, ◌==◌, if◌then◌else◌, Option, none, some,
}
use jzip.Machine.{
  Machine, M, ok, fatal, pure, ◌>>=◌, ◌>>◌, page_size, push, pop, stack_get, stack_set,
  wrong_game_or_version,
}
use jzip.Operand.{store_operand}
use jzip.Quetzal.Save.{Game}

-- The copies of fileio.c and of extern.c; `undo_datap` is none where it is `NULL`.
pub record Undo : Type 0 where
  pub undo_datap : Option (ℕ → ℕ)
  pub undo_valid : Bool
  pub undo_stack : ℕ → ℕ

-- `UNDO_SAVE` and `UNDO_RESTORE`
pub data UndoFlag : Type 0 where
  undo_save undo_restore : UndoFlag

-- The program counter, the frame pointer and the release number are pushed, and the stack pointer goes into the
-- first cell.
unfoldable pub push_state : Game → M (Unit {0})
push_state g = do
  m ← (λ m. ok m m)
  push (m.pc / page_size)
  push (m.pc % page_size)
  push m.fp
  push g.h_version
  n ← (λ m. ok m m)
  stack_set 0 n.sp

-- They are taken back from the stack that is there then.
unfoldable pub pop_state : Game → M (Unit {0})
pop_state g = do
  first ← stack_get 0
  (λ m. ok tt (record m { sp = first }))
  version ← pop
  (if version == g.h_version then pure tt else (λ _. fatal wrong_game_or_version))
  fp ← pop
  offset ← pop
  page ← pop
  (λ m. ok tt (record m { fp = fp; pc = offset + page * page_size }))

-- `memmove` of `h_restart_size` bytes
unfoldable pub move_area : Game → (ℕ → ℕ) → (ℕ → ℕ) → ℕ → ℕ
move_area g to from a = if ltb a g.h_restart_size then from a else to a

-- `save_restore`, with the copy of the data area.
unfoldable pub save_restore : Game → UndoFlag → (ℕ → ℕ) → Undo → M Undo
unfolding push_state pop_state move_area
save_restore g undo_save datap u = do
  push_state g
  m ← (λ m. ok m m)
  pop_state g
  n ← (λ m. ok m m)
  pure (record u { undo_stack = m.stack; undo_datap = some (move_area g datap n.datap) })
save_restore g undo_restore datap u = do
  push_state g
  (λ m. ok tt (record m { stack = u.undo_stack }))
  pop_state g
  (λ m. ok u (record m { datap = move_area g m.datap datap }))

unfoldable pub z_save_undo : Game → Undo → M Undo
unfolding save_restore
z_save_undo g u = elim u.undo_datap [
  | none ↦ do store_operand 0xffff; pure u
  | some datap ↦ do
    saved ← save_restore g undo_save datap u
    store_operand 1
    pure (record saved { undo_valid = true })
]

unfoldable pub z_restore_undo : Game → Undo → M Undo
unfolding save_restore
z_restore_undo g u = elim u.undo_datap [
  | none ↦ do store_operand 0xffff; pure u
  | some datap ↦
      if u.undo_valid
      then (do same ← save_restore g undo_restore datap u; store_operand 2; pure same)
      else (do store_operand 0; pure u)
]
