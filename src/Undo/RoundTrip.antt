-- ===== src/Undo/RoundTrip.antt =====
-- An undo gives back the state that was saved.
use jzip.Prelude.{ℕ, ◌-◌, ◌/◌, ◌%◌, ◌<◌, ◌≤◌, ◌≡◌, true, some}
use jzip.Machine.{Machine, stack_size, page_size, update}
use jzip.Quetzal.Save.{Game}
use jzip.Undo.{Undo, move_area}

-- What `push_state` leaves on the stack.
abbrev pushed : Game → Machine → ℕ → ℕ
pushed g m =
    update
      (update
        (update
          (update (update m.stack (m.sp - 1) (m.pc / page_size % 0x10000)) (m.sp - 2)
            (m.pc % page_size % 0x10000))
          (m.sp - 3) (m.fp % 0x10000))
        (m.sp - 4) (g.h_version % 0x10000))
      0 ((m.sp - 4) % 0x10000)

-- The cells of the stack that a state was pushed on.
record IsPushed (g : Game) (m : Machine) (s : ℕ → ℕ) : Type 0 where
  pub first : s 0 ≡ m.sp - 4
  pub version : s (m.sp - 4) ≡ g.h_version
  pub fp : s (m.sp - 3) ≡ m.fp
  pub offset : s (m.sp - 2) ≡ m.pc % page_size
  pub page : s (m.sp - 1) ≡ m.pc / page_size
  pub above : (i : ℕ) → m.sp ≤ i → s i ≡ m.stack i

-- A state that fits the words of the stack, with room for what is pushed and for the first cell.
pub record CanSave (g : Game) (m : Machine) : Type 0 where
  pub low : 5 ≤ m.sp
  pub high : m.sp ≤ stack_size
  pub pc_fits : m.pc < 0x2000000
  pub fp_fits : m.fp < 0x10000
  pub version_fits : g.h_version < 0x10000

-- A stack that has the cells in use of `m`, and a data area with the dynamic memory of `m` and the rest of `n`.
pub record Undone (g : Game) (m n : Machine) (stack datap : ℕ → ℕ) : Type 0 where
  pub cells : (i : ℕ) → m.sp ≤ i → stack i ≡ m.stack i
  pub dynamic : (a : ℕ) → a < g.h_restart_size → datap a ≡ m.datap a
  pub static : (a : ℕ) → g.h_restart_size ≤ a → datap a ≡ n.datap a

abbrev copied : Game → Machine → (ℕ → ℕ) → Undo → Undo
copied g m datap u = record u {
  undo_stack = pushed g m;
  undo_datap = some (move_area g datap m.datap);
  undo_valid = true;
}
