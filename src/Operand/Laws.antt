-- ===== src/Operand/Laws.antt =====
-- Variables: where each one stands, and that a store is read back and leaves the others alone.
use jzip.Prelude.{
  ℕ, zero, suc, ◌+◌, ◌-◌, ◌*◌, ◌%◌, ◌<◌, ◌≤◌, ◌≡◌, ◌≢◌, ◌∙◌, ap, refl, arith, ltb, ◌==◌,
  if◌then◌else◌, lt→ltb, le→not_ltb,
}
use native.Mathlib.Decide.{dec_lt}
use jzip.Machine.{
  Machine, ok, ◌>>◌, update, update_word, stack_size, get_word-ok, set_word-ok, stack_get-ok,
  stack_set-ok,
}
use jzip.Operand.{local_get, local_set, global_addr, load_variable, z_store, z_inc, z_dec}

-- The stack cell of variable 0, the top of the stack, and of the locals 1 to 15.
abbrev pub stack_index : ℕ → Machine → ℕ
stack_index number m = if number == 0 then m.sp else m.fp - (number - 1)

-- The variable has a cell inside its array.
pub record HasCell (number : ℕ) (m : Machine) : Type 0 where
  pub on_stack : number < 16 → (number ≤ m.fp + 1) × (stack_index number m < stack_size)
  pub global : 16 ≤ number → global_addr number m + 1 < m.data_size

-- The machine after the store.
abbrev pub stored : ℕ → ℕ → Machine → Machine
stored number v m =
    if ltb number 16
    then record m { stack = update m.stack (stack_index number m) (v % 0x10000) }
    else record m { datap = update_word m.datap (global_addr number m) v }

abbrev pub value : ℕ → Machine → ℕ
value number m =
    if ltb number 16
    then m.stack (stack_index number m)
    else (m.datap (global_addr number m) * 256 + m.datap (global_addr number m + 1)) % 0x10000

pub z_store-stored :
    (number v : ℕ) (m : Machine) → HasCell number m → z_store number v m ≡ ok tt (stored number v m)
unfolding z_store local_set
z_store-stored zero v m c = stack_set-ok m.sp v m (c.on_stack (omega arith)).1
z_store-stored (suc n) v m c = elim (dec_lt (suc n) 16) [
  | yes p ↦ let (a, b) = c.on_stack p in ground (arith, stack_set-ok (m.fp - n) v m)
  | no p ↦ let a = c.global (omega arith) in ground (arith, set_word-ok (global_addr (suc n) m) v m)
]

pub load_variable-value :
    (number : ℕ) (m : Machine) → HasCell number m → load_variable number m ≡ ok (value number m) m
unfolding load_variable local_get
load_variable-value zero m c = stack_get-ok m.sp m (c.on_stack (omega arith)).1
load_variable-value (suc n) m c = elim (dec_lt (suc n) 16) [
  | yes p ↦ let (a, b) = c.on_stack p in ground (arith, stack_get-ok (m.fp - n) m)
  | no p ↦ let a = c.global (omega arith) in ground (arith, get_word-ok (global_addr (suc n) m) m)
]

value-stored : (number v : ℕ) (m : Machine) → value number (stored number v m) ≡ v % 0x10000
value-stored number v m = ground arith

-- Two variables have the same cell only where the top of the stack is a local variable.
value-stored_ne :
    (number other v : ℕ) (m : Machine)
    → number ≢ other
    → (number < 16 → other < 16 → stack_index number m ≢ stack_index other m)
    → value other (stored number v m) ≡ value other m
value-stored_ne number other v m ne apart = ground arith

HasCell-stored :
    (number other v : ℕ) (m : Machine) → HasCell other m → HasCell other (stored number v m)
HasCell-stored number other v m c = elim (dec_lt number 16) [
  | yes p ↦ rw (lt→ltb number 16 p) (record { on_stack = c.on_stack; global = c.global })
  | no p ↦
      rw (le→not_ltb number 16 (omega arith)) (record { on_stack = c.on_stack; global = c.global })
]

-- What is stored into a variable is read back from it as a word, and every other variable keeps its
-- value, where the two have cells that do not coincide: the top of the stack and a local may.
pub load_variable-z_store :
    (number other v : ℕ) (m : Machine)
    → HasCell number m
    → HasCell other m
    → number ≢ other
    → (number < 16 → other < 16 → stack_index number m ≢ stack_index other m)
    → (m' : Machine) × (z_store number v m ≡ ok tt m')
      × (load_variable number m' ≡ ok (v % 0x10000) m')
      × (load_variable other m' ≡ ok (value other m) m')
load_variable-z_store number other v m c d ne apart = (
  stored number v m,
  z_store-stored number v m c,
  load_variable-value number (stored number v m) (HasCell-stored number number v m c)
      ∙ ap (λ w. ok w (stored number v m)) (value-stored number v m),
  load_variable-value other (stored number v m) (HasCell-stored number other v m d)
      ∙ ap (λ w. ok w (stored number v m)) (value-stored_ne number other v m ne apart),
)

-- `z_inc` followed by `z_dec` gives a variable the word that it had, at every word.
pub z_dec-z_inc :
    (number : ℕ) (m : Machine)
    → HasCell number m
    → value number m < 0x10000
    → (m' : Machine) × ((z_inc number >> z_dec number) m ≡ ok tt m')
      × (load_variable number m' ≡ ok (value number m) m')
unfolding z_inc z_dec
z_dec-z_inc number m c word =
    let up = (value number m + 1) % 0x10000 in
    let m1 = stored number up m in
    let c1 = HasCell-stored number number up m c in
    let down = (value number m1 + 0xffff) % 0x10000 in
    let c2 = HasCell-stored number number down m1 c1 in
    (
      stored number down m1,
      rw
          (
            load_variable-value number m c,
            z_store-stored number up m c,
            load_variable-value number m1 c1,
            z_store-stored number down m1 c1,
          )
          refl,
      load_variable-value number (stored number down m1) c2
          ∙ ap (λ w. ok w (stored number down m1))
              (value-stored number down m1 ∙ omega (arith, value-stored number up m)),
    )
