-- ===== src/Quetzal/Frames.antt =====
-- The frames of a saved game, written by `save_quetzal` and read by `restore_quetzal`.
use jzip.Prelude.{
  ℕ, ◌+◌, ◌-◌, ◌*◌, ◌/◌, ◌%◌, ◌^◌, ◌<◌, ◌≤◌, ◌≡◌, refl, arith, Bool, true, false, ltb, ◌==◌,
  if◌then◌else◌, Bool-cases, some, List, ◌∷◌, ◌++◌, inl, inr, ==→eq, le→not_ltb, bit_and, all_below,
  all_below→holds, ◌&&◌,
}
use jzip.Machine.{Machine, ok, stack_size, page_size, stack_get-ok, read_data_byte}
use jzip.Return.{args_mask, vars_mask, type_mask, call_function, call_procedure}
use jzip.Quetzal.Stacks.{first_bit}
use jzip.Quetzal.Save.{write_word, write_long, frame_bytes, write_frame}
use jzip.Quetzal.Words.{cells_of, write_cells-ok}

-- A frame whose flags are a number of locals, a kind of call and a number of arguments, as `z_call` writes
-- them, with a return address of 24 bits, and room for the locals above `low`.
pub record IsFrame (m : Machine) (low tmp_fp : ℕ) : Type 0 where
  pub nvars : ℕ
  pub args : ℕ
  pub procedure : Bool
  pub few_vars : nvars < 16
  pub few_args : args < 8
  pub flags_are :
      m.stack (tmp_fp + 1)
      ≡ nvars * 0x100 + (if procedure then call_procedure else call_function) + args
  pub offset_fits : m.stack (tmp_fp + 3) < page_size
  pub address_fits : m.stack (tmp_fp + 3) + m.stack (tmp_fp + 4) * page_size < 0xffffff
  pub some_cells : 0 < low
  pub cells_fit : low + nvars ≤ tmp_fp + 1
  pub inside : tmp_fp + 4 < stack_size

pub both_true : (b c : Bool) → (b && c) ≡ true → (b ≡ true) × (c ≡ true)
both_true true true h = (refl, refl)
both_true true false h = cc
both_true false c h = cc

abbrev flags_split : Bool → ℕ → ℕ → Bool
flags_split procedure nvars args =
    let kind : ℕ = if procedure then call_procedure else call_function in
    let flags : ℕ = nvars * 0x100 + kind + args in
    (bit_and flags vars_mask / 0x100 == nvars)
    && ((bit_and flags args_mask == args) && (bit_and flags type_mask == kind))

flags_split-holds :
    (procedure : Bool) (nvars args : ℕ)
    → nvars < 16
    → args < 8
    → flags_split procedure nvars args ≡ true
unfolding all_below
flags_split-holds true nvars args few_vars few_args =
    all_below→holds 8 (flags_split true nvars) args
      (all_below→holds 16 (λ nvars. all_below 8 (flags_split true nvars)) nvars refl few_vars)
      few_args
flags_split-holds false nvars args few_vars few_args =
    all_below→holds 8 (flags_split false nvars) args
      (all_below→holds 16 (λ nvars. all_below 8 (flags_split false nvars)) nvars refl few_vars)
      few_args

abbrev pub bitmap : ℕ → ℕ
bitmap args = (if args == 0 then 0 else 2 ^ args - 1) % 0x100

abbrev bitmap_counts : ℕ → Bool
bitmap_counts args = (first_bit 8 0 (bitmap args + 1) == args) && (bitmap args + 1 == 2 ^ args)

pub bitmap-counted :
    (args : ℕ) → args < 8 → (first_bit 8 0 (bitmap args + 1) ≡ args) × (bitmap args + 1 ≡ 2 ^ args)
unfolding all_below first_bit
bitmap-counted args few =
    let (bit, whole) = both_true _ _ (all_below→holds 8 bitmap_counts args refl few) in
    (==→eq (first_bit 8 0 (bitmap args + 1)) args bit, ==→eq (bitmap args + 1) (2 ^ args) whole)

module _ {low tmp_fp : ℕ} {m : Machine} (f : IsFrame m low tmp_fp) where
  abbrev kind : ℕ
  kind = if f.procedure then call_procedure else call_function

  flags_parts :
      (bit_and (m.stack (tmp_fp + 1)) vars_mask / 0x100 ≡ f.nvars)
      × (bit_and (m.stack (tmp_fp + 1)) args_mask ≡ f.args)
      × (bit_and (m.stack (tmp_fp + 1)) type_mask ≡ kind)
  flags_parts =
      let (vars, rest) =
        both_true _ _ (flags_split-holds f.procedure f.nvars f.args f.few_vars f.few_args) in
      let (args, type) = both_true _ _ rest in
      rw f.flags_are (==→eq _ _ vars, ==→eq _ _ args, ==→eq _ _ type)

-- The byte that `read_data_byte` reads, where the data area has a page.
abbrev pub data_at : Machine → ℕ → ℕ
data_at m a = if ltb a m.data_size then m.datap a else m.story a

pub read_data_byte-ok :
    (a : ℕ) (m : Machine) → page_size ≤ m.data_size → read_data_byte a m ≡ ok (data_at m a) m
unfolding read_data_byte
read_data_byte-ok a m paged = ground arith

-- The bytes of the frame.
abbrev pub address : Machine → ℕ → ℕ
address m tmp_fp = m.stack (tmp_fp + 3) + m.stack (tmp_fp + 4) * page_size

abbrev pub bytes_of : (m : Machine) → (low tmp_fp : ℕ) → IsFrame m low tmp_fp → List ℕ
bytes_of m low tmp_fp f =
    write_long (
      if f.procedure
      then address m tmp_fp * 0x100 + 0x10 + f.nvars
      else (address m tmp_fp + 1) * 0x100 + f.nvars)
    ++ ((if f.procedure then 0 else data_at m (address m tmp_fp))
        ∷ bitmap f.args
        ∷ (write_word (tmp_fp + 1 - low - f.nvars) ++ cells_of (tmp_fp + 1 - low) tmp_fp m.stack))

frame_bytes-ok :
    (tmp_pc var args nstk count tmp_fp : ℕ) (m : Machine)
    → args < 8
    → count ≤ tmp_fp
    → tmp_fp < stack_size
    → frame_bytes tmp_pc var args nstk count tmp_fp m
      ≡ ok
          (some (
            write_long tmp_pc
            ++ (var ∷ bitmap args ∷ (write_word nstk ++ cells_of count tmp_fp m.stack))))
          m
unfolding frame_bytes
frame_bytes-ok tmp_pc var args nstk count tmp_fp m few fits inside =
    rw (le→not_ltb 30 args (omega (arith, few)), write_cells-ok count tmp_fp m fits inside) refl

pub write_frame-ok :
    (low tmp_fp : ℕ) (m : Machine)
    → (f : IsFrame m low tmp_fp) → page_size ≤ m.data_size
    → write_frame ((low + 0xfffb) % 0x10000) tmp_fp m ≡ ok (some (bytes_of m low tmp_fp f)) m
unfolding write_frame
write_frame-ok low tmp_fp m f paged =
    let (vars, args, type) = flags_parts f in
    let nstk : (tmp_fp + 0x20000 - (low + 0xfffb) % 0x10000 - f.nvars - 4) % 0x10000
        ≡ tmp_fp + 1 - low - f.nvars =
      omega (arith, f.inside, f.cells_fit, f.some_cells) in
    let all : f.nvars + (tmp_fp + 1 - low - f.nvars) ≡ tmp_fp + 1 - low =
      omega (arith, f.cells_fit) in
    let written = λ (tmp_pc : ℕ) (var : ℕ).
      frame_bytes-ok tmp_pc var f.args (tmp_fp + 1 - low - f.nvars) (tmp_fp + 1 - low) tmp_fp m
        f.few_args (omega (arith, f.some_cells)) (omega (arith, f.inside)) in
    rw
      (
        stack_get-ok (tmp_fp + 1) m (omega (arith, f.inside)),
        stack_get-ok (tmp_fp + 3) m (omega (arith, f.inside)),
        stack_get-ok (tmp_fp + 4) m f.inside,
        vars,
        args,
        type,
        nstk,
        all,
      )
      (elim (Bool-cases f.procedure) [
        | inl p ↦ rw p (written _ 0)
        | inr p ↦
            rw (p, read_data_byte-ok (address m tmp_fp) m paged)
              (written _ (data_at m (address m tmp_fp)))
      ])
