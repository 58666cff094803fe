-- ===== src/Interpreter/Laws.antt =====
-- The loading of operands and the forms of an instruction.
use jzip.Prelude.{
  ℕ, fun_ext, zero, suc, ◌+◌, ◌*◌, ◌/◌, ◌%◌, ◌^◌, ◌<◌, ◌≤◌, ◌≡◌, ◌∙◌, inl, inr, refl, sym, ap,
  arith, bit_and, ◌||◌, ◌==◌, if◌then◌else◌, lt→ltb, Bool-cases, List, [], ◌∷◌, length,
}
use jzip.Machine.{
  Machine, M, Run, and_then, ok, fatal, fault, out_of_fuel, pure, ◌>>=◌, update, read_code_byte,
  read_code_word,
}
use jzip.Operand.{load_operand}
use jzip.Interpreter.Loading.{
  Operands, add_operand, append_operand, load_two, load_by, load_variable_class,
}

-- The types of the operands of a specifier: its pairs of bits up to the first 3.
unfoldable pub types : ℕ → ℕ → List ℕ
types zero specifier = []
types (suc pairs) specifier =
    if specifier / 4 ^ pairs % 4 == 3
    then []
    else (specifier / 4 ^ pairs % 4) ∷ types pairs specifier

-- Operands loaded one after the other, by their types.
unfoldable pub load_all : List ℕ → M (List ℕ)
load_all [] = pure []
load_all (type ∷ rest) = do value ← load_operand type; values ← load_all rest; pure (value ∷ values)

-- Values put into the array from `operand[i]` on.
unfoldable pub fill : ℕ → List ℕ → (ℕ → ℕ) → ℕ → ℕ
fill i [] operand = operand
fill i (v ∷ values) operand = fill (i + 1) values (update operand i v)

abbrev pub filled : List ℕ → Operands → Operands
filled values o = record {
  count = o.count + length values;
  operand = fill o.count values o.operand;
}

abbrev one_more : ℕ → Operands → Operands
one_more v o = record { count = o.count + 1; operand = update o.operand o.count v }

filled_cons :
    (v : ℕ) (values : List ℕ) (o : Operands) → filled values (one_more v o) ≡ filled (v ∷ values) o
unfolding fill
filled_cons v values o =
    ap (λ n. record { count = n; operand = fill (o.count + 1) values (update o.operand o.count v) })
      (omega arith)

-- Loading one operand before the others.
filled_after :
    (v : ℕ) (o : Operands) (r : Run (List ℕ))
    → and_then r (λ values. pure (filled values (one_more v o)))
      ≡ and_then (and_then r (λ values. pure (v ∷ values))) (λ values. pure (filled values o))
filled_after v o (ok values m) = ap (λ a. ok a m) (filled_cons v values o)
filled_after v o (fatal e) = refl
filled_after v o fault = refl
filled_after v o out_of_fuel = refl

add_operand-room :
    (v : ℕ) (o : Operands) (m : Machine) → o.count < 8 → add_operand v o m ≡ ok (one_more v o) m
unfolding add_operand
add_operand-room v o m h = rw (lt→ltb o.count 8 h) refl

-- The loop loads the operands of the specifier in order, and never runs past the array, where there
-- is room for all of its pairs.
pub load_by-filled :
    (pairs specifier : ℕ) (o : Operands) (m : Machine)
    → o.count + pairs ≤ 8
    → load_by pairs specifier o m
      ≡ (do values ← load_all (types pairs specifier); pure (filled values o)) m
unfolding load_by types load_all append_operand fill
load_by-filled zero specifier o m room =
    ap (λ n. ok (record { count = n; operand = o.operand }) m) (omega arith)
load_by-filled (suc pairs) specifier o m room = elim (Bool-cases (specifier / 4 ^ pairs % 4 == 3)) [
  | inl end ↦ rw end (ap (λ n. ok (record { count = n; operand = o.operand }) m) (omega arith))
  | inr more ↦ rw more (
      after (λ p n room'. load_by-filled pairs specifier p n room')
        (load_operand (specifier / 4 ^ pairs % 4) m))
]
  where
    after :
        ((p : Operands) (n : Machine)
          → p.count + pairs ≤ 8
          → load_by pairs specifier p n
            ≡ (do values ← load_all (types pairs specifier); pure (filled values p)) n)
        → (r : Run ℕ)
        → and_then (and_then r (λ v. add_operand v o)) (λ next. load_by pairs specifier next)
          ≡ and_then
              (and_then r (λ v. load_all (types pairs specifier) >>= (λ values. pure (v ∷ values))))
              (λ values. pure (filled values o))
    after rest (ok v n) = rw (add_operand-room v o n (omega arith)) (
        rest (one_more v o) n (omega arith) ∙ filled_after v o (load_all (types pairs specifier) n))
    after rest (fatal e) = refl
    after rest fault = refl
    after rest out_of_fuel = refl

length-types : (pairs specifier : ℕ) → length (types pairs specifier) ≤ pairs
unfolding types
length-types zero specifier = omega arith
length-types (suc pairs) specifier = ground (arith, length-types pairs specifier)

-- The operands of a variable-class instruction, for any opcode and any machine: a word of types for
-- opcodes 0x2c and 0x3a and a byte for the others is read, and the operands follow in the order of
-- the types up to the first 3. They fill the array from its start, the elements behind them stay,
-- and there are never more than eight.
pub load_variable_class-filled :
    (opcode : ℕ) (operand : ℕ → ℕ) (m : Machine)
    → let wide = opcode == 0x2c || opcode == 0x3a in
      let pairs : ℕ = if wide then 8 else 4 in
      (load_variable_class opcode operand m
        ≡ (do
          specifier ← (if wide then read_code_word else read_code_byte)
          values ← load_all (types pairs specifier)
          pure (filled values (record { count = 0; operand = operand })))
            m)
      × ((specifier : ℕ) → length (types pairs specifier) ≤ 8)
unfolding load_variable_class
load_variable_class-filled opcode operand m = elim (Bool-cases (opcode == 0x2c || opcode == 0x3a)) [
  | inl wide ↦ rw wide (
    ap (λ f. and_then (read_code_word m) f)
        (fun_ext (λ s.
          fun_ext
            (λ n. load_by-filled 8 s (record { count = 0; operand = operand }) n (omega arith)))),
    λ s. length-types 8 s,
  )
  | inr short ↦ rw short (
    ap (λ f. and_then (read_code_byte m) f)
        (fun_ext (λ s.
          fun_ext
            (λ n. load_by-filled 4 s (record { count = 0; operand = operand }) n (omega arith)))),
    λ s. omega (arith, length-types 4 s),
  )
]

and_then-pure : {A : Type 0} (r : Run A) → and_then r (λ a. pure a) ≡ r
and_then-pure (ok a m) = refl
and_then-pure (fatal e) = refl
and_then-pure fault = refl
and_then-pure out_of_fuel = refl

-- The type of an operand of the long form, by its bit: a byte or a variable.
abbrev pub long_type : ℕ → ℕ
long_type bit = if bit == 0 then 1 else 2

-- The two operands of the long form are those that the variable form loads by the specifier with the
-- same two types and no third operand.
pub load_two-load_by :
    (opcode : ℕ) (operand : ℕ → ℕ) (m : Machine)
    → load_two opcode operand m
      ≡ load_by 4
          (long_type (bit_and opcode 0x40) * 64 + long_type (bit_and opcode 0x20) * 16 + 15)
          (record { count = 0; operand = operand })
          m
unfolding load_two load_by
load_two-load_by opcode operand m = elim (Bool-cases (bit_and opcode 0x40 == 0)) [
  | inl a ↦ elim (Bool-cases (bit_and opcode 0x20 == 0)) [
    | inl b ↦ rw (a, b) (last 1 (append_operand 1 start m))
    | inr b ↦ rw (a, b) (last 2 (append_operand 1 start m))
  ]
  | inr a ↦ elim (Bool-cases (bit_and opcode 0x20 == 0)) [
    | inl b ↦ rw (a, b) (last 1 (append_operand 2 start m))
    | inr b ↦ rw (a, b) (last 2 (append_operand 2 start m))
  ]
]
  where
    start : Operands
    start = record { count = 0; operand = operand }

    last :
        (type : ℕ) (r : Run Operands)
        → and_then r (λ o. append_operand type o)
          ≡ and_then r (λ o. append_operand type o >>= (λ p. pure p))
    last type (ok o n) = sym (and_then-pure (append_operand type o n))
    last type (fatal e) = refl
    last type fault = refl
    last type out_of_fuel = refl
