-- ===== src/Control/Locals.antt =====
-- The local variables of a routine that is called: arguments first, then the routine's defaults.
use jzip.Prelude.{
  ℕ, zero, suc, ◌+◌, ◌-◌, ◌*◌, ◌%◌, ◌<◌, ◌≤◌, ◌≡◌, ◌∙◌, ap, refl, arith, ltb, if◌then◌else◌, inl,
  inr, List, [], ◌∷◌, get_or, Bool-cases,
}
use jzip.Machine.{Machine, ok, update, read_code_word, read_code_byte-ok, push-ok, stack_size}
use jzip.Control.{push_value, push_local, push_locals}

-- The default of local variable `k`, counted from 0, for a routine whose locals begin at `pc`.
abbrev pub default : ℕ → ℕ → Machine → ℕ
default k pc m =
    if ltb 4 m.h_type then 0 else (m.story (pc + 2 * k) * 256 + m.story (pc + 2 * k + 1)) % 0x10000

-- The value that local variable `k` starts with.
abbrev pub initial : List ℕ → ℕ → ℕ → Machine → ℕ
initial argv k pc m = get_or argv k (default k pc m) % 0x10000

abbrev rest : List ℕ → List ℕ
rest [] = []
rest (v ∷ vs) = vs

pub pushed : List ℕ → Machine → Machine
pushed argv m = record m {
  sp = m.sp - 1;
  pc = if ltb 4 m.h_type then m.pc else m.pc + 2;
  stack = update m.stack (m.sp - 1) (initial argv 0 m.pc m);
}

push_value-pushed :
    (argv : List ℕ) (arg : ℕ) (m : Machine)
    → 0 < m.sp
    → m.sp ≤ stack_size
    → push_value argv arg m
      ≡ ok (rest argv) (record m {
        sp = m.sp - 1;
        stack = update m.stack (m.sp - 1) (get_or argv 0 arg % 0x10000);
      })
unfolding push_value
push_value-pushed [] arg m h k = rw (push-ok arg m h k)
push_value-pushed (v ∷ vs) arg m h k = rw (push-ok v m h k)

read_code_word-ok :
    (m : Machine)
    → 512 ≤ m.pc
    → read_code_word m
      ≡ ok ((m.story m.pc * 256 + m.story (m.pc + 1)) % 0x10000) (record m { pc = m.pc + 1 + 1 })
unfolding read_code_word
read_code_word-ok m h =
    rw (read_code_byte-ok m h, read_code_byte-ok (record m { pc = m.pc + 1 }) (omega arith))

push_local-pushed :
    (argv : List ℕ) (m : Machine)
    → 0 < m.sp
    → m.sp ≤ stack_size
    → 512 ≤ m.pc
    → push_local argv m ≡ ok (rest argv) (pushed argv m)
unfolding push_local pushed
push_local-pushed argv m h k code = elim (Bool-cases (ltb 4 m.h_type)) [
  | inl new ↦ rw (new, push_value-pushed argv 0 m h k)
  | inr old ↦
      let e : m.pc + 1 + 1 ≡ m.pc + 2 = omega arith in
      let z : m.pc + 2 * 0 ≡ m.pc = omega arith in
      rw (old, read_code_word-ok m code, e, z)
        (push_value-pushed argv ((m.story m.pc * 256 + m.story (m.pc + 1)) % 0x10000)
          (record m { pc = m.pc + 2 }) h k)
]

-- What the loop over `args` locals does to the machine.
pub record Pushed (args : ℕ) (argv : List ℕ) (m m' : Machine) : Type 0 where
  pub sp : m'.sp + args ≡ m.sp
  pub fp : m'.fp ≡ m.fp
  pub frame_count : m'.frame_count ≡ m.frame_count
  pub h_type : m'.h_type ≡ m.h_type
  pub above : (i : ℕ) → m.sp ≤ i → m'.stack i ≡ m.stack i
  pub locals : (k : ℕ) → k < args → m'.stack (m.sp - 1 - k) ≡ initial argv k m.pc m

get_or-rest : (argv : List ℕ) (k d : ℕ) → get_or (rest argv) k d ≡ get_or argv (suc k) d
get_or-rest [] k d = refl
get_or-rest (v ∷ vs) k d = refl

default-pushed :
    (argv : List ℕ) (k : ℕ) (m : Machine)
    → default k (pushed argv m).pc (pushed argv m) ≡ default (suc k) m.pc m
unfolding pushed
default-pushed argv k m = elim (Bool-cases (ltb 4 m.h_type)) [
  | inl new ↦ rw new
  | inr old ↦ let e : m.pc + 2 + 2 * k ≡ m.pc + 2 * suc k = omega arith in rw (old, e)
]

initial-pushed :
    (argv : List ℕ) (k : ℕ) (m : Machine)
    → initial (rest argv) k (pushed argv m).pc (pushed argv m) ≡ initial argv (suc k) m.pc m
initial-pushed argv k m =
    ap (λ d. get_or (rest argv) k d % 0x10000) (default-pushed argv k m)
    ∙ ap (λ d. d % 0x10000) (get_or-rest argv k (default (suc k) m.pc m))

pushed-code : (argv : List ℕ) (m : Machine) → 512 ≤ m.pc → 512 ≤ (pushed argv m).pc
unfolding pushed
pushed-code argv m h = ground arith

Pushed-suc :
    (args : ℕ) (argv : List ℕ) (m m' : Machine)
    → suc args ≤ m.sp
    → Pushed args (rest argv) (pushed argv m) m'
    → Pushed (suc args) argv m m'
unfolding pushed
Pushed-suc args argv m m' room p = record {
  sp = omega (arith, p.sp);
  fp = p.fp;
  frame_count = p.frame_count;
  h_type = p.h_type;
  above = λ i h. ground (arith, p.above i);
  locals = local;
}
  where
    local : (k : ℕ) → k < suc args → m'.stack (m.sp - 1 - k) ≡ initial argv k m.pc m
    local zero h =
        let e : m.sp - 1 - 0 ≡ m.sp - 1 = omega arith in
        rw e (p.above (m.sp - 1) (omega arith) ∙ ground arith)
    local (suc k) h =
        let e : m.sp - 1 - suc k ≡ m.sp - 1 - 1 - k = omega arith in
        rw e (p.locals k (omega arith) ∙ initial-pushed argv k m)

-- The loop ends for every number of locals that the stack has room for, and fills them in order.
pub push_locals-Pushed :
    (args : ℕ) (argv : List ℕ) (m : Machine)
    → args ≤ m.sp
    → m.sp ≤ stack_size
    → 512 ≤ m.pc
    → (m' : Machine) × (push_locals args argv m ≡ ok tt m') × Pushed args argv m m'
unfolding push_locals
push_locals-Pushed zero argv m room k code = (
  m,
  refl,
  record {
    sp = omega arith;
    fp = refl;
    frame_count = refl;
    h_type = refl;
    above = λ i h. refl;
    locals = λ i h. absurd (omega arith);
  },
)
push_locals-Pushed (suc args) argv m room k code =
    let (m', e, p) =
      push_locals-Pushed args (rest argv) (pushed argv m) (sp_room args argv m room)
        (sp_bound argv m k) (pushed-code argv m code) in
    (m', rw (push_local-pushed argv m (omega arith) k code) e, Pushed-suc args argv m m' room p)
  where
    sp_room : (args : ℕ) (argv : List ℕ) (m : Machine) → suc args ≤ m.sp → args ≤ (pushed argv m).sp
    sp_room args argv m h = unfold pushed in omega arith

    sp_bound : (argv : List ℕ) (m : Machine) → m.sp ≤ stack_size → (pushed argv m).sp ≤ stack_size
    sp_bound argv m h = unfold pushed in omega arith
