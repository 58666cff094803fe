-- ===== src/Control/Frames.antt =====
-- The frame that a call builds, and the return from it.
use jzip.Prelude.{
  ℕ, zero, suc, ◌+◌, ◌-◌, ◌*◌, ◌/◌, ◌%◌, ◌^◌, ◌<◌, ◌≤◌, ◌≡◌, ◌≢◌, ◌∙◌, refl, arith, ◌==◌,
  if◌then◌else◌, List, ◌∷◌, length, bit_or, bit_and, ne→not_==,
}
use jzip.Prelude.Bits.{bit_or_comm, bit_or_fields, bit_or_shift, bit_and_shift, bit_and_low}
use jzip.Machine.{
  Machine, M, ok, pure, ◌>>◌, update, read_code_byte-ok, push-ok, pop-ok, stack_get-ok,
  stack_set-ok, stack_size,
}
use jzip.Operand.{store_operand}
use jzip.Return.{z_ret, finish_return, call_async, type_mask}
use jzip.Control.{z_call, push_locals}
use jzip.Control.Locals.{initial, Pushed, push_locals-Pushed}

-- The machine `m` runs a routine that was called from the machine `c`.
pub record HasFrame (type args vars : ℕ) (c m : Machine) : Type 0 where
  pub room : m.fp + 5 ≡ c.sp
  pub info : m.stack (m.fp + 1) ≡ type + vars * 256 + args
  pub saved_fp : m.stack (m.fp + 2) ≡ c.fp
  pub saved_offset : m.stack (m.fp + 3) ≡ c.pc % 512
  pub saved_page : m.stack (m.fp + 4) ≡ c.pc / 512

-- The type, the number of variables and that of arguments share a word.
info_word :
    (t args vars : ℕ)
    → args < 256
    → vars < 16
    → bit_or (bit_or args (t * 4096)) (vars * 256) ≡ t * 4096 + vars * 256 + args
info_word t args vars ha hv =
    let inner : bit_or args (t * 4096) ≡ t * 16 * 2 ^ 8 + args =
      omega (arith, bit_or_comm args (t * 4096), bit_or_fields 12 t args (omega arith)) in
    rw (inner, bit_or_shift 8 (t * 16) args vars ha) (omega (arith, bit_or_fields 4 t vars hv))

info_type :
    (t args vars : ℕ)
    → args < 256
    → vars < 16
    → t < 16
    → bit_and (t * 4096 + vars * 256 + args) type_mask ≡ t * 4096
info_type t args vars ha hv ht =
    ground (arith, bit_and_shift 12 t (vars * 256 + args) 15, bit_and_low 4 t)

module _ (type args vars : ℕ) {c m : Machine} (f : HasFrame type args vars c m) where
  -- The four words above the locals, popped in order.
  abbrev returned : Machine
  returned = record m {
    sp = c.sp;
    fp = c.fp;
    pc = c.pc;
    frame_count = (m.frame_count + 0xffff) % 0x10000;
  }

  pub z_ret-popped :
      (value : ℕ)
      → args < 256
      → vars < 16
      → c.sp ≤ stack_size
      → (t : ℕ) → t < 16
      → type ≡ t * 4096
      → z_ret value m ≡ finish_return type value returned
  unfolding z_ret
  z_ret-popped value ha hv hs t ht e =
      let first : (m.fp + 1) % 0x10000 ≡ m.fp + 1 = omega (arith, f.room) in
      let second : m.fp + 1 + 1 ≡ m.fp + 2 = omega arith in
      let third : m.fp + 2 + 1 ≡ m.fp + 3 = omega arith in
      let fourth : m.fp + 3 + 1 ≡ m.fp + 4 = omega arith in
      let last : m.fp + 4 + 1 ≡ c.sp = omega (arith, f.room) in
      let target : c.pc % 512 + c.pc / 512 * 512 ≡ c.pc = omega arith in
      let kind : bit_and (m.stack (m.fp + 1)) type_mask ≡ type =
        rw (f.info, e) (info_type t args vars ha hv ht) in
      rw
        (
          first,
          pop-ok (record m { sp = m.fp + 1 }) (omega (arith, f.room)),
          second,
          pop-ok (record m { sp = m.fp + 2 }) (omega (arith, f.room)),
          third,
          pop-ok (record m { sp = m.fp + 3 }) (omega (arith, f.room)),
          fourth,
          pop-ok (record m { sp = m.fp + 4 }) (omega (arith, f.room)),
          last,
          kind,
          f.saved_fp,
          f.saved_offset,
          f.saved_page,
          target,
        )
        refl

update_self : (f : ℕ → ℕ) (a v : ℕ) → update f a v a ≡ v
update_self f a v = ground arith

-- The machine when the loop over the locals begins.
entered : (routine : ℕ) → List ℕ → (type vars : ℕ) → Machine → Machine
entered routine argv type vars m = record m {
  sp = m.sp - 4;
  fp = m.sp - 5;
  pc = routine * m.story_scaler + 1;
  frame_count = (m.frame_count + 1) % 0x10000;
  stack =
      update
        (update
          (update
            (update (update m.stack (m.sp - 1) (m.pc / 512 % 0x10000)) (m.sp - 2)
              (m.pc % 512 % 0x10000))
            (m.sp - 3) (m.fp % 0x10000))
          (m.sp - 4) (bit_or (length argv) type % 0x10000))
        (m.sp - 4) (bit_or (bit_or (length argv) type % 0x10000) (vars * 256) % 0x10000);
}

module _ (interpret : M ℕ) (routine : ℕ) (argv : List ℕ) (type : ℕ) (m : Machine) where
  z_call-entered :
      routine ≢ 0
      → 5 ≤ m.sp
      → m.sp ≤ stack_size
      → 512 ≤ routine * m.story_scaler
      → type ≢ call_async
      → z_call interpret (routine ∷ argv) type m
        ≡ (do push_locals (m.story (routine * m.story_scaler)) argv; pure 0)
            (entered routine argv type (m.story (routine * m.story_scaler)) m)
  unfolding z_call entered
  z_call-entered nz room bound code sync =
      let e2 : m.sp - 1 - 1 ≡ m.sp - 2 = omega arith in
      let e3 : m.sp - 2 - 1 ≡ m.sp - 3 = omega arith in
      let e4 : m.sp - 3 - 1 ≡ m.sp - 4 = omega arith in
      let e5 : (m.sp - 4 + 0xffff) % 0x10000 ≡ m.sp - 5 = omega arith in
      let s1 = update m.stack (m.sp - 1) (m.pc / 512 % 0x10000) in
      let s2 = update s1 (m.sp - 2) (m.pc % 512 % 0x10000) in
      let s3 = update s2 (m.sp - 3) (m.fp % 0x10000) in
      let info = bit_or (length argv) type in
      let s4 = update s3 (m.sp - 4) (info % 0x10000) in
      let pc = routine * m.story_scaler in
      let m5 : Machine = record m {
        sp = m.sp - 4;
        stack = s4;
        fp = m.sp - 5;
        pc = pc;
        frame_count = (m.frame_count + 1) % 0x10000;
      } in
      let m6 : Machine = record m5 { pc = pc + 1 } in
      rw
        (
          ne→not_== routine 0 nz,
          ne→not_== type call_async sync,
          push-ok (m.pc / 512) m (omega arith) bound,
          push-ok (m.pc % 512) (record m { sp = m.sp - 1; stack = s1 }) (omega arith) (omega arith),
          e2,
          push-ok m.fp (record m { sp = m.sp - 2; stack = s2 }) (omega arith) (omega arith),
          e3,
          push-ok info (record m { sp = m.sp - 3; stack = s3 }) (omega arith) (omega arith),
          e4,
          e5,
          read_code_byte-ok m5 code,
          stack_get-ok (m.sp - 4) m6 (omega arith),
          stack_set-ok (m.sp - 4) (bit_or (s4 (m.sp - 4)) (m.story pc * 256)) m6 (omega arith),
          update_self s3 (m.sp - 4) (info % 0x10000),
        )
        refl

-- What a call needs: a routine in the code, fewer than 16 variables, room on the stack, and
-- registers that fit their cells.
pub record CanCall (routine : ℕ) (argv : List ℕ) (m : Machine) : Type 0 where
  pub routine_ne : routine ≢ 0
  pub code : 512 ≤ routine * m.story_scaler
  pub vars : m.story (routine * m.story_scaler) < 16
  pub args : length argv < 256
  pub room : 5 + m.story (routine * m.story_scaler) ≤ m.sp
  pub bound : m.sp ≤ stack_size
  pub pc_fits : m.pc < 0x2000000
  pub fp_fits : m.fp < 0x10000

-- What a call leaves: the frame, the locals with their first values, and the caller's stack.
pub record Called (type routine : ℕ) (argv : List ℕ) (c m : Machine) : Type 0 where
  pub frame : HasFrame type (length argv) (c.story (routine * c.story_scaler)) c m
  pub locals :
      (k : ℕ)
      → k < c.story (routine * c.story_scaler)
      → m.stack (m.fp - k) ≡ initial argv k (routine * c.story_scaler + 1) c
  pub caller : (i : ℕ) → c.sp ≤ i → m.stack i ≡ c.stack i
  pub sp : m.sp + c.story (routine * c.story_scaler) ≡ m.fp + 1
  pub frame_count : m.frame_count ≡ (c.frame_count + 1) % 0x10000

first_info :
    (t args vars : ℕ)
    → args < 256
    → vars < 16
    → t < 3
    → bit_or (bit_or args (t * 4096) % 0x10000) (vars * 256) % 0x10000
      ≡ t * 4096 + vars * 256 + args
first_info t args vars ha hv ht =
    let inner : bit_or args (t * 4096) % 0x10000 ≡ bit_or args (t * 4096) =
      omega (arith, bit_or_comm args (t * 4096), bit_or_fields 12 t args (omega arith)) in
    rw (inner, info_word t args vars ha hv) (omega arith)

module _ (routine : ℕ) (argv : List ℕ) (t : ℕ) (c m : Machine) (can : CanCall routine argv c)
    (ht : t < 3)
    (p : Pushed
      (c.story (routine * c.story_scaler))
      argv
      (entered routine argv (t * 4096) (c.story (routine * c.story_scaler)) c)
      m) where
  HasFrame-entered : HasFrame (t * 4096) (length argv) (c.story (routine * c.story_scaler)) c m
  unfolding entered
  HasFrame-entered =
      let fp : m.fp ≡ c.sp - 5 = p.fp in
      record {
        room = omega (arith, can.room, fp);
        info = ground (
          arith,
          can.room,
          fp,
          p.above (c.sp - 4) (omega arith),
          first_info t (length argv) (c.story (routine * c.story_scaler)) can.args can.vars ht,
        );
        saved_fp =
            ground (arith, can.room, can.fp_fits, fp, p.above (c.sp - 3) (omega (arith, can.room)));
        saved_offset = ground (arith, can.room, fp, p.above (c.sp - 2) (omega (arith, can.room)));
        saved_page =
            ground (arith, can.room, can.pc_fits, fp, p.above (c.sp - 1) (omega (arith, can.room)));
      }

  Called-entered : Called (t * 4096) routine argv c m
  unfolding entered
  Called-entered =
      let fp : m.fp ≡ c.sp - 5 = p.fp in
      record {
        frame = HasFrame-entered;
        locals = λ k h.
            let e : m.fp - k ≡ c.sp - 4 - 1 - k = omega (arith, fp, can.room) in
            rw e (p.locals k h);
        caller = λ i h. ground (arith, can.room, p.above i (omega arith));
        sp = omega (arith, can.room, fp, p.sp);
        frame_count = p.frame_count;
      }

-- A routine that is called as a function (`t` is 0) or a procedure (1) with a nonzero address: the
-- call ends, and leaves the caller's registers in a frame of four words, the argument and variable
-- counts in it, every local with its argument or default, and the caller's part of the stack as it
-- was.
pub z_call-Called :
    (interpret : M ℕ) (routine : ℕ) (argv : List ℕ) (t : ℕ) (m : Machine)
    → CanCall routine argv m
    → t < 2
    → (m' : Machine) × (z_call interpret (routine ∷ argv) (t * 4096) m ≡ ok 0 m')
      × Called (t * 4096) routine argv m m'
z_call-Called interpret routine argv t m can ht =
    let vars = m.story (routine * m.story_scaler) in
    let start = entered routine argv (t * 4096) vars m in
    let (m', e, p) =
      push_locals-Pushed vars argv start (unfold entered in omega (arith, can.room))
        (unfold entered in omega (arith, can.bound)) (unfold entered in omega (arith, can.code)) in
    (
      m',
      z_call-entered interpret routine argv (t * 4096) m can.routine_ne (omega (arith, can.room))
            can.bound can.code (omega arith)
          ∙ rw e refl,
      Called-entered routine argv t m m' can (omega arith) p,
    )

finish_return-type :
    (value t : ℕ) (m : Machine)
    → t < 2
    → finish_return (t * 4096) value m ≡ (if t == 0 then store_operand value else pure tt) m
unfolding finish_return
finish_return-type value zero m h = refl
finish_return-type value (suc zero) m h = refl
finish_return-type value (suc (suc t)) m h = absurd (omega arith)

-- Whatever the routine did, as long as the frame of its call stands: a return puts back the
-- caller's stack pointer, frame pointer and program counter, and then stores the value where the
-- call was a function's.
pub z_ret-z_call :
    (value t args vars : ℕ) {c m : Machine}
    → HasFrame (t * 4096) args vars c m
    → args < 256
    → vars < 16
    → c.sp ≤ stack_size
    → t < 2
    → z_ret value m
      ≡ (if t == 0 then store_operand value else pure tt) (record m {
        sp = c.sp;
        fp = c.fp;
        pc = c.pc;
        frame_count = (m.frame_count + 0xffff) % 0x10000;
      })
unfolding finish_return
z_ret-z_call value t args vars {c} {m} f ha hv hs ht =
    z_ret-popped (t * 4096) args vars f value ha hv hs t (omega arith) refl
    ∙ finish_return-type value t _ ht
