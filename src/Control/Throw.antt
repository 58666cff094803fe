-- ===== src/Control/Throw.antt =====
-- `z_throw` down the chain of saved frame pointers.
use jzip.Prelude.{
  ℕ, zero, suc, ◌+◌, ◌-◌, ◌%◌, ◌<◌, ◌≡◌, ◌∙◌, ap, refl, arith, inl, inr, Bool-cases, ltb,
  if◌then◌else◌,
}
use jzip.Machine.{Machine, ok, fatal, nonexistent_frame, ◌>>◌, stack_get-ok, stack_size}
use jzip.Return.{z_ret}
use jzip.Control.{drop_frame, drop_frames, z_throw}

-- The frame pointer that `k` saved links lead to, within the stack.
abbrev pub Linked : ℕ → (ℕ → ℕ) → ℕ → ℕ → Type 0
Linked zero stack fp target = fp ≡ target
Linked (suc k) stack fp target = (fp + 2 < stack_size) × Linked k stack (stack (fp + 2)) target

abbrev dropped : Machine → Machine
dropped m = record m {
  sp = m.fp + 1;
  fp = m.stack (m.fp + 2);
  frame_count = (m.frame_count + 0xffff) % 0x10000;
}

drop_frame-dropped : (m : Machine) → m.fp + 2 < stack_size → drop_frame m ≡ ok tt (dropped m)
unfolding drop_frame
drop_frame-dropped m h =
    let e : (m.fp + 1) % 0x10000 ≡ m.fp + 1 = omega arith in
    let e' : m.fp + 1 + 1 ≡ m.fp + 2 = omega arith in
    rw (e, e', stack_get-ok (m.fp + 2) (record m { sp = m.fp + 1 }) h) refl

-- A return sets the stack pointer from the frame pointer.
z_ret-sp : (sp value : ℕ) (m : Machine) → z_ret value (record m { sp = sp }) ≡ z_ret value m
unfolding z_ret
z_ret-sp sp value m = refl

-- `k` rounds of the loop. The return that follows sets the stack pointer anew.
drop_frames-z_ret :
    (k n value target : ℕ) (m : Machine)
    → Linked k m.stack m.fp target
    → m.frame_count ≡ n + k
    → m.frame_count < 0x10000
    → (do drop_frames k; z_ret value) m ≡ z_ret value (record m { fp = target; frame_count = n })
unfolding drop_frames
drop_frames-z_ret zero n value target m l e h =
    let count : m.frame_count ≡ n = omega arith in
    ap (λ (f : ℕ). z_ret value (record m { fp = f })) l
    ∙ ap (λ (k : ℕ). z_ret value (record m { fp = target; frame_count = k })) count
drop_frames-z_ret (suc k) n value target m (room, l) e h = rw (drop_frame-dropped m room) (
    drop_frames-z_ret k n value target (dropped m) l (omega arith) (omega arith)
    ∙ z_ret-sp (m.fp + 1) value (record m { fp = target; frame_count = n }))

-- A throw for every frame number `n`, as `z_catch` gives one. Where `n` is above the frame pointer, the
-- throw is the fatal error of a frame that does not exist. Otherwise it is a return from the frame
-- that the saved frame pointers lead to from the running one, by as many links as the frame count
-- is above `n`, with the frame count lowered to `n`; where `n` is not below the frame count it is
-- a return from the running frame, with the frame count as it is. The links lie in the stack and
-- the frame count is a word.
pub z_throw-z_ret :
    (n value target : ℕ) (m : Machine)
    → Linked (m.frame_count - n) m.stack m.fp target
    → m.frame_count < 0x10000
    → z_throw value n m ≡ (
        if ltb m.fp n
        then fatal nonexistent_frame
        else z_ret value (record m {
          fp = target;
          frame_count = if ltb n m.frame_count then n else m.frame_count;
        }))
unfolding z_throw
z_throw-z_ret n value target m l h = elim (Bool-cases (ltb m.fp n)) [
  | inl refused ↦ rw refused refl
  | inr passed ↦ rw passed (
      drop_frames-z_ret (m.frame_count - n) (if ltb n m.frame_count then n else m.frame_count) value
        target m l (ground arith) h)
]
