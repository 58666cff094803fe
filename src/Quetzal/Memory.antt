-- ===== src/Quetzal/Memory.antt =====
-- The memory chunk of a saved game, written and read.
use jzip.Prelude.{
  ℕ, zero, suc, ◌+◌, ◌-◌, ◌%◌, ◌<◌, ◌≤◌, ◌≡◌, ◌∙◌, refl, sym, ap, arith, bit_xor, true, false, ltb,
  ◌==◌, Bool-cases, inl, inr, Option, some, List, ◌∷◌, ◌++◌, length, length-append, ne→not_==,
  ==→eq, lt→ltb, ltb→lt, le→not_ltb, append_assoc,
}
use jzip.Machine.{Machine, M, ok, pure, update, set_byte}
use jzip.Quetzal.{write_runs, encode}
use jzip.Quetzal.Compress.{xor_zero, xor_back}
use jzip.Quetzal.Save.{Game, file_bytes}
use jzip.Quetzal.Restore.{Progress, Loaded, story_getc, copy_run, restore_cmem}

-- A game whose dynamic memory is inside the data area and the story file, which has bytes.
pub record HasStory (g : Game) (n : Machine) : Type 0 where
  pub in_story : g.h_restart_size ≤ g.story_size
  pub in_area : g.h_restart_size ≤ n.data_size
  pub small : g.h_restart_size < 0x10000
  pub story_has_bytes : (a : ℕ) → n.story a < 256

-- The data area `d` has the bytes of `t` below `i`, and those of `base` from there on.
pub record UpTo (t base : ℕ → ℕ) (i : ℕ) (d : ℕ → ℕ) : Type 0 where
  pub done : (a : ℕ) → a < i → d a ≡ t a
  pub still : (a : ℕ) → i ≤ a → d a ≡ base a

pub UpTo-update :
    (t base : ℕ → ℕ) (i v : ℕ) (d : ℕ → ℕ)
    → v ≡ t i
    → UpTo t base i d
    → UpTo t base (i + 1) (update d i v)
UpTo-update t base i v d e u = record {
  done = λ a h. elim (Bool-cases (a == i)) [
    | inl here ↦ rw here (e ∙ ap t (sym (==→eq a i here)))
    | inr other ↦ rw other (u.done a (ground arith))
  ];
  still = λ a h. rw (ne→not_== a i (λ e. omega (arith, e, h))) (u.still a (omega (arith, h)));
}

nonzero : (j : ℕ) → (j == 0) ≡ false → 0 < j
nonzero j h = ground arith

module _ {g : Game} {n : Machine} {t : ℕ → ℕ} (s : HasStory g n) (bytes : (a : ℕ) → t a < 256) where
  pub set-ok :
      (i v : ℕ) (d : ℕ → ℕ)
      → v ≡ t i
      → i < g.h_restart_size
      → set_byte i v (record n { datap = d }) ≡ ok tt (record n { datap = update d i v })
  unfolding set_byte
  set-ok i v d e h =
      let whole : v % 256 ≡ v = omega (arith, e, bytes i) in
      rw (lt→ltb i n.data_size (omega (arith, s.in_area)), whole) refl

  copy-ok :
      (count i to : ℕ) (d : ℕ → ℕ) (next : ℕ → ℕ → M (Option Loaded))
      → i + count ≡ to
      → to ≤ g.h_restart_size
      → ((a : ℕ) → i ≤ a → a < to → n.story a ≡ t a)
      → UpTo t n.datap i d
      → (d' : ℕ → ℕ) × UpTo t n.datap to d'
        × (copy_run g count i i next (record n { datap = d })
            ≡ next to to (record n { datap = d' }))
  unfolding copy_run story_getc
  copy-ok zero i to d next e h same u =
      let e' : i ≡ to = omega (arith, e) in
      (d, rw⁻¹ e' u, ap (λ k. next k k (record n { datap = d })) e')
  copy-ok (suc count) i to d next e h same u =
      let here : n.story i ≡ t i = same i (omega arith) (omega (arith, e)) in
      let (d', u', runs) =
        copy-ok count (i + 1) to (update d i (n.story i)) next (omega (arith, e)) h
          (λ a low high. same a (omega (arith, low)) high)
          (UpTo-update t n.datap i (n.story i) d here u) in
      (
        d',
        u',
        rw
            (
              lt→ltb i g.h_restart_size (omega (arith, e, h)),
              lt→ltb i g.story_size (omega (arith, e, h, s.in_story)),
              set-ok i (n.story i) d here (omega (arith, e, h)),
            )
            runs,
      )

  -- A run of `count + 1` bytes at `i`.
  run-ok :
      (count i to more : ℕ) (progress : Progress) (rest : List ℕ) (d : ℕ → ℕ)
      → i + (count + 1) ≡ to
      → to ≤ g.h_restart_size
      → ((a : ℕ) → i ≤ a → a < to → n.story a ≡ t a)
      → UpTo t n.datap i d
      → (d' : ℕ → ℕ) × UpTo t n.datap to d'
        × (restore_cmem g progress (2 + more) i i (0 ∷ count ∷ rest) (record n { datap = d })
            ≡ restore_cmem g progress more to to rest (record n { datap = d' }))
  unfolding restore_cmem
  run-ok count i to more progress rest d e h same u =
      let (d', u', runs) =
        copy-ok (count + 1) i to d (λ from i. restore_cmem g progress more from i rest) e h same
          u in
      let two : 2 + more ≡ suc (suc more) = omega arith in
      (
        d',
        u',
        ap (λ k. restore_cmem g progress k i i (0 ∷ count ∷ rest) (record n { datap = d })) two
            ∙ runs,
      )

  no_run-ok :
      (i to more : ℕ) (progress : Progress) (rest : List ℕ) (d : ℕ → ℕ)
      → i ≡ to
      → UpTo t n.datap i d
      → (d' : ℕ → ℕ) × UpTo t n.datap to d'
        × (restore_cmem g progress (0 + more) i i rest (record n { datap = d })
            ≡ restore_cmem g progress more to to rest (record n { datap = d' }))
  no_run-ok i to more progress rest d e u =
      let none_left : 0 + more ≡ more = omega arith in (d, rw⁻¹ e u, rw (none_left, e) refl)

  runs-ok :
      (fuel j i to more : ℕ) (progress : Progress) (rest : List ℕ) (d : ℕ → ℕ)
      → j ≤ fuel
      → i + j ≡ to
      → to ≤ g.h_restart_size
      → ((a : ℕ) → i ≤ a → a < to → n.story a ≡ t a)
      → UpTo t n.datap i d
      → (d' : ℕ → ℕ) × UpTo t n.datap to d'
        × (restore_cmem g progress
              (length (write_runs fuel j) + more)
              i
              i
              (write_runs fuel j ++ rest)
              (record n { datap = d })
            ≡ restore_cmem g progress more to to rest (record n { datap = d' }))
  unfolding restore_cmem write_runs
  runs-ok zero j i to more progress rest d fuel e h same u =
      no_run-ok i to more progress rest d (omega (arith, e, fuel)) u
  runs-ok (suc fuel) j i to more progress rest d enough e h same u = elim (Bool-cases (j == 0)) [
    | inl empty ↦
        rw empty (no_run-ok i to more progress rest d (omega (arith, e, ==→eq j 0 empty)) u)
    | inr some_left ↦ elim (Bool-cases (ltb 0x100 j)) [
      | inl long ↦
          let over : 0x100 < j = ltb→lt 0x100 j long in
          let (d1, u1, run) =
            run-ok 0xff i (i + 0x100) (length (write_runs fuel (j - 0x100)) + more) progress
              (write_runs fuel (j - 0x100) ++ rest) d (omega arith) (omega (arith, e, h, over))
              (λ a low high. same a low (omega (arith, high, over, e))) u in
          let (d2, u2, others) =
            runs-ok fuel (j - 0x100) (i + 0x100) to more progress rest d1
              (omega (arith, enough, over)) (omega (arith, e, over)) h
              (λ a low high. same a (omega (arith, low)) high) u1 in
          let size : suc (suc (length (write_runs fuel (j - 0x100)))) + more
              ≡ 2 + (length (write_runs fuel (j - 0x100)) + more) =
            omega arith in
          (d2, u2, rw (some_left, long, size) (run ∙ others))
      | inr short ↦
          rw (some_left, short)
            (run-ok (j - 1) i to more progress rest d (omega (arith, e, nonzero j some_left)) h same
              u)
    ]
  ]

  -- A byte that differs from the story's.
  byte_as :
      (x i more : ℕ) (progress : Progress) (rest : List ℕ) (d : ℕ → ℕ)
      → (x == 0) ≡ false
      → bit_xor x (n.story i) ≡ t i
      → i < g.h_restart_size
      → restore_cmem g progress (1 + more) i i (x ∷ rest) (record n { datap = d })
        ≡ restore_cmem g progress more (i + 1) (i + 1) rest (record n { datap = update d i (t i) })
  unfolding restore_cmem
  byte_as zero i more progress rest d differ back h = cc
  byte_as (suc x) i more progress rest d differ back h =
      let one : 1 + more ≡ suc more = omega arith in
      let next : (i + 1) % 0x10000 ≡ i + 1 = omega (arith, h, s.small) in
      let fits : ltb g.h_restart_size (i + 1) ≡ false =
        le→not_ltb g.h_restart_size (i + 1) (omega (arith, h)) in
      ap (λ k. restore_cmem g progress k i i (suc x ∷ rest) (record n { datap = d })) one
      ∙ rw
          (
            lt→ltb i g.story_size (omega (arith, h, s.in_story)),
            set-ok i (bit_xor (suc x) (n.story i)) d back h,
            back,
            next,
            fits,
          )
          refl

  byte-ok :
      (i more : ℕ) (progress : Progress) (rest : List ℕ) (d : ℕ → ℕ)
      → (bit_xor (n.story i) (t i) == 0) ≡ false
      → i < g.h_restart_size
      → restore_cmem g progress
          (1 + more)
          i
          i
          (bit_xor (n.story i) (t i) ∷ rest)
          (record n { datap = d })
        ≡ restore_cmem g progress more (i + 1) (i + 1) rest (record n { datap = update d i (t i) })
  byte-ok i more progress rest d differ h =
      byte_as (bit_xor (n.story i) (t i)) i more progress rest d differ
        (xor_back (n.story i) (t i) (s.story_has_bytes i) (bytes i)) h

  one_more :
      (i p : ℕ)
      → n.story i ≡ t i
      → ((a : ℕ) → p ≤ a → a < i → n.story a ≡ t a)
      → (a : ℕ) → p ≤ a
      → a < i + 1
      → n.story a ≡ t a
  one_more i p here same a low high = elim (Bool-cases (a == i)) [
    | inl last ↦ let e : a ≡ i = ==→eq a i last in rw e here
    | inr before ↦ same a low (ground arith)
  ]

  -- The bytes of the chunk for the addresses from `i` on, with `j` pending.
  pub encode-ok :
      (k i j p : ℕ) (progress : Progress) (rest : List ℕ) (d : ℕ → ℕ)
      → i + k ≡ g.h_restart_size
      → p + j ≡ i
      → ((a : ℕ) → p ≤ a → a < i → n.story a ≡ t a)
      → UpTo t n.datap p d
      → (d' : ℕ → ℕ) × UpTo t n.datap g.h_restart_size d'
        × (restore_cmem g progress
              (length (encode j (file_bytes k i n.story) (file_bytes k i t)))
              p
              p
              (encode j (file_bytes k i n.story) (file_bytes k i t) ++ rest)
              (record n { datap = d })
            ≡ ok
                (some (record { progress = record progress { got_memory = true }; behind = rest }))
                (record n { datap = d' }))
  unfolding encode file_bytes restore_cmem
  encode-ok zero i j p progress rest d e pending same u =
      copy-ok (g.h_restart_size - p) p g.h_restart_size d
        (λ _ _.
          pure (some (record { progress = record progress { got_memory = true }; behind = rest })))
        (omega (arith, e, pending)) (omega arith)
        (λ a low high. same a low (omega (arith, high, e))) u
  encode-ok (suc k) i j p progress rest d e pending same u =
      elim (Bool-cases (bit_xor (n.story i) (t i) == 0)) [
        | inl equal ↦
            let here : n.story i ≡ t i =
              xor_zero (n.story i) (t i) (s.story_has_bytes i) (bytes i) equal in
            rw equal (
              encode-ok k (i + 1) (j + 1) p progress rest d (omega (arith, e))
                (omega (arith, pending)) (one_more i p here same) u)
        | inr differ ↦
            let x : ℕ = bit_xor (n.story i) (t i) in
            let runs : List ℕ = write_runs j j in
            let others : List ℕ =
              encode 0 (file_bytes k (i + 1) n.story) (file_bytes k (i + 1) t) in
            let (d1, u1, run) =
              runs-ok j j p i (1 + length others) progress (x ∷ (others ++ rest)) d (omega arith)
                pending (omega (arith, e)) same u in
            let d2 : ℕ → ℕ = update d1 i (t i) in
            let byte =
              byte-ok i (length others) progress (others ++ rest) d1 differ (omega (arith, e)) in
            let (d3, u3, all) =
              encode-ok k (i + 1) 0 (i + 1) progress rest d2 (omega (arith, e)) (omega arith)
                (λ a low high. absurd (omega (arith, low, high)))
                (UpTo-update t n.datap i (t i) d1 refl u1) in
            let size : length (runs ++ (x ∷ others)) ≡ length runs + (1 + length others) =
              omega (arith, length-append runs (x ∷ others)) in
            (d3, u3, rw (differ, size, append_assoc runs (x ∷ others) rest) (run ∙ byte ∙ all))
      ]
