-- ===== src/Input/Chop.antt =====
-- The chop search finds a word of a sorted dictionary wherever it stands.
use jzip.Prelude.{
  ℕ, zero, suc, ◌+◌, ◌-◌, ◌*◌, ◌/◌, ◌%◌, ◌^◌, ◌<◌, ◌≤◌, ◌≡◌, ◌≢◌, ◌∙◌, ◌⊎◌, inl, inr, refl, sym, ap,
  arith, ltb, leb, ◌==◌, if◌then◌else◌, Bool-cases, ne→not_==, List,
}
use native.Mathlib.Nat.{pow-suc, one-le-pow, mul_assoc, mul_comm}
use jzip.Machine.{Machine, ok}
use jzip.Input.{Dictionary, Status, below, same, above, compare_entry, binary_chop, chop_loop}

-- The order of two numbers, as the sign of their difference.
abbrev pub order : ℕ → ℕ → Status
order a b = if a == b then same else if ltb b a then above else below

-- Entry `i` of a dictionary of `n` entries compares as the number `keys i`, and the keys ascend.
pub record IsSorted (word : List ℕ) (key : ℕ) (keys : ℕ → ℕ) (d : Dictionary) (n : ℕ) (m : Machine)
    : Type 0 where
  pub reads :
      (i : ℕ)
      → i < n
      → compare_entry word (d.dictionary_offset + i * d.entry_size) m ≡ ok (order key (keys i)) m
  pub ascend : (i j : ℕ) → i < j → j < n → keys i < keys j

-- The distance of two numbers is less than `c`.
abbrev pub Near : ℕ → ℕ → ℕ → Type 0
Near c a b = (a < b + c) × (b < a + c)

abbrev pub entry_offset : Dictionary → ℕ → ℕ
entry_offset d i = (d.dictionary_offset + i * d.entry_size) % 0x10000

order-below : (a b : ℕ) → a < b → order a b ≡ below
order-below a b h = ground arith

order-above : (a b : ℕ) → b < a → order a b ≡ above
order-above a b h = ground arith

order-same : (a b : ℕ) → a ≡ b → order a b ≡ same
order-same a b h = ground arith

-- The place that a round looks at, and those that the next round does.
abbrev clamp : ℕ → ℕ → ℕ
clamp n at = if ltb (n - 1) at then n - 1 else at

abbrev up : ℕ → ℕ → ℕ
up n at = if leb n at then n - 1 else at

module _ (fuel : ℕ) (word : List ℕ) (key : ℕ) (keys : ℕ → ℕ) (d : Dictionary) (n chop at : ℕ)
    (m : Machine) (s : IsSorted word key keys d n m) (some' : chop ≢ 0) (full : 1 ≤ n) where
  abbrev place : ℕ
  place = clamp n at

  read :
      compare_entry word (d.dictionary_offset + place * d.entry_size) m
      ≡ ok (order key (keys place)) m
  read = s.reads place (ground arith)

  round_same :
      keys place ≡ key → binary_chop (suc fuel) word d n chop at m ≡ ok (entry_offset d place) m
  unfolding binary_chop
  round_same e = rw (ne→not_== chop 0 some', read, order-same key (keys place) (sym e)) refl

  round_above :
      keys place < key
      → binary_chop (suc fuel) word d n chop at m
        ≡ binary_chop fuel word d n (chop / 2) (up n (place + chop / 2)) m
  unfolding binary_chop
  round_above h = rw (ne→not_== chop 0 some', read, order-above key (keys place) h) refl

  round_below :
      key < keys place
      → binary_chop (suc fuel) word d n chop at m
        ≡ binary_chop fuel word d n (chop / 2) (place - chop / 2) m
  unfolding binary_chop
  round_below h = rw (ne→not_== chop 0 some', read, order-below key (keys place) h) refl

compare_cases : (a b : ℕ) → (a < b) ⊎ ((a ≡ b) ⊎ (b < a))
compare_cases a b = elim (Bool-cases (ltb a b)) [
  | inl h ↦ inl (ground arith)
  | inr h ↦ elim (Bool-cases (a == b)) [
    | inl e ↦ inr (inl (ground arith))
    | inr ne ↦ inr (inr (ground arith))
  ]
]

Near-clamp : (c n t at : ℕ) → t < n → Near c t at → Near c t (clamp n at)
Near-clamp c n t at h near = ground arith

Near-up : (c n t p : ℕ) → t < n → p < t → Near (2 * c) t p → Near c t (up n (p + c))
Near-up c n t p h l near = ground arith

Near-lower : (c t p : ℕ) → t < p → Near (2 * c) t p → 1 ≤ c → Near c t (p - c)
Near-lower c t p l near h = omega arith

-- While entry `t` is the word, it is nearer than the chop to the place that is looked at.
pub binary_chop-finds :
    (k fuel : ℕ) (word : List ℕ) (key : ℕ) (keys : ℕ → ℕ) (d : Dictionary) (n t at : ℕ)
    (m : Machine)
    → IsSorted word key keys d n m
    → t < n
    → keys t ≡ key
    → k < fuel
    → Near (2 ^ k) t at
    → binary_chop fuel word d n (2 ^ k) at m ≡ ok (entry_offset d t) m
binary_chop-finds k zero word key keys d n t at m s h e room near = absurd (omega arith)
binary_chop-finds zero (suc fuel) word key keys d n t at m s h e room near =
    let here : clamp n at ≡ t = ground arith in
    round_same fuel word key keys d n 1 at m s (λ q. absurd (omega arith)) (omega arith)
      (ap keys here ∙ e)
    ∙ ap (λ q. ok (entry_offset d q) m) here
binary_chop-finds (suc k) (suc fuel) word key keys d n t at m s h e room near =
    let c = 2 ^ k in
    let one : 1 ≤ c = one-le-pow k 2 (omega arith) in
    let twice : 2 ^ suc k ≡ 2 * c = omega (arith, pow-suc 2 k) in
    let half : 2 * c / 2 ≡ c = omega arith in
    let p = clamp n at in
    let near' : Near (2 * c) t p = Near-clamp (2 * c) n t at h (rw twice at near) in
    let nz : 2 * c ≢ 0 = (λ q. absurd (omega arith)) in
    let full : 1 ≤ n = omega arith in
    let inside : p < n = ground arith in
    rw twice (elim (compare_cases t p) [
      | inl low ↦
          round_below fuel word key keys d n (2 * c) at m s nz full
            (omega (arith, s.ascend t p low inside))
          ∙ rw half (
              binary_chop-finds k fuel word key keys d n t (p - c) m s h e (omega arith)
                (Near-lower c t p low near' one))
      | inr (inl here) ↦
          round_same fuel word key keys d n (2 * c) at m s nz full (ap keys (sym here) ∙ e)
          ∙ ap (λ q. ok (entry_offset d q) m) (sym here)
      | inr (inr high) ↦
          round_above fuel word key keys d n (2 * c) at m s nz full
            (omega (arith, s.ascend p t high h))
          ∙ rw half (
              binary_chop-finds k fuel word key keys d n t (up n (p + c)) m s h e (omega arith)
                (Near-up c n t p h high near'))
    ])

binary_chop_ended :
    (fuel : ℕ) (word : List ℕ) (d : Dictionary) (n at : ℕ) (m : Machine)
    → 1 ≤ fuel
    → binary_chop fuel word d n 0 at m ≡ ok 0 m
unfolding binary_chop
binary_chop_ended zero word d n at m some' = absurd (omega arith)
binary_chop_ended (suc fuel) word d n at m some' = refl

-- Where no entry is the word, the search ends with 0.
pub binary_chop-misses :
    (k fuel : ℕ) (word : List ℕ) (key : ℕ) (keys : ℕ → ℕ) (d : Dictionary) (n at : ℕ) (m : Machine)
    → IsSorted word key keys d n m
    → 1 ≤ n
    → ((i : ℕ) → i < n → keys i ≢ key)
    → k + 1 < fuel
    → binary_chop fuel word d n (2 ^ k) at m ≡ ok 0 m
binary_chop-misses k zero word key keys d n at m s full none' room = absurd (omega arith)
binary_chop-misses zero (suc fuel) word key keys d n at m s full none' room =
    let p = clamp n at in
    let inside : p < n = ground arith in
    let one : ◌≢◌ {A = ℕ} 1 0 = (λ q. absurd (omega arith)) in
    elim (compare_cases key (keys p)) [
      | inl low ↦
          round_below fuel word key keys d n 1 at m s one full low
          ∙ binary_chop_ended fuel word d n (p - 0) m (omega arith)
      | inr (inl here) ↦ absurd (none' p inside (sym here))
      | inr (inr high) ↦
          round_above fuel word key keys d n 1 at m s one full high
          ∙ binary_chop_ended fuel word d n (up n (p + 0)) m (omega arith)
    ]
binary_chop-misses (suc k) (suc fuel) word key keys d n at m s full none' room =
    let c = 2 ^ k in
    let one : 1 ≤ c = one-le-pow k 2 (omega arith) in
    let twice : 2 ^ suc k ≡ 2 * c = omega (arith, pow-suc 2 k) in
    let half : 2 * c / 2 ≡ c = omega arith in
    let p = clamp n at in
    let inside : p < n = ground arith in
    let nz : 2 * c ≢ 0 = (λ q. absurd (omega arith)) in
    rw twice (elim (compare_cases key (keys p)) [
      | inl low ↦
          round_below fuel word key keys d n (2 * c) at m s nz full low
          ∙ rw half
              (binary_chop-misses k fuel word key keys d n (p - c) m s full none' (omega arith))
      | inr (inl here) ↦ absurd (none' p inside (sym here))
      | inr (inr high) ↦
          round_above fuel word key keys d n (2 * c) at m s nz full high
          ∙ rw half (
              binary_chop-misses k fuel word key keys d n (up n (p + c)) m s full none'
                (omega arith))
    ])

-- The chop starts as a power of two above half the size.
pub record Starts (n chop : ℕ) : Type 0 where
  pub exponent : ℕ
  pub power : chop ≡ 2 ^ exponent
  pub enough : n < 2 * chop

mul_mono : (a b k : ℕ) → a ≤ b → a * k ≤ b * k
mul_mono a b k h = grind arith

twice_next : (n w c : ℕ) → n < (w + 1) * (2 * c) → n < (w / 2 + 1) * (2 * (2 * c))
twice_next n w c h = omega (
  arith,
  mul_mono (w + 1) ((w / 2 + 1) * 2) (2 * c) (omega arith),
  mul_assoc (w / 2 + 1) 2 (2 * c),
)

-- With `word_index` the size divided by twice the chop.
pub chop_loop-Starts :
    (fuel n w e : ℕ) → n < (w + 1) * (2 * 2 ^ e) → w ≤ fuel → Starts n (chop_loop fuel w (2 ^ e))
unfolding chop_loop
chop_loop-Starts zero n w e h k = record {
  exponent = suc e;
  power = omega (arith, pow-suc 2 e);
  enough = grind arith;
}
chop_loop-Starts (suc fuel) n w e h k = elim (Bool-cases (w / 2 == 0)) [
  | inl end ↦ rw end (record {
    exponent = suc e;
    power = omega (arith, pow-suc 2 e);
    enough = omega (arith, mul_mono (w + 1) 2 (2 * 2 ^ e) (ground arith));
  })
  | inr more ↦
      let next : 2 ^ e * 2 ≡ 2 ^ suc e = omega (arith, pow-suc 2 e) in
      rw (more, next)
        (chop_loop-Starts fuel n (w / 2) (suc e)
          (omega (
            arith,
            twice_next n w (2 ^ e) h,
            pow-suc 2 e,
            ap (λ (t : ℕ). (w / 2 + 1) * (2 * t)) (pow-suc 2 e),
            ap (λ (t : ℕ). (w / 2 + 1) * (2 * t)) (mul_comm (2 ^ e) 2),
          ))
          (ground arith))
]
