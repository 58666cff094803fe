-- ===== src/Objects/Unlink.antt =====
-- Taking an object out of the children of its parent: the walk along the siblings and the writes.
use jzip.Prelude.{
  ℕ, zero, suc, ◌<◌, ◌≤◌, ◌≡◌, inl, inr, refl, arith, true, ◌&&◌, ltb, ◌==◌, if◌then◌else◌,
  Bool-cases, List, [], ◌∷◌, length, All,
}
use jzip.Machine.{Machine, ok}
use jzip.Objects.{Field, parent, next, child, find_previous, unlink}
use jzip.Objects.Links.{
  InTable, link, with_link, Fits, get_link-link, set_link-with_link, link-with_link, same_field,
}
use jzip.Objects.Chain.{Chain, has, Distinct, before}

-- The links to the next sibling.
abbrev pub siblings : Machine → ℕ → ℕ
siblings m obj = link next obj m

-- `kids` are the children of `obj`, first child first; each has `obj` for its parent.
pub record Children (obj : ℕ) (kids : List ℕ) (m : Machine) : Type 0 where
  pub in_table : InTable obj m
  pub kids_in_table : All (λ k. InTable k m) kids
  pub chain : Chain (siblings m) (link child obj m) kids
  pub distinct : Distinct kids
  pub few : length kids ≤ 0x10000

-- The walk finds the element before `obj`.
find_previous-before :
    (fuel obj x : ℕ) (xs : List ℕ) (m : Machine)
    → Chain (siblings m) x (x ∷ xs)
    → All (λ k. InTable k m) (x ∷ xs)
    → has obj xs ≡ true
    → length xs ≤ fuel
    → find_previous fuel obj x m ≡ ok (before obj x xs) m
unfolding find_previous before
find_previous-before fuel obj x [] m c t h few = cc
find_previous-before zero obj x (y ∷ ys) m c t h few = absurd (omega arith)
find_previous-before (suc fuel) obj x (y ∷ ys) m (_, _, (e, nz, c)) (t, (t', ts)) h few =
    elim (Bool-cases (y == obj)) [
      | inl at ↦ rw (get_link-link next x m t, e, at) refl
      | inr off ↦
          rw (get_link-link next x m t, e, off)
            (find_previous-before fuel obj y ys m (refl, nz, c) (t', ts) (ground arith)
              (omega arith))
    ]

pub InTable-with_link :
    (f : Field) (a v obj : ℕ) (m : Machine) → InTable obj m → InTable obj (with_link f a v m)
unfolding with_link
InTable-with_link f a v obj m t = record { number = t.number; inside = t.inside; word = t.word }

pub All-with_link :
    (f : Field) (a v : ℕ) (m : Machine) (xs : List ℕ)
    → All (λ k. InTable k m) xs
    → All (λ k. InTable k (with_link f a v m)) xs
All-with_link f a v m [] t = tt
All-with_link f a v m (x ∷ xs) (t, ts) =
    (InTable-with_link f a v x m t, All-with_link f a v m xs ts)

pub zero-Fits : (m : Machine) → Fits 0 m
zero-Fits m = elim (Bool-cases (ltb m.h_type 4)) [
  | inl old ↦ rw old (omega arith)
  | inr new ↦ rw new (omega arith)
]

-- A field of a data area of bytes holds what it can hold.
pub link-Fits :
    (f : Field) (obj : ℕ) (m : Machine) → ((a : ℕ) → m.datap a < 256) → Fits (link f obj m) m
unfolding link
link-Fits f obj m bytes = elim (Bool-cases (ltb m.h_type 4)) [
  | inl old ↦ rw old (bytes _)
  | inr new ↦ rw new (omega arith)
]

-- The three writes of `z_remove_obj`.
unfoldable pub removed : Field → ℕ → ℕ → ℕ → Machine → Machine
removed g b v obj m = with_link next obj 0 (with_link parent obj 0 (with_link g b v m))

pub link-removed :
    (f g : Field) (a b v obj : ℕ) (m : Machine)
    → Fits v m
    → link f a (removed g b v obj m) ≡ (
        if a == obj && same_field f next
        then 0
        else if a == obj && same_field f parent
        then 0
        else if a == b && same_field f g
        then v
        else link f a m)
unfolding removed
link-removed f g a b v obj m fits =
    rw
      (
        link-with_link f next a obj 0 (with_link parent obj 0 (with_link g b v m))
            (zero-Fits (with_link parent obj 0 (with_link g b v m))),
        link-with_link f parent a obj 0 (with_link g b v m) (zero-Fits (with_link g b v m)),
        link-with_link f g a b v m fits,
      )
      refl

-- The field that unlinks `obj` from the chain `kids` of `p`, and its object.
unfoldable pub unlink_field : ℕ → List ℕ → Field
unlink_field obj [] = child
unlink_field obj (x ∷ xs) = if x == obj then child else next

unfoldable pub unlink_at : ℕ → ℕ → List ℕ → ℕ
unlink_at obj p [] = p
unlink_at obj p (x ∷ xs) = if x == obj then p else before obj x xs

All-before : (P : ℕ → Type 0) (obj x : ℕ) (xs : List ℕ) → All P (x ∷ xs) → P (before obj x xs)
unfolding before
All-before P obj x [] t = t.0
All-before P obj x (y ∷ ys) (t, ts) = elim (Bool-cases (y == obj)) [
  | inl at ↦ rw at t
  | inr off ↦ rw off (All-before P obj y ys ts)
]

pub unlink-with_link :
    (obj p : ℕ) (kids : List ℕ) (m : Machine)
    → Children p kids m
    → InTable obj m
    → has obj kids ≡ true
    → unlink obj p m
      ≡ ok tt (with_link (unlink_field obj kids) (unlink_at obj p kids) (link next obj m) m)
unfolding unlink unlink_field unlink_at
unlink-with_link obj p [] m c t h = cc
unlink-with_link obj p (x ∷ xs) m c t h = elim (Bool-cases (x == obj)) [
  | inl at ↦
      rw (get_link-link child p m c.in_table, c.chain.0, at, get_link-link next obj m t)
        (set_link-with_link child p (link next obj m) m c.in_table)
  | inr off ↦
      rw
        (
          get_link-link child p m c.in_table,
          c.chain.0,
          off,
          find_previous-before 0x10000 obj x xs m (refl, c.chain.1, c.chain.2) c.kids_in_table
              (ground arith) (omega (arith, c.few)),
          get_link-link next obj m t,
        )
        (set_link-with_link next (before obj x xs) (link next obj m) m
          (All-before (λ k. InTable k m) obj x xs c.kids_in_table))
]
