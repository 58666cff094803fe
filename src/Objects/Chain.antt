-- ===== src/Objects/Chain.antt =====
-- Chains of links between numbers: a chain ends at 0, and an element is spliced out of it by one
-- write.
use jzip.Prelude.{
  ℕ, ◌≡◌, ◌≢◌, inl, inr, refl, sym, ap, arith, Bool, true, false, ◌||◌, List, [], ◌∷◌, ◌==◌,
  if◌then◌else◌, Bool-cases, ==→eq,
}
use jzip.Machine.{update}
use mathlib.Core.Path.{subst}

-- From `first` the links `L` lead through `xs` to 0.
abbrev pub Chain : (ℕ → ℕ) → ℕ → List ℕ → Type 0
Chain L first [] = first ≡ 0
Chain L first (x ∷ xs) = (first ≡ x) × (x ≢ 0) × Chain L (L x) xs

abbrev pub has : ℕ → List ℕ → Bool
has a [] = false
has a (x ∷ xs) = x == a || has a xs

-- No element stands twice.
abbrev pub Distinct : List ℕ → Type 0
Distinct [] = Unit
Distinct (x ∷ xs) = (has x xs ≡ false) × Distinct xs

unfoldable pub erase : ℕ → List ℕ → List ℕ
erase a [] = []
erase a (x ∷ xs) = if x == a then xs else x ∷ erase a xs

-- The element before `a` in `x ∷ xs`.
unfoldable pub before : ℕ → ℕ → List ℕ → ℕ
before a x [] = x
before a x (y ∷ ys) = if y == a then x else before a y ys

pub Chain-cong :
    (L L' : ℕ → ℕ) (first : ℕ) (xs : List ℕ)
    → ((a : ℕ) → has a xs ≡ true → L' a ≡ L a)
    → Chain L first xs
    → Chain L' first xs
Chain-cong L L' first [] same c = c
Chain-cong L L' first (x ∷ xs) same (e, nz, c) =
    (e, nz, rw (same x (ground arith)) (Chain-cong L L' (L x) xs (λ a h. same a (ground arith)) c))

pub ne_of_has : (a b : ℕ) (xs : List ℕ) → has a xs ≡ false → has b xs ≡ true → b ≢ a
ne_of_has a b xs out in' e = cc (ap (λ c. has c xs) e)

update_ne : (L : ℕ → ℕ) (a v b : ℕ) → b ≢ a → update L a v b ≡ L b
update_ne L a v b ne = ground arith

pub Chain-update :
    (L : ℕ → ℕ) (first a v : ℕ) (xs : List ℕ)
    → has a xs ≡ false
    → Chain L first xs
    → Chain (update L a v) first xs
Chain-update L first a v xs out c =
    Chain-cong L (update L a v) first xs (λ b h. update_ne L a v b (ne_of_has a b xs out h)) c

pub has-before : (a x : ℕ) (xs : List ℕ) → has (before a x xs) (x ∷ xs) ≡ true
unfolding before
has-before a x [] = ground arith
has-before a x (y ∷ ys) = ground (arith, has-before a y ys)

update_at : (L : ℕ → ℕ) (a v : ℕ) → update L a v a ≡ v
update_at L a v = ground arith

before-hit : (a x y : ℕ) (ys : List ℕ) → (y == a) ≡ true → before a x (y ∷ ys) ≡ x
unfolding before
before-hit a x y ys h = rw h

before-miss : (a x y : ℕ) (ys : List ℕ) → (y == a) ≡ false → before a x (y ∷ ys) ≡ before a y ys
unfolding before
before-miss a x y ys h = rw h

erase-hit : (a y : ℕ) (ys : List ℕ) → (y == a) ≡ true → erase a (y ∷ ys) ≡ ys
unfolding erase
erase-hit a y ys h = rw h

erase-miss : (a y : ℕ) (ys : List ℕ) → (y == a) ≡ false → erase a (y ∷ ys) ≡ y ∷ erase a ys
unfolding erase
erase-miss a y ys h = rw h

-- One write at the element before `a` takes `a` out of the chain.
pub Chain-splice :
    (L : ℕ → ℕ) (a x : ℕ) (xs : List ℕ)
    → Chain L x (x ∷ xs)
    → Distinct (x ∷ xs)
    → has a xs ≡ true
    → Chain (update L (before a x xs) (L a)) x (x ∷ erase a xs)
Chain-splice L a x [] c d h = cc
Chain-splice L a x (y ∷ ys) (e, nz, (e', nz', c)) (out, d) h = elim (Bool-cases (y == a)) [
  | inl at ↦
      let here : a ≡ y = sym (==→eq y a at) in
      subst (λ q. Chain (update L q (L a)) x (x ∷ erase a (y ∷ ys))) (sym (before-hit a x y ys at))
        (rw (erase-hit a y ys at) (
          refl,
          nz,
          rw (update_at L x (L a)) (Chain-update L (L a) x (L a) ys (ground arith) (rw here c)),
        ))
  | inr off ↦
      let p = before a y ys in
      let far : x ≢ p = ne_of_has' (ground arith) in
      subst (λ q. Chain (update L q (L a)) x (x ∷ erase a (y ∷ ys)))
        (sym (before-miss a x y ys off))
        (rw (erase-miss a y ys off) (
          refl,
          nz,
          rw (update_ne L p (L a) x far, e')
              (Chain-splice L a y ys (refl, nz', c) d (ground arith)),
        ))
]
  where
    ne_of_has' : has x (y ∷ ys) ≡ false → x ≢ before a y ys
    ne_of_has' o e = ne_of_has x (before a y ys) (y ∷ ys) o (has-before a y ys) (sym e)

pub has-erase : (a b : ℕ) (xs : List ℕ) → has b xs ≡ false → has b (erase a xs) ≡ false
unfolding erase
has-erase a b [] h = refl
has-erase a b (x ∷ xs) h = ground (arith, has-erase a b xs)

pub Distinct-erase : (a : ℕ) (xs : List ℕ) → Distinct xs → Distinct (erase a xs)
unfolding erase
Distinct-erase a [] d = d
Distinct-erase a (x ∷ xs) (out, d) = elim (Bool-cases (x == a)) [
  | inl at ↦ rw at d
  | inr off ↦ rw off (has-erase a x xs out, Distinct-erase a xs d)
]

pub has-erase_self : (a : ℕ) (xs : List ℕ) → Distinct xs → has a (erase a xs) ≡ false
unfolding erase
has-erase_self a [] d = refl
has-erase_self a (x ∷ xs) (out, d) = elim (Bool-cases (x == a)) [
  | inl at ↦ rw at (rw (==→eq x a at) at out)
  | inr off ↦ rw off (rw off (has-erase_self a xs d))
]
