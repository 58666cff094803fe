-- ===== src/Objects/Remove.antt =====
-- `z_remove_obj` on the tree: the chain of children before and after.
use jzip.Prelude.{
  ℕ, ◌≤◌, ◌≡◌, ◌∙◌, inl, inr, refl, ap, arith, true, false, ◌==◌, Bool-cases, ==→eq, ne→not_==,
  List, [], ◌∷◌, length, All,
}
use jzip.Machine.{Machine, ok, update}
use jzip.Objects.{Field, parent, next, child, z_remove_obj}
use jzip.Objects.Links.{InTable, link, with_link, Fits, get_link-link, set_link-with_link}
use jzip.Objects.Chain.{
  Chain, has, erase, before, Chain-cong, Chain-splice, Distinct-erase, has-erase_self,
}
use jzip.Objects.Unlink.{
  siblings, Children, InTable-with_link, All-with_link, removed, link-removed, unlink_field,
  unlink_at, unlink-with_link,
}

All-erase : (P : ℕ → Type 0) (a : ℕ) (xs : List ℕ) → All P xs → All P (erase a xs)
unfolding erase
All-erase P a [] t = t
All-erase P a (x ∷ xs) (t, ts) = elim (Bool-cases (x == a)) [
  | inl at ↦ rw at ts
  | inr off ↦ rw off (t, All-erase P a xs ts)
]

length-erase : (a : ℕ) (xs : List ℕ) → length (erase a xs) ≤ length xs
unfolding erase
length-erase a [] = omega arith
length-erase a (x ∷ xs) = ground (arith, length-erase a xs)

pub has_eq : (a b : ℕ) (xs : List ℕ) → has a xs ≡ true → has b xs ≡ false → (a == b) ≡ false
has_eq a b xs h k = ne→not_== a b (λ e. cc (ap (λ c. has c xs) e))

All-removed :
    (g : Field) (b v obj : ℕ) (m : Machine) (xs : List ℕ)
    → All (λ k. InTable k m) xs
    → All (λ k. InTable k (removed g b v obj m)) xs
unfolding removed
All-removed g b v obj m xs t =
    All-with_link next obj 0 (with_link parent obj 0 (with_link g b v m)) xs
      (All-with_link parent obj 0 (with_link g b v m) xs (All-with_link g b v m xs t))

pub InTable-removed :
    (g : Field) (b v obj k : ℕ) (m : Machine) → InTable k m → InTable k (removed g b v obj m)
InTable-removed g b v obj k m t = (All-removed g b v obj m (k ∷ []) (t, tt)).0

-- The chain of siblings after the writes, where the first child is removed and where another is.
Chain-removed_first :
    (obj p first : ℕ) (xs : List ℕ) (m : Machine)
    → Fits (link next obj m) m
    → has obj xs ≡ false
    → Chain (siblings m) first xs
    → Chain (siblings (removed child p (link next obj m) obj m)) first xs
Chain-removed_first obj p first xs m fits out c =
    Chain-cong (siblings m) (siblings (removed child p (link next obj m) obj m)) first xs
      (λ a h.
        link-removed next child a p (link next obj m) obj m fits
        ∙ rw (has_eq a obj xs h out) (ground arith))
      c

Chain-removed_later :
    (obj x : ℕ) (xs : List ℕ) (m : Machine)
    → Fits (link next obj m) m
    → has obj (x ∷ erase obj xs) ≡ false
    → Chain (update (siblings m) (before obj x xs) (siblings m obj)) x (x ∷ erase obj xs)
    → Chain (siblings (removed next (before obj x xs) (link next obj m) obj m)) x (x ∷ erase obj xs)
Chain-removed_later obj x xs m fits out c =
    Chain-cong (update (siblings m) (before obj x xs) (siblings m obj))
      (siblings (removed next (before obj x xs) (link next obj m) obj m)) x (x ∷ erase obj xs)
      (λ a h.
        link-removed next next a (before obj x xs) (link next obj m) obj m fits
        ∙ rw (has_eq a obj (x ∷ erase obj xs) h out) (ground arith))
      c

-- The machine after `obj` is removed from the children `kids` of `p`.
abbrev pub after : ℕ → ℕ → List ℕ → Machine → Machine
after obj p kids m = removed (unlink_field obj kids) (unlink_at obj p kids) (link next obj m) obj m

Chain-after :
    (obj p : ℕ) (kids : List ℕ) (m : Machine)
    → Children p kids m
    → Fits (link next obj m) m
    → has obj kids ≡ true
    → Chain (siblings (after obj p kids m)) (link child p (after obj p kids m)) (erase obj kids)
unfolding erase unlink_field unlink_at
Chain-after obj p [] m c fits h = cc
Chain-after obj p (x ∷ xs) m c fits h = elim (Bool-cases (x == obj)) [
  | inl at ↦
      let here : x ≡ obj = ==→eq x obj at in
      let first : link child p (removed child p (link next obj m) obj m) ≡ link next obj m =
        link-removed child child p p (link next obj m) obj m fits ∙ ground arith in
      rw (at, first)
        (Chain-removed_first obj p (link next obj m) xs m fits (rw here at c.distinct.0)
          (rw here at c.chain.2))
  | inr off ↦
      let first : link child p (removed next (before obj x xs) (link next obj m) obj m) ≡ x =
        link-removed child next p (before obj x xs) (link next obj m) obj m fits
        ∙ (ground arith ∙ c.chain.0) in
      let out : has obj (x ∷ erase obj xs) ≡ false =
        rw (off, has-erase_self obj xs c.distinct.1) refl in
      rw (off, first)
        (Chain-removed_later obj x xs m fits out (
          Chain-splice (siblings m) obj x xs (refl, c.chain.1, c.chain.2) c.distinct
            (ground arith)))
]

pub Children-after :
    (obj p : ℕ) (kids : List ℕ) (m : Machine)
    → Children p kids m
    → Fits (link next obj m) m
    → has obj kids ≡ true
    → Children p (erase obj kids) (after obj p kids m)
Children-after obj p kids m c fits h = record {
  in_table = InTable-removed _ _ _ obj p m c.in_table;
  kids_in_table =
      All-removed _ _ _ obj m (erase obj kids)
        (All-erase (λ k. InTable k m) obj kids c.kids_in_table);
  chain = Chain-after obj p kids m c fits h;
  distinct = Distinct-erase obj kids c.distinct;
  few = omega (arith, length-erase obj kids, c.few);
}

pub z_remove_obj-after :
    (obj p : ℕ) (kids : List ℕ) (m : Machine)
    → Children p kids m
    → InTable obj m
    → link parent obj m ≡ p
    → has obj kids ≡ true
    → z_remove_obj obj m ≡ ok tt (after obj p kids m)
unfolding z_remove_obj removed
z_remove_obj-after obj p kids m c t e h =
    let g = unlink_field obj kids in
    let b = unlink_at obj p kids in
    let v = link next obj m in
    let t1 = InTable-with_link g b v obj m t in
    rw
      (
        ne→not_== obj 0 (omega (arith, t.number)),
        get_link-link parent obj m t,
        e,
        ne→not_== p 0 (omega (arith, c.in_table.number)),
        unlink-with_link obj p kids m c t h,
        set_link-with_link parent obj 0 (with_link g b v m) t1,
        set_link-with_link next obj 0 (with_link parent obj 0 (with_link g b v m))
            (InTable-with_link parent obj 0 obj (with_link g b v m) t1),
      )
      refl
