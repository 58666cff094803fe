-- ===== src/Objects/Insert.antt =====
-- Inserting an object in front of the children of another.
use jzip.Prelude.{
  ℕ, ◌≡◌, ◌∙◌, inl, inr, refl, sym, ap, arith, ◌&&◌, ◌==◌, if◌then◌else◌, Bool-cases, ==→eq,
  ne→not_==,
}
use jzip.Machine.{Machine, ok}
use jzip.Objects.{Field, parent, next, child, z_remove_obj, z_insert_obj}
use jzip.Objects.Links.{
  InTable, link, with_link, Fits, get_link-link, set_link-with_link, link-with_link, same_field,
}
use jzip.Objects.Unlink.{InTable-with_link}

-- An object with no parent is not removed from anywhere.
pub z_remove_obj-free :
    (obj : ℕ) (m : Machine) → InTable obj m → link parent obj m ≡ 0 → z_remove_obj obj m ≡ ok tt m
unfolding z_remove_obj
z_remove_obj-free obj m t e =
    rw (ne→not_== obj 0 (omega (arith, t.number)), get_link-link parent obj m t, e) refl

-- The machine after the writes of `z_insert_obj`, for an object with no parent.
unfoldable pub linked : ℕ → ℕ → Machine → Machine
linked obj1 obj2 m = with_link child obj2 obj1 (with_link parent obj1 obj2 m)

unfoldable pub inserted : ℕ → ℕ → ℕ → Machine → Machine
inserted obj1 obj2 first m =
    if first == 0 then linked obj1 obj2 m else with_link next obj1 first (linked obj1 obj2 m)

Fits-with_link : (f : Field) (obj v w : ℕ) (m : Machine) → Fits w m → Fits w (with_link f obj v m)
unfolding with_link
Fits-with_link f obj v w m h = h

module _ (obj1 obj2 : ℕ) (m : Machine) (fits1 : Fits obj1 m) (fits2 : Fits obj2 m) where
  abbrev first : ℕ
  first = link child obj2 m

  pub link-linked :
      (f : Field) (k : ℕ)
      → link f k (linked obj1 obj2 m) ≡ (
          if k == obj2 && same_field f child
          then obj1
          else if k == obj1 && same_field f parent
          then obj2
          else link f k m)
  unfolding linked
  link-linked f k =
      rw
        (
          link-with_link f child k obj2 obj1 (with_link parent obj1 obj2 m)
              (Fits-with_link parent obj1 obj2 obj1 m fits1),
          link-with_link f parent k obj1 obj2 m fits2,
        )
        refl

  -- With no first child the next of `obj1` stays 0.
  link-linked_none :
      (f : Field) (k : ℕ)
      → first ≡ 0
      → link next obj1 m ≡ 0
      → link f k (linked obj1 obj2 m)
        ≡ (if k == obj1 && same_field f next then first else link f k (linked obj1 obj2 m))
  link-linked_none parent k e free = ground arith
  link-linked_none child k e free = ground arith
  link-linked_none next k e free = elim (Bool-cases (k == obj1)) [
    | inl at ↦ rw at (
        link-linked next k
        ∙ ground arith
        ∙ ap (λ a. link next a m) (==→eq k obj1 at)
        ∙ free
        ∙ sym e)
    | inr off ↦ rw off refl
  ]

  pub link-inserted :
      (f : Field) (k : ℕ)
      → Fits first m
      → link next obj1 m ≡ 0
      → link f k (inserted obj1 obj2 first m)
        ≡ (if k == obj1 && same_field f next then first else link f k (linked obj1 obj2 m))
  unfolding inserted
  link-inserted f k fits free = elim (Bool-cases (first == 0)) [
    | inl none' ↦ rw none' (link-linked_none f k (==→eq first 0 none') free)
    | inr some' ↦
        rw some' (
          link-with_link f next k obj1 first (linked obj1 obj2 m) (unfold linked with_link in fits))
  ]

  pub z_insert_obj-inserted :
      InTable obj1 m
      → InTable obj2 m
      → link parent obj1 m ≡ 0
      → z_insert_obj obj1 obj2 m ≡ ok tt (inserted obj1 obj2 first m)
  unfolding z_insert_obj inserted linked
  z_insert_obj-inserted t1 t2 free =
      let m1 = with_link parent obj1 obj2 m in
      let t2' = InTable-with_link parent obj1 obj2 obj2 m t2 in
      let t1' = InTable-with_link parent obj1 obj2 obj1 m t1 in
      let same : link child obj2 m1 ≡ link child obj2 m =
        link-with_link child parent obj2 obj1 obj2 m fits2 ∙ ground arith in
      rw
        (
          ne→not_== obj1 0 (omega (arith, t1.number)),
          ne→not_== obj2 0 (omega (arith, t2.number)),
          z_remove_obj-free obj1 m t1 free,
          set_link-with_link parent obj1 obj2 m t1,
          get_link-link child obj2 m1 t2',
          same,
          set_link-with_link child obj2 obj1 m1 t2',
        )
        (elim (Bool-cases (link child obj2 m == 0)) [
          | inl e ↦ rw e refl
          | inr e ↦ rw e (
              set_link-with_link next obj1 (link child obj2 m) (with_link child obj2 obj1 m1)
                (InTable-with_link child obj2 obj1 obj1 m1 t1'))
        ])
