-- ===== src/Objects/Move.antt =====
-- Inserting an object: among the children of an object, from nowhere and from another parent.
use jzip.Prelude.{
  ℕ, ◌<◌, ◌≡◌, ◌≢◌, ◌∙◌, inl, inr, ◌&&◌, refl, arith, true, false, ◌==◌, if◌then◌else◌, Bool-cases,
  ne→not_==, List, [], ◌∷◌, length, All,
}
use jzip.Machine.{Machine, ok}
use jzip.Objects.{Field, parent, next, child, z_insert_obj}
use jzip.Objects.Links.{InTable, link, with_link, Fits, same_field}
use jzip.Objects.Chain.{has, Chain-cong}
use jzip.Objects.Unlink.{Children, siblings, link-Fits, All-with_link}
use jzip.Objects.Remove.{has_eq}
use jzip.Objects.Insert.{inserted, linked, link-inserted, link-linked, z_insert_obj-inserted}

-- Every link but the parent and the next of `obj1` and the child of `obj2` stays.
pub record Inserted (obj1 obj2 : ℕ) (m m' : Machine) : Type 0 where
  pub parents : (k : ℕ) → k ≢ obj1 → link parent k m' ≡ link parent k m
  pub children : (k : ℕ) → k ≢ obj2 → link child k m' ≡ link child k m
  pub nexts : (k : ℕ) → k ≢ obj1 → link next k m' ≡ link next k m

pub All-inserted :
    (obj1 obj2 first : ℕ) (m : Machine) (xs : List ℕ)
    → All (λ k. InTable k m) xs
    → All (λ k. InTable k (inserted obj1 obj2 first m)) xs
unfolding inserted linked
All-inserted obj1 obj2 first m xs t =
    let t' =
      All-with_link child obj2 obj1 (with_link parent obj1 obj2 m) xs
        (All-with_link parent obj1 obj2 m xs t) in
    elim (Bool-cases (first == 0)) [
      | inl e ↦ rw e t'
      | inr e ↦ rw e (All-with_link next obj1 first (linked obj1 obj2 m) xs t')
    ]

module _ (obj1 obj2 : ℕ) (m : Machine) (fits1 : Fits obj1 m) (fits2 : Fits obj2 m)
    (fits : Fits (link child obj2 m) m) (free : link next obj1 m ≡ 0) where
  abbrev m' : Machine
  m' = inserted obj1 obj2 (link child obj2 m) m

  pub links :
      (f : Field) (k : ℕ)
      → link f k m' ≡ (
          if k == obj1 && same_field f next
          then link child obj2 m
          else if k == obj2 && same_field f child
          then obj1
          else if k == obj1 && same_field f parent
          then obj2
          else link f k m)
  links f k =
      link-inserted obj1 obj2 m fits1 fits2 f k fits free
      ∙ rw (link-linked obj1 obj2 m fits1 fits2 f k) refl

  pub z_insert_obj-Inserted : Inserted obj1 obj2 m m'
  z_insert_obj-Inserted = record {
    parents = λ k ne. links parent k ∙ rw (ne→not_== k obj1 ne) (ground arith);
    children = λ k ne. links child k ∙ rw (ne→not_== k obj2 ne) (ground arith);
    nexts = λ k ne. links next k ∙ rw (ne→not_== k obj1 ne) (ground arith);
  }

  pub Children-inserted :
      (kids : List ℕ)
      → InTable obj1 m
      → Children obj2 kids m
      → has obj1 kids ≡ false
      → length kids < 0x10000
      → Children obj2 (obj1 ∷ kids) m'
  Children-inserted kids t c out few = record {
    in_table = (All-inserted obj1 obj2 (link child obj2 m) m (obj2 ∷ []) (c.in_table, tt)).0;
    kids_in_table = All-inserted obj1 obj2 (link child obj2 m) m (obj1 ∷ kids) (t, c.kids_in_table);
    chain = (
      links child obj2 ∙ ground arith,
      λ e. absurd (omega (arith, t.number)),
      rw (links next obj1 ∙ the_next) (
          Chain-cong (siblings m) (siblings m') (link child obj2 m) kids
            (λ k h. links next k ∙ rw (has_eq k obj1 kids h out) (ground arith)) c.chain),
    );
    distinct = (out, c.distinct);
    few = omega arith;
  }
    where
      the_next :
          (if obj1 == obj1 && true
            then link child obj2 m
            else if obj1 == obj2 && false
            then obj1
            else if obj1 == obj1 && false
            then obj2
            else link next obj1 m)
          ≡ link child obj2 m
      the_next = ground arith

-- Inserting an object that has no parent and no sibling: the code ends, the object is the first child
-- of `obj2`, before the children it had, its parent is `obj2`, and no other link of the table changes.
pub z_insert_obj-front :
    (obj1 obj2 : ℕ) (kids : List ℕ) (m : Machine)
    → ((a : ℕ) → m.datap a < 256)
    → Fits obj1 m
    → Fits obj2 m
    → InTable obj1 m
    → Children obj2 kids m
    → has obj1 kids ≡ false
    → length kids < 0x10000
    → link parent obj1 m ≡ 0
    → link next obj1 m ≡ 0
    → (m' : Machine) × (z_insert_obj obj1 obj2 m ≡ ok tt m')
      × Children obj2 (obj1 ∷ kids) m'
      × (link parent obj1 m' ≡ obj2)
      × Inserted obj1 obj2 m m'
z_insert_obj-front obj1 obj2 kids m bytes fits1 fits2 t c out few loose free =
    let fits = link-Fits child obj2 m bytes in
    (
      inserted obj1 obj2 (link child obj2 m) m,
      z_insert_obj-inserted obj1 obj2 m fits1 fits2 t c.in_table loose,
      Children-inserted obj1 obj2 m fits1 fits2 fits free kids t c out few,
      links obj1 obj2 m fits1 fits2 fits free parent obj1 ∙ ground arith,
      z_insert_obj-Inserted obj1 obj2 m fits1 fits2 fits free,
    )
