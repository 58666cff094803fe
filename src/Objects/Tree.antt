-- ===== src/Objects/Tree.antt =====
-- What removing and inserting an object does to the tree, with every link that stays.
use jzip.Prelude.{
  ℕ, ◌<◌, ◌≡◌, ◌≢◌, ◌∙◌, ◌⊎◌, inl, inr, refl, sym, arith, true, false, ◌&&◌, ◌==◌, if◌then◌else◌,
  Bool-cases, ne→not_==, List, [], ◌∷◌,
}
use jzip.Machine.{Machine, ok}
use jzip.Objects.{Field, parent, next, child, z_remove_obj}
use jzip.Objects.Links.{InTable, link, Fits, same_field}
use jzip.Objects.Chain.{has, erase, before, has-before, ne_of_has}
use jzip.Objects.Unlink.{Children, unlink_field, unlink_at, link-removed, link-Fits}
use jzip.Objects.Remove.{after, z_remove_obj-after, Children-after}

-- Outside `obj`, `p` and the children `kids` of `p` nothing changes; among them only the links that
-- hold `obj`.
pub record Unmoved (obj p : ℕ) (kids : List ℕ) (m m' : Machine) : Type 0 where
  pub parents : (k : ℕ) → k ≢ obj → link parent k m' ≡ link parent k m
  pub children : (k : ℕ) → k ≢ p → link child k m' ≡ link child k m
  pub nexts : (k : ℕ) → k ≢ obj → has k kids ≡ false → link next k m' ≡ link next k m

-- The unlinking write is to the child of `p` or to the next of one of the children.
write_target :
    (obj p : ℕ) (kids : List ℕ) (k : ℕ)
    → ((unlink_field obj kids ≡ child) × (unlink_at obj p kids ≡ p))
      ⊎ ((unlink_field obj kids ≡ next)
          × (has k kids ≡ false → (k == unlink_at obj p kids) ≡ false))
unfolding unlink_field unlink_at
write_target obj p [] k = inl (refl, refl)
write_target obj p (x ∷ xs) k = elim (Bool-cases (x == obj)) [
  | inl at ↦ rw at (inl (refl, refl))
  | inr off ↦ rw off (
      inr (
        refl,
        λ out.
            ne→not_== k (before obj x xs)
              (λ e. ne_of_has k (before obj x xs) (x ∷ xs) out (has-before obj x xs) (sym e)),
      ))
]

pub link-after :
    (f : Field) (obj p : ℕ) (kids : List ℕ) (m : Machine) (k : ℕ)
    → Fits (link next obj m) m
    → link f k (after obj p kids m) ≡ (
        if k == obj && same_field f next
        then 0
        else if k == obj && same_field f parent
        then 0
        else if k == unlink_at obj p kids && same_field f (unlink_field obj kids)
        then link next obj m
        else link f k m)
link-after f obj p kids m k fits =
    link-removed f (unlink_field obj kids) k (unlink_at obj p kids) (link next obj m) obj m fits

pub Unmoved-after :
    (obj p : ℕ) (kids : List ℕ) (m : Machine)
    → Fits (link next obj m) m
    → Unmoved obj p kids m (after obj p kids m)
Unmoved-after obj p kids m fits = record {
  parents = λ k ne. link-after parent obj p kids m k fits ∙ elim (write_target obj p kids k) [
    | inl (g, b) ↦ rw (g, b, ne→not_== k obj ne) (ground arith)
    | inr (g, b) ↦ rw (g, ne→not_== k obj ne) (ground arith)
  ];
  children = λ k ne. link-after child obj p kids m k fits ∙ elim (write_target obj p kids k) [
    | inl (g, b) ↦ rw (g, b, ne→not_== k p ne) (ground arith)
    | inr (g, b) ↦ rw g (ground arith)
  ];
  nexts = λ k ne out. link-after next obj p kids m k fits ∙ elim (write_target obj p kids k) [
    | inl (g, b) ↦ rw (g, b, ne→not_== k obj ne) (ground arith)
    | inr (g, b) ↦ rw (g, b out, ne→not_== k obj ne) refl
  ];
}

-- Removing an object that stands among the children of its parent, at any place: the code ends, the
-- children are those before without it, in order, it has no parent and no sibling, and no other link
-- of the table changes.
pub z_remove_obj-erase :
    (obj p : ℕ) (kids : List ℕ) (m : Machine)
    → ((a : ℕ) → m.datap a < 256)
    → Children p kids m
    → InTable obj m
    → link parent obj m ≡ p
    → has obj kids ≡ true
    → (m' : Machine) × (z_remove_obj obj m ≡ ok tt m')
      × Children p (erase obj kids) m'
      × (link parent obj m' ≡ 0)
      × (link next obj m' ≡ 0)
      × Unmoved obj p kids m m'
z_remove_obj-erase obj p kids m bytes c t e h =
    let fits = link-Fits next obj m bytes in
    (
      after obj p kids m,
      z_remove_obj-after obj p kids m c t e h,
      Children-after obj p kids m c fits h,
      link-after parent obj p kids m obj fits ∙ ground arith,
      link-after next obj p kids m obj fits ∙ ground arith,
      Unmoved-after obj p kids m fits,
    )
