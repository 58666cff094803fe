-- ===== src/Objects/Between.antt =====
-- Inserting an object that stands among the children of another: it moves between the two lists.
use jzip.Prelude.{
  ℕ, ◌<◌, ◌≤◌, ◌≡◌, ◌≢◌, ◌∙◌, inl, inr, refl, sym, ap, arith, true, false, Bool-cases, ne→not_==,
  List, [], ◌∷◌, length, All,
}
use jzip.Machine.{Machine, ok}
use jzip.Objects.{Field, parent, next, child, z_remove_obj, z_insert_obj}
use jzip.Objects.Links.{InTable, link, with_link, Fits}
use jzip.Objects.Chain.{has, erase, Chain-cong, ne_of_has, has-erase_self}
use jzip.Objects.Unlink.{Children, siblings, link-Fits, removed}
use jzip.Objects.Remove.{after, InTable-removed, Children-after, z_remove_obj-after}
use jzip.Objects.Tree.{Unmoved-after, link-after}
use jzip.Objects.Insert.{inserted, z_insert_obj-inserted, z_remove_obj-free}
use jzip.Objects.Move.{All-inserted, z_insert_obj-Inserted, Children-inserted, links}

-- An object that is removed first is inserted as one with no parent.
z_insert_obj-z_remove_obj :
    (obj1 obj2 : ℕ) (m m1 : Machine)
    → 1 ≤ obj1
    → 1 ≤ obj2
    → z_remove_obj obj1 m ≡ ok tt m1
    → InTable obj1 m1
    → link parent obj1 m1 ≡ 0
    → z_insert_obj obj1 obj2 m ≡ z_insert_obj obj1 obj2 m1
unfolding z_insert_obj
z_insert_obj-z_remove_obj obj1 obj2 m m1 h1 h2 e t free =
    rw
      (
        ne→not_== obj1 0 (omega arith),
        ne→not_== obj2 0 (omega arith),
        e,
        z_remove_obj-free obj1 m1 t free,
      )
      refl

Bytes : Machine → Type 0
Bytes m = (a : ℕ) → m.datap a < 256

Bytes-with_link : (f : Field) (obj v : ℕ) (m : Machine) → Bytes m → Bytes (with_link f obj v m)
unfolding with_link Bytes
Bytes-with_link f obj v m bytes a = ground (arith, bytes a)

Bytes-removed : (g : Field) (b v obj : ℕ) (m : Machine) → Bytes m → Bytes (removed g b v obj m)
unfolding removed
Bytes-removed g b v obj m bytes =
    Bytes-with_link next obj 0 (with_link parent obj 0 (with_link g b v m))
      (Bytes-with_link parent obj 0 (with_link g b v m) (Bytes-with_link g b v m bytes))

All-same :
    (m m' : Machine) (xs : List ℕ)
    → ((k : ℕ) → InTable k m → InTable k m')
    → All (λ k. InTable k m) xs
    → All (λ k. InTable k m') xs
All-same m m' [] f t = tt
All-same m m' (x ∷ xs) f (t, ts) = (f x t, All-same m m' xs f ts)

-- The children of an object on a machine with the same links among them.
Children-same :
    (p : ℕ) (kids : List ℕ) (m m' : Machine)
    → ((k : ℕ) → InTable k m → InTable k m')
    → link child p m' ≡ link child p m
    → ((k : ℕ) → has k kids ≡ true → link next k m' ≡ link next k m)
    → Children p kids m
    → Children p kids m'
Children-same p kids m m' same first nexts c = record {
  in_table = same p c.in_table;
  kids_in_table = All-same m m' kids same c.kids_in_table;
  chain = rw first (Chain-cong (siblings m) (siblings m') (link child p m) kids nexts c.chain);
  distinct = c.distinct;
  few = c.few;
}

InTable-inserted :
    (obj1 obj2 first k : ℕ) (m : Machine) → InTable k m → InTable k (inserted obj1 obj2 first m)
InTable-inserted obj1 obj2 first k m t = (All-inserted obj1 obj2 first m (k ∷ []) (t, tt)).0

-- Moving an object from among the children of `p` to those of another object `obj2`: the code ends,
-- the children of `p` are those before without it, it is the first child of `obj2` before the children
-- that it had, and its parent is `obj2`.
pub z_insert_obj-between :
    (obj1 obj2 p : ℕ) (kids kids2 : List ℕ) (m : Machine)
    → ((a : ℕ) → m.datap a < 256)
    → Fits obj1 m
    → Fits obj2 m
    → InTable obj1 m
    → link parent obj1 m ≡ p
    → Children p kids m
    → Children obj2 kids2 m
    → p ≢ obj2
    → has obj1 kids ≡ true
    → ((k : ℕ) → has k kids2 ≡ true → has k kids ≡ false)
    → length kids2 < 0x10000
    → (m' : Machine) × (z_insert_obj obj1 obj2 m ≡ ok tt m')
      × Children p (erase obj1 kids) m'
      × Children obj2 (obj1 ∷ kids2) m'
      × (link parent obj1 m' ≡ obj2)
unfolding Bytes
z_insert_obj-between obj1 obj2 p kids kids2 m bytes fits1 fits2 t e c c2 ne h apart few =
    let m1 = after obj1 p kids m in
    let m' = inserted obj1 obj2 (link child obj2 m1) m1 in
    let fits = link-Fits next obj1 m bytes in
    let unmoved = Unmoved-after obj1 p kids m fits in
    let t1 : InTable obj1 m1 = InTable-removed _ _ _ obj1 obj1 m t in
    let f1 : Fits obj1 m1 = unfold removed with_link in fits1 in
    let f2 : Fits obj2 m1 = unfold removed with_link in fits2 in
    let ff : Fits (link child obj2 m1) m1 =
      link-Fits child obj2 m1 (Bytes-removed _ _ _ obj1 m bytes) in
    let loose : link parent obj1 m1 ≡ 0 =
      link-after parent obj1 p kids m obj1 fits ∙ ground arith in
    let free : link next obj1 m1 ≡ 0 = link-after next obj1 p kids m obj1 fits ∙ ground arith in
    let out : (k : ℕ) → has k kids2 ≡ true → k ≢ obj1 =
      λ k hk same. cc (apart k hk, ap (λ a. has a kids) same) in
    let c2' : Children obj2 kids2 m1 =
      Children-same obj2 kids2 m m1 (λ k. InTable-removed _ _ _ obj1 k m)
        (unmoved.children obj2 (λ q. ne (sym q))) (λ k hk. unmoved.nexts k (out k hk) (apart k hk))
        c2 in
    let keep = z_insert_obj-Inserted obj1 obj2 m1 f1 f2 ff free in
    (
      m',
      z_insert_obj-z_remove_obj obj1 obj2 m m1 t.number c2.in_table.number
            (z_remove_obj-after obj1 p kids m c t e h) t1 loose
          ∙ z_insert_obj-inserted obj1 obj2 m1 f1 f2 t1 c2'.in_table loose,
      Children-same p (erase obj1 kids) m1 m'
          (λ k. InTable-inserted obj1 obj2 (link child obj2 m1) k m1) (keep.children p ne)
          (λ k hk. keep.nexts k (λ same.
            ne_of_has obj1 k (erase obj1 kids) (has-erase_self obj1 kids c.distinct) hk same))
          (Children-after obj1 p kids m c fits h),
      Children-inserted obj1 obj2 m1 f1 f2 ff free kids2 t1 c2' (absent obj1 h apart) few,
      links obj1 obj2 m1 f1 f2 ff free parent obj1 ∙ ground arith,
    )
  where
    absent :
        (k : ℕ)
        → has k kids ≡ true
        → ((k : ℕ) → has k kids2 ≡ true → has k kids ≡ false)
        → has k kids2 ≡ false
    absent k inside apart = elim (Bool-cases (has k kids2)) [ inl q ↦ cc (apart k q) | inr q ↦ q ]
