-- ===== src/Objects/Flags.antt =====
-- What setting and clearing an attribute does to the object table.
use jzip.Prelude.{
  ℕ, ◌+◌, ◌-◌, ◌*◌, ◌/◌, ◌%◌, ◌<◌, ◌≤◌, ◌≡◌, ◌∙◌, refl, sym, arith, bit_and, bit_or, Bool, true,
  false, not, ◌||◌, ◌&&◌, ltb, ◌==◌, if◌then◌else◌, Bool-cases, inl, inr,
}
use jzip.Machine.{Machine, ok}
use jzip.Branch.{conditional_jump}
use jzip.Objects.{
  Field, parent, next, child, offset3, offset4, attr_mask, z_test_attr, z_set_attr, z_clear_attr,
}
use jzip.Objects.Links.{base, InTable, link}
use jzip.Objects.Attributes.{
  flag, flag-set, flag-clear, attribute, IsAttribute, with_byte, z_test_attr-attribute,
  z_set_attr-with_byte, z_clear_attr-with_byte,
}

-- The byte of an attribute of one object is that of no other object and no other attribute.
place3 :
    (start o obj c d : ℕ)
    → c < 4
    → d < 4
    → (start + o * 9 + c == start + obj * 9 + d) ≡ (o == obj && c == d)
place3 start o obj c d h h' = ground arith

place4 :
    (start o obj c d : ℕ)
    → c < 6
    → d < 6
    → (start + o * 14 + c == start + obj * 14 + d) ≡ (o == obj && c == d)
place4 start o obj c d h h' = ground arith

place :
    (o b obj bit : ℕ) (m : Machine)
    → IsAttribute b m
    → IsAttribute bit m
    → (base o m + b / 8 == base obj m + bit / 8) ≡ (o == obj && b / 8 == bit / 8)
place o b obj bit m h h' = elim (Bool-cases (ltb m.h_type 4)) [
  | inl old ↦ rw old (
      place3 (m.h_objects_offset + 53) o obj (b / 8) (bit / 8) (omega (arith, rw old at h))
        (omega (arith, rw old at h')))
  | inr new ↦ rw new (
      place4 (m.h_objects_offset + 112) o obj (b / 8) (bit / 8) (omega (arith, rw new at h))
        (omega (arith, rw new at h')))
]

pick : (c : Bool) (x y j : ℕ) → flag (if c then x else y) j ≡ (if c then flag x j else flag y j)
pick true x y j = refl
pick false x y j = refl

attribute-with_byte :
    (o b obj bit v : ℕ) (m : Machine)
    → IsAttribute b m
    → IsAttribute bit m
    → attribute o b (with_byte obj bit v m)
      ≡ (if o == obj && b / 8 == bit / 8 then flag (v % 256) (b % 8) else attribute o b m)
unfolding attribute with_byte
attribute-with_byte o b obj bit v m h h' =
    pick (base o m + b / 8 == base obj m + bit / 8) (v % 256) (m.datap (base o m + b / 8)) (b % 8)
    ∙ rw (place o b obj bit m h h') refl

link_place3 :
    (f : Field) (start k obj d : ℕ)
    → d < 4
    → (start + k * 9 + offset3 f == start + obj * 9 + d) ≡ false
link_place3 parent start k obj d h = ground arith
link_place3 next start k obj d h = ground arith
link_place3 child start k obj d h = ground arith

link_place4 :
    (f : Field) (start k obj d : ℕ)
    → d < 6
    → ((start + k * 14 + offset4 f == start + obj * 14 + d) ≡ false)
      × ((start + k * 14 + offset4 f + 1 == start + obj * 14 + d) ≡ false)
link_place4 parent start k obj d h = (ground arith, ground arith)
link_place4 next start k obj d h = (ground arith, ground arith)
link_place4 child start k obj d h = (ground arith, ground arith)

pub link-with_byte :
    (f : Field) (k obj bit v : ℕ) (m : Machine)
    → IsAttribute bit m
    → link f k (with_byte obj bit v m) ≡ link f k m
unfolding link with_byte
link-with_byte f k obj bit v m h = elim (Bool-cases (ltb m.h_type 4)) [
  | inl old ↦
      rw (old, link_place3 f (m.h_objects_offset + 53) k obj (bit / 8) (omega (arith, rw old at h)))
        refl
  | inr new ↦
      let apart =
        link_place4 f (m.h_objects_offset + 112) k obj (bit / 8) (omega (arith, rw new at h)) in
      rw (new, apart.0, apart.1) refl
]

same_bit : (b bit : ℕ) → (b == bit) ≡ (b / 8 == bit / 8 && b % 8 == bit % 8)
same_bit b bit = ground arith

bit_in_byte : (b : ℕ) → b % 8 < 8
bit_in_byte b = omega arith

same_place :
    (o b obj bit : ℕ) (m : Machine)
    → (o == obj && b / 8 == bit / 8) ≡ true
    → flag (m.datap (base obj m + bit / 8)) (b % 8) ≡ attribute o b m
unfolding attribute
same_place o b obj bit m at =
    let e : obj ≡ o = ground arith in let e' : bit / 8 ≡ b / 8 = ground arith in rw (e, e') refl

-- A write of the byte that puts the flag of `bit` through and keeps the seven others.
attribute-written :
    (o b obj bit v : ℕ) (put : Bool → Bool → Bool) (m : Machine)
    → IsAttribute b m
    → IsAttribute bit m
    → flag (v % 256) (b % 8)
      ≡ put (b % 8 == bit % 8) (flag (m.datap (base obj m + bit / 8)) (b % 8))
    → ((old : Bool) → put false old ≡ old)
    → attribute o b (with_byte obj bit v m) ≡ put (o == obj && b == bit) (attribute o b m)
attribute-written o b obj bit v put m h h' written keep =
    attribute-with_byte o b obj bit v m h h' ∙ elim (Bool-cases (o == obj && b / 8 == bit / 8)) [
      | inl at ↦
          let e : (o == obj && b == bit) ≡ (b % 8 == bit % 8) =
            rw (same_bit b bit) (ground arith) in
          rw (at, e, written, same_place o b obj bit m at) refl
      | inr off ↦
          let e : (o == obj && b == bit) ≡ false = rw (same_bit b bit) (ground arith) in
          rw (off, e) (sym (keep (attribute o b m)))
    ]

attribute-set :
    (o b obj bit : ℕ) (m : Machine)
    → ((a : ℕ) → m.datap a < 256)
    → IsAttribute b m
    → IsAttribute bit m
    → attribute o b (with_byte obj bit (bit_or (m.datap (base obj m + bit / 8)) (attr_mask bit)) m)
      ≡ (o == obj && b == bit || attribute o b m)
attribute-set o b obj bit m bytes h h' =
    attribute-written o b obj bit _ (λ c old. c || old) m h h'
      (flag-set (m.datap (base obj m + bit / 8)) (bit % 8) (b % 8) (bytes _) (bit_in_byte bit)
        (bit_in_byte b))
      (λ old. refl)

attribute-clear :
    (o b obj bit : ℕ) (m : Machine)
    → ((a : ℕ) → m.datap a < 256)
    → IsAttribute b m
    → IsAttribute bit m
    → attribute o b
        (with_byte obj bit (bit_and (m.datap (base obj m + bit / 8)) (255 - attr_mask bit)) m)
      ≡ (not (o == obj && b == bit) && attribute o b m)
attribute-clear o b obj bit m bytes h h' =
    attribute-written o b obj bit _ (λ c old. not c && old) m h h'
      (flag-clear (m.datap (base obj m + bit / 8)) (bit % 8) (b % 8) (bytes _) (bit_in_byte bit)
        (bit_in_byte b))
      (λ old. refl)

InTable-with_byte :
    (o obj bit v : ℕ) (m : Machine) → InTable o m → InTable o (with_byte obj bit v m)
unfolding with_byte
InTable-with_byte o obj bit v m t = record { number = t.number; inside = t.inside; word = t.word }

-- What an attribute tests as on the machine after a write.
test_written :
    (o b obj bit v : ℕ) (value : Bool) (m : Machine)
    → InTable o m
    → IsAttribute b m
    → m.data_size ≤ 0x10000
    → attribute o b (with_byte obj bit v m) ≡ value
    → z_test_attr o b (with_byte obj bit v m) ≡ conditional_jump value (with_byte obj bit v m)
test_written o b obj bit v value m t h room e =
    z_test_attr-attribute o b (with_byte obj bit v m) (InTable-with_byte o obj bit v m t)
      (unfold with_byte in h) (unfold with_byte in room)
    ∙ rw e refl

-- Setting an attribute of an object: the code ends, every other attribute of every object tests as
-- before and this one as set, and no link of the tree changes.
pub z_test_attr-z_set_attr :
    (obj bit : ℕ) (m : Machine)
    → ((a : ℕ) → m.datap a < 256)
    → m.data_size ≤ 0x10000
    → InTable obj m
    → IsAttribute bit m
    → (m' : Machine) × (z_set_attr obj bit m ≡ ok tt m')
      × ((o b : ℕ)
          → InTable o m
          → IsAttribute b m
          → z_test_attr o b m' ≡ conditional_jump (o == obj && b == bit || attribute o b m) m')
      × ((f : Field) (k : ℕ) → link f k m' ≡ link f k m)
z_test_attr-z_set_attr obj bit m bytes room t h =
    let v = bit_or (m.datap (base obj m + bit / 8)) (attr_mask bit) in
    (
      with_byte obj bit v m,
      z_set_attr-with_byte obj bit m t h room,
      λ o b to hb.
          test_written o b obj bit v (o == obj && b == bit || attribute o b m) m to hb room
            (attribute-set o b obj bit m bytes hb h),
      λ f k. link-with_byte f k obj bit v m h,
    )

-- Clearing an attribute of an object: the code ends, every other attribute of every object tests as
-- before and this one as clear, and no link of the tree changes.
pub z_test_attr-z_clear_attr :
    (obj bit : ℕ) (m : Machine)
    → ((a : ℕ) → m.datap a < 256)
    → m.data_size ≤ 0x10000
    → InTable obj m
    → IsAttribute bit m
    → (m' : Machine) × (z_clear_attr obj bit m ≡ ok tt m')
      × ((o b : ℕ)
          → InTable o m
          → IsAttribute b m
          → z_test_attr o b m'
            ≡ conditional_jump (not (o == obj && b == bit) && attribute o b m) m')
      × ((f : Field) (k : ℕ) → link f k m' ≡ link f k m)
z_test_attr-z_clear_attr obj bit m bytes room t h =
    let v = bit_and (m.datap (base obj m + bit / 8)) (255 - attr_mask bit) in
    (
      with_byte obj bit v m,
      z_clear_attr-with_byte obj bit m t h room,
      λ o b to hb.
          test_written o b obj bit v (not (o == obj && b == bit) && attribute o b m) m to hb room
            (attribute-clear o b obj bit m bytes hb h),
      λ f k. link-with_byte f k obj bit v m h,
    )
