-- ===== src/Examples/Tree.antt =====
-- The theorems on the object table at a small one.
use jzip.Prelude.{ℕ, ◌≡◌, ◌≢◌, refl, arith, ◌==◌, if◌then◌else◌, [], ◌∷◌, ◌&&◌, ◌||◌, ◌<◌, ◌≤◌, not}
use jzip.Machine.{Machine, ok}
use jzip.Branch.{conditional_jump}
use jzip.Objects.{
  Field, parent, next, z_remove_obj, z_insert_obj, z_test_attr, z_set_attr, z_clear_attr,
}
use jzip.Objects.Links.{InTable, link}
use jzip.Objects.Chain.{erase}
use jzip.Objects.Unlink.{Children}
use jzip.Objects.Tree.{Unmoved, z_remove_obj-erase}
use jzip.Objects.Move.{Inserted, z_insert_obj-front}
use jzip.Objects.Between.{z_insert_obj-between}
use jzip.Objects.Attributes.{attribute, IsAttribute}
use jzip.Objects.Flags.{z_test_attr-z_set_attr, z_test_attr-z_clear_attr}
use jzip.Examples.{start}

-- An object table in which 2, 3 and 4 are the children of 1, and 5 and 6 stand alone.
abbrev house_data : ℕ → ℕ
house_data a =
    if a == 168
    then 2
    else if a == 175
    then 1
    else if a == 176
    then 3
    else if a == 184
    then 1
    else if a == 185
    then 4
    else if a == 193
    then 1
    else 0

abbrev house : Machine
house = record start { datap = house_data }

house-bytes : (a : ℕ) → house_data a < 256
house-bytes a = ground arith

in_house : (k : ℕ) → 1 ≤ k → k < 10 → InTable k house
in_house k h h' = record { number = h; inside = omega arith; word = omega arith }

house-Children : Children 1 (2 ∷ 3 ∷ 4 ∷ []) house
unfolding link
house-Children = record {
  in_table = in_house 1 (omega arith) (omega arith);
  kids_in_table = (
    in_house 2 (omega arith) (omega arith),
    (in_house 3 (omega arith) (omega arith), (in_house 4 (omega arith) (omega arith), tt)),
  );
  chain = (refl, two, (refl, three, (refl, four, refl)));
  distinct = (refl, (refl, (refl, tt)));
  few = omega arith;
}
  where
    two : ◌≢◌ {A = ℕ} 2 0
    two e = absurd (omega arith)

    three : ◌≢◌ {A = ℕ} 3 0
    three e = absurd (omega arith)

    four : ◌≢◌ {A = ℕ} 4 0
    four e = absurd (omega arith)

empty-Children : Children 5 [] house
unfolding link
empty-Children = record {
  in_table = in_house 5 (omega arith) (omega arith);
  kids_in_table = tt;
  chain = refl;
  distinct = tt;
  few = omega arith;
}

house-link : (link parent 3 house ≡ 1) × (link parent 6 house ≡ 0) × (link next 6 house ≡ 0)
unfolding link
house-link = (refl, refl, refl)

z_remove_obj-erase_example :
    (m' : Machine) × (z_remove_obj 3 house ≡ ok tt m')
    × Children 1 (erase 3 (2 ∷ 3 ∷ 4 ∷ [])) m'
    × (link parent 3 m' ≡ 0)
    × (link next 3 m' ≡ 0)
    × Unmoved 3 1 (2 ∷ 3 ∷ 4 ∷ []) house m'
z_remove_obj-erase_example =
    z_remove_obj-erase 3 1 (2 ∷ 3 ∷ 4 ∷ []) house house-bytes house-Children
      (in_house 3 (omega arith) (omega arith)) house-link.0 refl

z_insert_obj-front_example :
    (m' : Machine) × (z_insert_obj 6 1 house ≡ ok tt m')
    × Children 1 (6 ∷ 2 ∷ 3 ∷ 4 ∷ []) m'
    × (link parent 6 m' ≡ 1)
    × Inserted 6 1 house m'
z_insert_obj-front_example =
    z_insert_obj-front 6 1 (2 ∷ 3 ∷ 4 ∷ []) house house-bytes (omega arith) (omega arith)
      (in_house 6 (omega arith) (omega arith)) house-Children refl (omega arith) house-link.1
      house-link.2

z_insert_obj-between_example :
    (m' : Machine) × (z_insert_obj 3 5 house ≡ ok tt m')
    × Children 1 (erase 3 (2 ∷ 3 ∷ 4 ∷ [])) m'
    × Children 5 (3 ∷ []) m'
    × (link parent 3 m' ≡ 5)
z_insert_obj-between_example =
    z_insert_obj-between 3 5 1 (2 ∷ 3 ∷ 4 ∷ []) [] house house-bytes (omega arith) (omega arith)
      (in_house 3 (omega arith) (omega arith)) house-link.0 house-Children empty-Children
      (omega arith) refl (λ k h. cc) (omega arith)

z_test_attr-z_set_attr_example :
    (m' : Machine) × (z_set_attr 3 10 house ≡ ok tt m')
    × ((o b : ℕ)
        → InTable o house
        → IsAttribute b house
        → z_test_attr o b m' ≡ conditional_jump (o == 3 && b == 10 || attribute o b house) m')
    × ((f : Field) (k : ℕ) → link f k m' ≡ link f k house)
z_test_attr-z_set_attr_example =
    z_test_attr-z_set_attr 3 10 house house-bytes (omega arith)
      (in_house 3 (omega arith) (omega arith)) (omega arith)

z_test_attr-z_clear_attr_example :
    (m' : Machine) × (z_clear_attr 3 10 house ≡ ok tt m')
    × ((o b : ℕ)
        → InTable o house
        → IsAttribute b house
        → z_test_attr o b m' ≡ conditional_jump (not (o == 3 && b == 10) && attribute o b house) m')
    × ((f : Field) (k : ℕ) → link f k m' ≡ link f k house)
z_test_attr-z_clear_attr_example =
    z_test_attr-z_clear_attr 3 10 house house-bytes (omega arith)
      (in_house 3 (omega arith) (omega arith)) (omega arith)
