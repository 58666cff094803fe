-- ===== src/Objects.antt =====
-- The object table (object.c): the tree of parents, siblings and children, and the attributes.
pub mod Links
pub mod Chain
pub mod Unlink
pub mod Remove
pub mod Tree
pub mod Insert
pub mod Move
pub mod Between
pub mod Attributes
pub mod Flags
use jzip.Prelude.{
  ℕ, zero, suc, ◌+◌, ◌-◌, ◌*◌, ◌/◌, ◌%◌, ◌^◌, bit_and, bit_or, Bool, true, false, not, ltb, ◌==◌,
  if◌then◌else◌,
}
use jzip.Machine.{
  Machine, M, out_of_fuel, pure, ◌>>=◌, ◌>>◌, when, get_byte, set_byte, get_word, set_word,
  report_strictz_error,
}
use jzip.Operand.{store_operand}
use jzip.Branch.{conditional_jump}

-- `PARENT`, `NEXT` and `CHILD`.
pub data Field : Type 0 where
  parent next child : Field

-- The table begins with the default properties; objects are counted from 1. The sum is an `int`
-- that does not fall below 0, and is cut to a word.
unfoldable pub get_object_address : ℕ → Machine → ℕ
get_object_address obj m =
    (if ltb m.h_type 4
      then m.h_objects_offset + (0x20 - 1) * 2 + obj * 9 - 9
      else m.h_objects_offset + (0x40 - 1) * 2 + obj * 14 - 14)
    % 0x10000

-- The field's place in an object of version 3 and earlier, and of version 4 on.
abbrev pub offset3 : Field → ℕ
offset3 parent = 4
offset3 next = 5
offset3 child = 6

abbrev pub offset4 : Field → ℕ
offset4 parent = 6
offset4 next = 8
offset4 child = 10

unfoldable pub read_object : ℕ → Field → M ℕ
read_object objp field m =
    if ltb m.h_type 4 then get_byte (objp + offset3 field) m else get_word (objp + offset4 field) m

unfoldable pub write_object : ℕ → Field → ℕ → M (Unit {0})
write_object objp field value m =
    if ltb m.h_type 4
    then set_byte (objp + offset3 field) value m
    else set_word (objp + offset4 field) value m

-- The field of an object by its number.
unfoldable pub get_link : ℕ → Field → M ℕ
get_link obj field m = read_object (get_object_address obj m) field m

unfoldable pub set_link : ℕ → Field → ℕ → M (Unit {0})
set_link obj field value m = write_object (get_object_address obj m) field value m

-- The walk down the child chain, from `current`: the object whose next is `obj`. It ends only if there
-- is one.
unfoldable pub find_previous : ℕ → ℕ → ℕ → M ℕ
find_previous zero obj current m = out_of_fuel
find_previous (suc fuel) obj current m =
    (do
      after ← get_link current next
      if after == obj then pure current else find_previous fuel obj after)
      m

-- Take `obj` out of the children of `parent'`.
unfoldable pub unlink : ℕ → ℕ → M (Unit {0})
unlink obj parent' = do
  first ← get_link parent' child
  if first == obj then (do after ← get_link obj next; set_link parent' child after) else (do
    previous ← find_previous 0x10000 obj first
    after ← get_link obj next
    set_link previous next after)

abbrev strzerr_remove_object : ℕ
strzerr_remove_object = 13

abbrev strzerr_move_object : ℕ
strzerr_move_object = 11

abbrev strzerr_move_object_2 : ℕ
strzerr_move_object_2 = 12

-- Object 0 is reported, and the code goes on with it.
unfoldable pub z_remove_obj : ℕ → M (Unit {0})
unfolding unlink
z_remove_obj obj = do
  when (obj == 0) (report_strictz_error strzerr_remove_object)
  parent' ← get_link obj parent
  if parent' == 0
      then pure tt
      else (do unlink obj parent'; set_link obj parent 0; set_link obj next 0)

unfoldable pub z_insert_obj : ℕ → ℕ → M (Unit {0})
z_insert_obj obj1 obj2 = do
  when (obj1 == 0) (report_strictz_error strzerr_move_object)
  when (obj2 == 0) (report_strictz_error strzerr_move_object_2)
  z_remove_obj obj1
  set_link obj1 parent obj2
  child2 ← get_link obj2 child
  set_link obj2 child obj1
  when (not (child2 == 0)) (set_link obj1 next child2)

pub z_get_parent : ℕ → M (Unit {0})
z_get_parent obj =
    if obj == 0
    then (do report_strictz_error 3; store_operand 0)
    else (do value ← get_link obj parent; store_operand value)

-- `z_get_child` and `z_get_sibling` store the object and test it.
unfoldable pub get_relative : Field → ℕ → ℕ → M (Unit {0})
get_relative field errnum obj =
    if obj == 0
    then (do report_strictz_error errnum; store_operand 0; conditional_jump false)
    else (do value ← get_link obj field; store_operand value; conditional_jump (not (value == 0)))

pub z_get_child : ℕ → M (Unit {0})
z_get_child = get_relative child 2

pub z_get_sibling : ℕ → M (Unit {0})
z_get_sibling = get_relative next 4

pub z_jin : ℕ → ℕ → M (Unit {0})
z_jin obj1 obj2 =
    if obj1 == 0
    then (do report_strictz_error 1; conditional_jump (0 == obj2))
    else (do value ← get_link obj1 parent; conditional_jump (value == obj2))

-- The byte of attribute `bit`, and the attribute's place in it.
abbrev pub attr_addr : ℕ → ℕ → Machine → ℕ
attr_addr obj bit m = (get_object_address obj m + bit / 8) % 0x10000

abbrev pub attr_mask : ℕ → ℕ
attr_mask bit = 2 ^ (7 - bit % 8)

unfoldable pub z_test_attr : ℕ → ℕ → M (Unit {0})
z_test_attr obj bit m =
    if obj == 0
    then (do report_strictz_error 10; conditional_jump false) m
    else (do
      value ← get_byte (attr_addr obj bit m)
      conditional_jump (not (bit_and (value / attr_mask bit) 1 == 0)))
        m

unfoldable pub z_set_attr : ℕ → ℕ → M (Unit {0})
z_set_attr obj bit m =
    if obj == 0
    then report_strictz_error 9 m
    else (do
      value ← get_byte (attr_addr obj bit m)
      set_byte (attr_addr obj bit m) (bit_or value (attr_mask bit)))
        m

unfoldable pub z_clear_attr : ℕ → ℕ → M (Unit {0})
z_clear_attr obj bit m =
    if obj == 0
    then report_strictz_error 8 m
    else (do
      value ← get_byte (attr_addr obj bit m)
      set_byte (attr_addr obj bit m) (bit_and value (255 - attr_mask bit)))
        m
