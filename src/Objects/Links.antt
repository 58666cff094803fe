-- ===== src/Objects/Links.antt =====
-- The fields of the objects as a table of links: what is written is read back, and no other field
-- changes.
use jzip.Prelude.{
  ℕ, ◌+◌, ◌*◌, ◌%◌, ◌<◌, ◌≤◌, ◌≡◌, inl, inr, arith, Bool, true, false, ◌&&◌, ltb, ◌==◌,
  if◌then◌else◌, Bool-cases,
}
use jzip.Machine.{
  Machine, ok, update, update_word, get_byte-ok, set_byte-ok, get_word-ok, set_word-ok,
}
use jzip.Objects.{
  Field, parent, next, child, get_object_address, offset3, offset4, read_object, write_object,
  get_link, set_link,
}

-- The address of an object before it is cut to a word.
abbrev pub base : ℕ → Machine → ℕ
base obj m =
    if ltb m.h_type 4
    then m.h_objects_offset + 53 + obj * 9
    else m.h_objects_offset + 112 + obj * 14

-- An object of the table: it has a number, lies in the data area, and its address fits a word.
pub record InTable (obj : ℕ) (m : Machine) : Type 0 where
  pub number : 1 ≤ obj
  pub inside : base obj m + 14 ≤ m.data_size
  pub word : base obj m < 0x10000

-- The value of a field.
unfoldable pub link : Field → ℕ → Machine → ℕ
link field obj m =
    if ltb m.h_type 4
    then m.datap (base obj m + offset3 field)
    else (m.datap (base obj m + offset4 field) * 256 + m.datap (base obj m + offset4 field + 1))
      % 0x10000

-- The machine with a field changed.
unfoldable pub with_link : Field → ℕ → ℕ → Machine → Machine
with_link field obj v m = record m {
  datap =
      if ltb m.h_type 4
      then update m.datap (base obj m + offset3 field) (v % 256)
      else update_word m.datap (base obj m + offset4 field) v;
}

-- A value that a field holds: an object number, a byte up to version 3.
abbrev pub Fits : ℕ → Machine → Type 0
Fits v m = v < (if ltb m.h_type 4 then 256 else 0x10000)

pub get_object_address-base :
    (obj : ℕ) (m : Machine) → InTable obj m → get_object_address obj m ≡ base obj m
unfolding get_object_address
get_object_address-base obj m t = ground (arith, t.number, t.word)

offset3-le : (f : Field) → offset3 f ≤ 6
offset3-le parent = omega arith
offset3-le next = omega arith
offset3-le child = omega arith

offset4-le : (f : Field) → offset4 f ≤ 10
offset4-le parent = omega arith
offset4-le next = omega arith
offset4-le child = omega arith

pub get_link-link :
    (field : Field) (obj : ℕ) (m : Machine)
    → InTable obj m
    → get_link obj field m ≡ ok (link field obj m) m
unfolding get_link read_object link
get_link-link field obj m t = elim (Bool-cases (ltb m.h_type 4)) [
  | inl old ↦
      rw (get_object_address-base obj m t, old)
        (get_byte-ok (m.h_objects_offset + 53 + obj * 9 + offset3 field) m
          (omega (arith, rw old at t.inside, offset3-le field)))
  | inr new ↦
      rw (get_object_address-base obj m t, new)
        (get_word-ok (m.h_objects_offset + 112 + obj * 14 + offset4 field) m
          (omega (arith, rw new at t.inside, offset4-le field)))
]

pub set_link-with_link :
    (field : Field) (obj v : ℕ) (m : Machine)
    → InTable obj m
    → set_link obj field v m ≡ ok tt (with_link field obj v m)
unfolding set_link write_object with_link
set_link-with_link field obj v m t = elim (Bool-cases (ltb m.h_type 4)) [
  | inl old ↦
      rw (get_object_address-base obj m t, old)
        (set_byte-ok (m.h_objects_offset + 53 + obj * 9 + offset3 field) v m
          (omega (arith, rw old at t.inside, offset3-le field)))
  | inr new ↦
      rw (get_object_address-base obj m t, new)
        (set_word-ok (m.h_objects_offset + 112 + obj * 14 + offset4 field) v m
          (omega (arith, rw new at t.inside, offset4-le field)))
]

abbrev pub same_field : Field → Field → Bool
same_field parent parent = true
same_field next next = true
same_field child child = true
same_field _ _ = false

-- Fields in bytes.
link_byte :
    (f g : Field) (a b v start : ℕ) (d : ℕ → ℕ)
    → v < 256
    → update d (start + b * 9 + offset3 g) (v % 256) (start + a * 9 + offset3 f)
      ≡ (if a == b && same_field f g then v else d (start + a * 9 + offset3 f))
link_byte parent parent a b v start d h = ground arith
link_byte _ _ a b v start d h = ground arith

-- Fields in words.
link_word :
    (f g : Field) (a b v start : ℕ) (d : ℕ → ℕ)
    → v < 0x10000
    → let at = start + a * 14 + offset4 f in
      let e = update_word d (start + b * 14 + offset4 g) v in
      (e at * 256 + e (at + 1)) % 0x10000
      ≡ (if a == b && same_field f g then v else (d at * 256 + d (at + 1)) % 0x10000)
link_word parent parent a b v start d h = ground arith
link_word _ _ a b v start d h = ground arith

-- A field that was written reads as the value, and every other field of the table as before.
pub link-with_link :
    (f g : Field) (a b v : ℕ) (m : Machine)
    → Fits v m
    → link f a (with_link g b v m) ≡ (if a == b && same_field f g then v else link f a m)
unfolding link with_link
link-with_link f g a b v m fits = elim (Bool-cases (ltb m.h_type 4)) [
  | inl old ↦ rw old (link_byte f g a b v (m.h_objects_offset + 53) m.datap (rw old at fits))
  | inr new ↦ rw new (link_word f g a b v (m.h_objects_offset + 112) m.datap (rw new at fits))
]
