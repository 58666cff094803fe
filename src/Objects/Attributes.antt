-- ===== src/Objects/Attributes.antt =====
-- The attributes of the objects as a table of flags.
use jzip.Prelude.{
  ℕ, ◌+◌, ◌-◌, ◌/◌, ◌%◌, ◌^◌, ◌<◌, ◌≤◌, ◌≡◌, refl, sym, arith, bit_and, bit_or, all_below,
  all_below→holds, Bool, true, false, not, ◌||◌, ◌&&◌, ltb, ◌==◌, if◌then◌else◌, ne→not_==,
}
use jzip.Machine.{Machine, ok, update, get_byte-ok, set_byte-ok}
use jzip.Branch.{conditional_jump}
use jzip.Objects.{attr_addr, attr_mask, z_test_attr, z_set_attr, z_clear_attr}
use jzip.Objects.Links.{base, InTable, get_object_address-base}

-- Bit `7 - j` of a byte.
unfoldable pub flag : ℕ → ℕ → Bool
flag x j = not (bit_and (x / 2 ^ (7 - j)) 1 == 0)

same : Bool → Bool → Bool
same true b = b
same false b = not b

-- Over every byte and every pair of bits.
set_table : ℕ → ℕ → ℕ → Bool
set_table x k j = same (flag (bit_or x (2 ^ (7 - k)) % 256) j) (j == k || flag x j)

clear_table : ℕ → ℕ → ℕ → Bool
clear_table x k j = same (flag (bit_and x (255 - 2 ^ (7 - k)) % 256) j) (not (j == k) && flag x j)

set_tables : all_below 8 (λ k. all_below 8 (λ j. all_below 256 (λ x. set_table x k j))) ≡ true
unfolding set_table same flag all_below
set_tables = refl

clear_tables : all_below 8 (λ k. all_below 8 (λ j. all_below 256 (λ x. clear_table x k j))) ≡ true
unfolding clear_table same flag all_below
clear_tables = refl

same→eq : (a b : Bool) → same a b ≡ true → a ≡ b
unfolding same
same→eq true b h = sym h
same→eq false b h = ground arith

entry :
    (table : ℕ → ℕ → ℕ → Bool) (x k j : ℕ)
    → all_below 8 (λ k. all_below 8 (λ j. all_below 256 (λ x. table x k j))) ≡ true
    → x < 256
    → k < 8
    → j < 8
    → table x k j ≡ true
entry table x k j all hx hk hj =
    all_below→holds 256 (λ x. table x k j) x
      (all_below→holds 8 (λ j. all_below 256 (λ x. table x k j)) j
        (all_below→holds 8 (λ k. all_below 8 (λ j. all_below 256 (λ x. table x k j))) k all hk) hj)
      hx

pub flag-set :
    (x k j : ℕ)
    → x < 256
    → k < 8
    → j < 8
    → flag (bit_or x (2 ^ (7 - k)) % 256) j ≡ (j == k || flag x j)
flag-set x k j hx hk hj =
    same→eq _ _ (unfold set_table in entry set_table x k j set_tables hx hk hj)

pub flag-clear :
    (x k j : ℕ)
    → x < 256
    → k < 8
    → j < 8
    → flag (bit_and x (255 - 2 ^ (7 - k)) % 256) j ≡ (not (j == k) && flag x j)
flag-clear x k j hx hk hj =
    same→eq _ _ (unfold clear_table in entry clear_table x k j clear_tables hx hk hj)

-- Whether an object has an attribute.
unfoldable pub attribute : ℕ → ℕ → Machine → Bool
unfolding flag
attribute obj bit m = flag (m.datap (base obj m + bit / 8)) (bit % 8)

-- The attributes that an object has room for: 32, and 48 from version 4 on.
abbrev pub IsAttribute : ℕ → Machine → Type 0
IsAttribute bit m = bit < (if ltb m.h_type 4 then 32 else 48)

attr_addr-base :
    (obj bit : ℕ) (m : Machine)
    → InTable obj m
    → IsAttribute bit m
    → m.data_size ≤ 0x10000
    → attr_addr obj bit m ≡ base obj m + bit / 8
attr_addr-base obj bit m t b room = rw (get_object_address-base obj m t) (ground (arith, t.inside))

-- The byte of an attribute changed.
unfoldable pub with_byte : ℕ → ℕ → ℕ → Machine → Machine
with_byte obj bit v m = record m { datap = update m.datap (base obj m + bit / 8) (v % 256) }

pub z_test_attr-attribute :
    (obj bit : ℕ) (m : Machine)
    → InTable obj m
    → IsAttribute bit m
    → m.data_size ≤ 0x10000
    → z_test_attr obj bit m ≡ conditional_jump (attribute obj bit m) m
unfolding z_test_attr attribute flag
z_test_attr-attribute obj bit m t b room =
    rw
      (
        ne→not_== obj 0 (omega (arith, t.number)),
        attr_addr-base obj bit m t b room,
        get_byte-ok (base obj m + bit / 8) m (ground (arith, t.inside)),
      )
      refl

pub z_set_attr-with_byte :
    (obj bit : ℕ) (m : Machine)
    → InTable obj m
    → IsAttribute bit m
    → m.data_size ≤ 0x10000
    → z_set_attr obj bit m
      ≡ ok tt (with_byte obj bit (bit_or (m.datap (base obj m + bit / 8)) (attr_mask bit)) m)
unfolding z_set_attr with_byte
z_set_attr-with_byte obj bit m t b room =
    rw
      (
        ne→not_== obj 0 (omega (arith, t.number)),
        attr_addr-base obj bit m t b room,
        get_byte-ok (base obj m + bit / 8) m (ground (arith, t.inside)),
      )
      (set_byte-ok (base obj m + bit / 8) _ m (ground (arith, t.inside)))

pub z_clear_attr-with_byte :
    (obj bit : ℕ) (m : Machine)
    → InTable obj m
    → IsAttribute bit m
    → m.data_size ≤ 0x10000
    → z_clear_attr obj bit m
      ≡ ok tt (with_byte obj bit (bit_and (m.datap (base obj m + bit / 8)) (255 - attr_mask bit)) m)
unfolding z_clear_attr with_byte
z_clear_attr-with_byte obj bit m t b room =
    rw
      (
        ne→not_== obj 0 (omega (arith, t.number)),
        attr_addr-base obj bit m t b room,
        get_byte-ok (base obj m + bit / 8) m (ground (arith, t.inside)),
      )
      (set_byte-ok (base obj m + bit / 8) _ m (ground (arith, t.inside)))
