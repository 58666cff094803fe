-- ===== src/Property/Lookup.antt =====
-- The opcodes that look a property up, against the list of the story file.
use jzip.Prelude.{
  ℕ, ◌+◌, ◌*◌, ◌%◌, ◌<◌, ◌≤◌, ◌≡◌, ◌≢◌, ◌⊎◌, inl, inr, refl, ap, arith, Bool, true, false, ltb,
  if◌then◌else◌, ne→not_==, eq→==, Option, none, some, List, length,
}
use jzip.Machine.{Machine, ok, get_byte-ok, get_word-ok}
use jzip.Operand.{store_operand}
use jzip.Objects.Links.{base, InTable, get_object_address-base}
use jzip.Property.{get_property_addr, scan_fuel, data_address, z_get_prop_addr}
use jzip.Property.Layout.{
  is_long, data_of, size_at, next_property, id_at, Listed, Listed-inside, entry, scan-entry,
}

-- The word at an address.
abbrev pub word_at : ℕ → Machine → ℕ
word_at a m = (m.datap a * 256 + m.datap (a + 1)) % 0x10000

-- Where an object's property pointer stands, and where its first property does.
abbrev pub pointer_at : ℕ → Machine → ℕ
pointer_at obj m = base obj m + (if ltb m.h_type 4 then 7 else 12)

abbrev pub first_property : ℕ → Machine → ℕ
first_property obj m = word_at (pointer_at obj m) m + m.datap (word_at (pointer_at obj m) m) * 2 + 1

-- The object has the properties `ps`, as a list in the data area.
pub record HasProperties (obj : ℕ) (ps : List ℕ) (m : Machine) : Type 0 where
  pub in_table : InTable obj m
  pub room : m.data_size ≤ 0x10000
  pub listed : Listed (first_property obj m) ps m
  pub few : length ps < 0x10000

pub get_property_addr-first_property :
    (obj : ℕ) (ps : List ℕ) (m : Machine)
    → HasProperties obj ps m
    → get_property_addr obj m ≡ ok (first_property obj m) m
unfolding get_property_addr
get_property_addr-first_property obj ps m c =
    let inside = Listed-inside (first_property obj m) ps m c.listed in
    rw
      (
        get_object_address-base obj m c.in_table,
        small (pointer_at obj m) (ground (arith, c.in_table.inside, c.room)),
        get_word-ok (pointer_at obj m) m (ground (arith, c.in_table.inside)),
        get_byte-ok (word_at (pointer_at obj m) m) m (omega arith),
        small (first_property obj m) (omega (arith, c.room)),
      )
      refl
  where
    small : (a : ℕ) → a < 0x10000 → a % 0x10000 ≡ a
    small a h = omega arith

-- The address that `z_get_prop_addr` is to find.
abbrev pub found_address : Option ℕ → Machine → ℕ
found_address none m = 0
found_address (some a) m = data_of a m

-- What a scan can have found.
abbrev pub Found : ℕ → ℕ → Option ℕ → Machine → Type 0
Found stop prop e m =
    ((e ≡ some stop) × (id_at stop m ≡ prop) × (next_property stop m + 1 < m.data_size))
    ⊎ ((e ≡ none) × (id_at stop m ≢ prop))

data_place :
    (long : Bool) (stop n d : ℕ)
    → (if long then stop + 2 else stop + 1) + n + 1 < d
    → d ≤ 0x10000
    → (stop + (if long then 1 else 0) + 1) % 0x10000 ≡ (if long then stop + 2 else stop + 1)
data_place true stop n d h k = omega arith
data_place false stop n d h k = omega arith

data_address-found_address :
    (stop prop : ℕ) (e : Option ℕ) (m : Machine)
    → m.data_size ≤ 0x10000
    → prop < 256
    → Found stop prop e m
    → data_address prop (stop, m.datap stop) m ≡ ok (found_address e m) m
unfolding data_address
data_address-found_address stop prop e m room h (inl (is, same, inside)) =
    rw (small_prop prop h, eq→== (id_at stop m) prop same, is)
      (ap (λ c. ok c m) (data_place (is_long stop m) stop (size_at stop m) m.data_size inside room))
  where
    small_prop : (a : ℕ) → a < 256 → a % 256 ≡ a
    small_prop a h = omega arith
data_address-found_address stop prop e m room h (inr (is, other)) =
    rw (small_prop prop h, ne→not_== (id_at stop m) prop other, is) refl
  where
    small_prop : (a : ℕ) → a < 256 → a % 256 ≡ a
    small_prop a h = omega arith

-- On an object with a property list, `z_get_prop_addr` stores the address of the property's data, or 0
-- where the list has no such property.
pub z_get_prop_addr_found :
    (obj prop : ℕ) (ps : List ℕ) (m : Machine)
    → HasProperties obj ps m
    → 1 ≤ prop
    → prop < 256
    → z_get_prop_addr obj prop m
      ≡ store_operand (found_address (entry prop (first_property obj m) ps m) m) m
unfolding z_get_prop_addr data_address
z_get_prop_addr_found obj prop ps m c h h' =
    let found = scan-entry scan_fuel prop (first_property obj m) ps m c.room h c.few c.listed in
    let cast : prop % 256 ≡ prop = omega arith in
    rw
      (
        ne→not_== obj 0 (omega (arith, c.in_table.number)),
        get_property_addr-first_property obj ps m c,
        cast,
        found.ends,
        data_address-found_address found.stop prop _ m c.room h' found.result,
      )
      refl
