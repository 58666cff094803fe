-- ===== src/Property/Values.antt =====
-- The values and sizes of properties, as the opcodes load them.
use jzip.Prelude.{
  ℕ, ◌+◌, ◌-◌, ◌*◌, ◌/◌, ◌%◌, ◌<◌, ◌≤◌, ◌≡◌, inl, inr, refl, sym, ap, arith, bit_and, Bool,
  all_below, all_below→holds, true, false, not, ◌||◌, ltb, ◌==◌, if◌then◌else◌, Bool-cases,
  ne→not_==, eq→==, Option, none, some, List,
}
use jzip.Machine.{Machine, ok, get_byte-ok, get_word-ok}
use jzip.Operand.{store_operand}
use jzip.Property.{scan_fuel, size_of, is_byte_sized, load_property, z_get_prop, z_get_prop_len}
use jzip.Property.Layout.{is_long, data_of, size_at, next_property, id_at, entry, scan-entry}
use jzip.Property.Lookup.{
  word_at, first_property, HasProperties, get_property_addr-first_property, Found, found_address,
}

abbrev same : Bool → Bool → Bool
same true b = b
same false b = not b

-- The value that `z_get_prop` is to load: a byte or a word, or else the default.
abbrev pub found_value : ℕ → Option ℕ → Machine → ℕ
found_value prop none m = word_at (m.h_objects_offset + (prop - 1) * 2) m
found_value prop (some a) m =
    if size_at a m == 1 then m.datap (data_of a m) else word_at (data_of a m) m

-- Over the bytes: one that has no size bits says one byte.
byte_sizes : all_below 256 (λ v. same (bit_and v 0xe0 == 0) (v / 32 + 1 == 1)) ≡ true
unfolding all_below
byte_sizes = refl

short_sizes :
    all_below 256 (λ v. not (bit_and v 0x80 == 0) || same (bit_and v 0xc0 == 0) (v / 64 + 1 == 1))
    ≡ true
unfolding all_below
short_sizes = refl

same→eq : (a b : Bool) → same a b ≡ true → a ≡ b
same→eq true b h = sym h
same→eq false b h = ground arith

is_byte_sized-size_at :
    (a : ℕ) (m : Machine)
    → m.datap a < 256
    → is_long a m ≡ false
    → is_byte_sized (m.datap a) m ≡ (size_at a m == 1)
unfolding is_byte_sized
is_byte_sized-size_at a m byte short = elim (Bool-cases (ltb m.h_type 4)) [
  | inl old ↦ rw old (
      same→eq _ _ (
        all_below→holds 256 (λ v. same (bit_and v 0xe0 == 0) (v / 32 + 1 == 1)) (m.datap a)
          byte_sizes byte))
  | inr new ↦
      let low : (bit_and (m.datap a) 0x80 == 0) ≡ true = ground (arith, rw new at short) in
      let at =
        all_below→holds 256
          (λ v. not (bit_and v 0x80 == 0) || same (bit_and v 0xc0 == 0) (v / 64 + 1 == 1))
          (m.datap a) short_sizes byte in
      rw (new, low) (same→eq _ _ (rw low at at))
]

long_sizes : all_below 256 (λ v. bit_and v 0x80 == 0 || not (bit_and v 0xc0 == 0)) ≡ true
unfolding all_below
long_sizes = refl

is_byte_sized_long :
    (a : ℕ) (m : Machine)
    → m.datap a < 256
    → is_long a m ≡ true
    → is_byte_sized (m.datap a) m ≡ false
unfolding is_byte_sized
is_byte_sized_long a m byte long =
    let new : ltb m.h_type 4 ≡ false = ground arith in
    let high : (bit_and (m.datap a) 0x80 == 0) ≡ false = ground (arith, rw new at long) in
    let at =
      all_below→holds 256 (λ v. bit_and v 0x80 == 0 || not (bit_and v 0xc0 == 0)) (m.datap a)
        long_sizes byte in
    rw new (ground (arith, rw high at at))

-- What the two-byte header makes of the load: the word begins one byte early, at the header's second
-- byte.
abbrev pub loaded_value : ℕ → Option ℕ → Machine → ℕ
loaded_value prop none m = word_at (m.h_objects_offset + (prop - 1) * 2) m
loaded_value prop (some a) m =
    if is_long a m then word_at (data_of a m - 1) m else found_value prop (some a) m

load_property-loaded_value :
    (stop prop : ℕ) (e : Option ℕ) (m : Machine)
    → m.data_size ≤ 0x10000
    → 1 ≤ prop
    → prop < 256
    → m.datap stop < 256
    → m.h_objects_offset + prop * 2 ≤ m.data_size
    → Found stop prop e m
    → load_property prop (stop, m.datap stop) m ≡ ok (loaded_value prop e m) m
unfolding load_property
load_property-loaded_value stop prop e m room nz h byte defaults (inl (is, at, inside)) =
    let cast : prop % 256 ≡ prop = omega arith in
    elim (Bool-cases (is_long stop m)) [
      | inl long ↦
          let behind : (stop + 1) % 0x10000 ≡ stop + 1 = omega (arith, rw long at inside) in
          let early : stop + 2 - 1 ≡ stop + 1 = omega arith in
          rw
            (
              cast,
              eq→== (id_at stop m) prop at,
              is,
              is_byte_sized_long stop m byte long,
              long,
              behind,
              early,
            )
            (get_word-ok (stop + 1) m (omega (arith, rw long at inside)))
      | inr short ↦
          let behind : (stop + 1) % 0x10000 ≡ stop + 1 = omega (arith, rw short at inside) in
          elim (Bool-cases (size_at stop m == 1)) [
            | inl one ↦
                rw
                  (
                    cast,
                    eq→== (id_at stop m) prop at,
                    is,
                    is_byte_sized-size_at stop m byte short,
                    one,
                    short,
                    behind,
                  )
                  (get_byte-ok (stop + 1) m (omega (arith, rw short at inside)))
            | inr more ↦
                rw
                  (
                    cast,
                    eq→== (id_at stop m) prop at,
                    is,
                    is_byte_sized-size_at stop m byte short,
                    more,
                    short,
                    behind,
                  )
                  (get_word-ok (stop + 1) m (omega (arith, rw short at inside)))
          ]
    ]
load_property-loaded_value stop prop e m room nz h byte defaults (inr (is, other)) =
    let cast : prop % 256 ≡ prop = omega arith in
    let place : (m.h_objects_offset + (prop * 2 + 0xfffe)) % 0x10000
        ≡ m.h_objects_offset + (prop - 1) * 2 =
      omega arith in
    rw (cast, ne→not_== (id_at stop m) prop other, is, place)
      (get_word-ok (m.h_objects_offset + (prop - 1) * 2) m (omega arith))

-- On an object with a property list in a data area of bytes that also has the defaults, `z_get_prop`
-- stores the property's value: a byte where its size is 1, else a word, and the default where the
-- list has no such property. Where the header has two bytes it stores instead the word that begins
-- one byte before the data.
pub z_get_prop_loaded :
    (obj prop : ℕ) (ps : List ℕ) (m : Machine)
    → HasProperties obj ps m
    → ((a : ℕ) → m.datap a < 256)
    → 1 ≤ prop
    → prop < 256
    → m.h_objects_offset + prop * 2 ≤ m.data_size
    → z_get_prop obj prop m
      ≡ store_operand (loaded_value prop (entry prop (first_property obj m) ps m) m) m
unfolding z_get_prop
z_get_prop_loaded obj prop ps m c bytes h h' defaults =
    let found = scan-entry scan_fuel prop (first_property obj m) ps m c.room h c.few c.listed in
    let cast : prop % 256 ≡ prop = omega arith in
    rw
      (
        ne→not_== obj 0 (omega (arith, c.in_table.number)),
        get_property_addr-first_property obj ps m c,
        cast,
        found.ends,
        load_property-loaded_value found.stop prop _ m c.room h h' (bytes found.stop) defaults
            found.result,
      )
      refl

-- The length that `z_get_prop_len` stores for the address that `z_get_prop_addr` gives of a property in
-- the list is the number of bytes from there to the next property, where a second header byte has
-- bit 7 set.
pub z_get_prop_len-found_address :
    (a : ℕ) (m : Machine)
    → m.data_size ≤ 0x10000
    → next_property a m < m.data_size
    → (is_long a m ≡ true → (bit_and (m.datap (a + 1)) 0x80 == 0) ≡ false)
    → z_get_prop_len (found_address (some a) m) m
      ≡ store_operand (next_property a m - found_address (some a) m) m
unfolding z_get_prop_len size_of
z_get_prop_len-found_address a m room inside second = elim (Bool-cases (is_long a m)) [
  | inl long ↦
      let new : ltb m.h_type 4 ≡ false = ground arith in
      let high : (bit_and (m.datap a) 0x80 == 0) ≡ false = ground (arith, rw new at long) in
      rw
        (
          long,
          ne→not_== (a + 2) 0 (omega arith),
          minus_two a,
          get_byte-ok (a + 1) m (omega (arith, rw long at inside)),
          past (a + 2) (size_at a m),
          new,
          second long,
          high,
        )
        refl
  | inr short ↦
      rw
        (
          short,
          ne→not_== (a + 1) 0 (omega arith),
          minus_one a,
          get_byte-ok a m (omega (arith, rw short at inside)),
          past (a + 1) (size_at a m),
        )
        (ap (λ n. store_operand n m) (short_size short))
]
  where
    minus_one : (a : ℕ) → a + 1 - 1 ≡ a
    minus_one a = omega arith

    minus_two : (a : ℕ) → a + 2 - 1 ≡ a + 1
    minus_two a = omega arith

    past : (a n : ℕ) → a + n - a ≡ n
    past a n = omega arith

    short_size : is_long a m ≡ false → size_of (m.datap a) m ≡ size_at a m
    short_size short = ground arith
