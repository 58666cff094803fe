-- ===== src/Property.antt =====
-- The properties of the objects (property.c): lists of entries with descending numbers, and the
-- table of default values.
pub mod Layout
pub mod Lookup
pub mod Values
pub mod Next
use jzip.Prelude.{
  ℕ, zero, suc, ◌+◌, ◌-◌, ◌*◌, ◌/◌, ◌%◌, bit_and, Bool, true, false, not, ◌&&◌, ◌||◌, ltb, leb,
  ◌==◌, if◌then◌else◌,
}
use jzip.Machine.{
  Machine, M, fatal, out_of_fuel, no_such_property, pure, ◌>>=◌, ◌>>◌, get_byte, set_byte, get_word,
  set_word, report_strictz_error,
}
use jzip.Operand.{store_operand}
use jzip.Objects.{get_object_address}

-- The address of an object's first property, behind the header with the object's name.
unfoldable pub get_property_addr : ℕ → M ℕ
get_property_addr obj m =
    (do
      prop_addr ←
          get_word ((get_object_address obj m + (if ltb m.h_type 4 then 7 else 12)) % 0x10000)
      size ← get_byte prop_addr
      pure ((prop_addr + size * 2 + 1) % 0x10000))
      m

-- `value & property_mask`: the number of the property that a byte begins. A cast to `zbyte_t` keeps
-- it, since `value` is a byte.
abbrev pub property_id : ℕ → Machine → ℕ
property_id value m = bit_and value m.property_mask

-- The size that the second byte of a header gives.
unfoldable pub long_size : ℕ → Machine → ℕ
long_size value m = let size = bit_and value m.property_size_mask in if size == 0 then 64 else size

-- How far the byte at `addr`, the one after `value`, is from the last of the property.
unfoldable pub property_length : ℕ → ℕ → M ℕ
property_length value addr m =
    if ltb m.h_type 4
    then pure (value / 32) m
    else if bit_and value 0x80 == 0
    then pure (value / 64) m
    else (do size ← get_byte addr; pure (long_size size m)) m

unfoldable pub get_next_property : ℕ → M ℕ
get_next_property prop_addr = do
  value ← get_byte prop_addr
  length ← property_length value ((prop_addr + 1) % 0x10000)
  pure ((prop_addr + 1 + length + 1) % 0x10000)

-- The scan down the list to the first property whose number is not above `prop`, with its address
-- and its first byte.
unfoldable pub scan : ℕ → ℕ → ℕ → M (ℕ × ℕ)
scan zero prop prop_addr m = out_of_fuel
scan (suc fuel) prop prop_addr m =
    (do
      value ← get_byte prop_addr
      if leb (property_id value m) prop
          then pure (prop_addr, value)
          else (do after ← get_next_property prop_addr; scan fuel prop after))
      m

-- After 65536 rounds an address has come twice, and the scan goes on for ever.
abbrev pub scan_fuel : ℕ
scan_fuel = 0x10000

-- Whether the first byte says that the property is a byte: there are no size bits.
unfoldable pub is_byte_sized : ℕ → Machine → Bool
is_byte_sized value m = if ltb m.h_type 4 then bit_and value 0xe0 == 0 else bit_and value 0xc0 == 0

-- The value of a property whose first byte is `value` at `prop_addr`, or else the default.
unfoldable pub load_property : ℕ → ℕ × ℕ → M ℕ
load_property prop (prop_addr, value) m =
    if property_id value m == prop % 256
    then (if is_byte_sized value m
        then get_byte ((prop_addr + 1) % 0x10000) m
        else get_word ((prop_addr + 1) % 0x10000) m)
    else get_word ((m.h_objects_offset + (prop * 2 + 0xfffe)) % 0x10000) m

unfoldable pub z_get_prop : ℕ → ℕ → M (Unit {0})
z_get_prop obj prop = if obj == 0 then (do report_strictz_error 6; store_operand 0) else (do
  prop_addr ← get_property_addr obj
  found ← scan scan_fuel (prop % 256) prop_addr
  value ← load_property prop found
  store_operand value)

unfoldable pub put_property : ℕ → ℕ → ℕ × ℕ → M (Unit {0})
put_property prop setvalue (prop_addr, value) m =
    if not (property_id value m == prop)
    then fatal no_such_property
    else if is_byte_sized value m
    then set_byte ((prop_addr + 1) % 0x10000) setvalue m
    else set_word ((prop_addr + 1) % 0x10000) setvalue m

unfoldable pub z_put_prop : ℕ → ℕ → ℕ → M (Unit {0})
z_put_prop obj prop setvalue = if obj == 0 then report_strictz_error 7 else (do
  prop_addr ← get_property_addr obj
  found ← scan scan_fuel prop prop_addr
  put_property prop setvalue found)

-- The loop of `z_get_next_prop`: the property that ends the scan is passed too.
unfoldable pub scan_past : ℕ → ℕ → ℕ → M (ℕ × ℕ)
scan_past zero prop prop_addr m = out_of_fuel
scan_past (suc fuel) prop prop_addr m =
    (do
      value ← get_byte prop_addr
      after ← get_next_property prop_addr
      if leb (property_id value m) prop then pure (after, value) else scan_past fuel prop after)
      m

-- The property after `prop`, which must be there, or the first where `prop` is 0.
unfoldable pub next_of : ℕ → ℕ → M ℕ
next_of prop prop_addr m =
    if prop == 0
    then pure prop_addr m
    else (do
      (after, value) ← scan_past scan_fuel (prop % 256) prop_addr
      if property_id value m == prop % 256 then pure after else (λ m. fatal no_such_property))
        m

unfoldable pub z_get_next_prop : ℕ → ℕ → M (Unit {0})
z_get_next_prop obj prop m =
    (if obj == 0 then (do report_strictz_error 14; store_operand 0) else (do
      prop_addr ← get_property_addr obj
      after ← next_of prop prop_addr
      value ← get_byte after
      store_operand (property_id value m)))
      m

-- The address of the data behind the header, or 0.
unfoldable pub data_address : ℕ → ℕ × ℕ → M ℕ
data_address prop (prop_addr, value) m =
    if property_id value m == prop % 256
    then pure
        ((prop_addr + (if not (ltb m.h_type 4) && not (bit_and value 0x80 == 0) then 1 else 0) + 1)
          % 0x10000)
        m
    else pure 0 m

unfoldable pub z_get_prop_addr : ℕ → ℕ → M (Unit {0})
z_get_prop_addr obj prop = if obj == 0 then (do report_strictz_error 5; store_operand 0) else (do
  prop_addr ← get_property_addr obj
  found ← scan scan_fuel (prop % 256) prop_addr
  addr ← data_address prop found
  store_operand addr)

-- The size of a property from the byte before its data.
unfoldable pub size_of : ℕ → Machine → ℕ
size_of value m =
    if ltb m.h_type 4
    then value / 32 + 1
    else if bit_and value 0x80 == 0
    then value / 64 + 1
    else long_size value m

unfoldable pub z_get_prop_len : ℕ → M (Unit {0})
z_get_prop_len prop_addr m =
    if prop_addr == 0
    then store_operand 0 m
    else (do value ← get_byte (prop_addr - 1); store_operand (size_of value m)) m
