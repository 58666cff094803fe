-- ===== src/Table.antt =====
-- Tables and arrays of bytes and words (the second half of property.c).
pub mod Copy
pub mod Arrays
pub mod Scan
use jzip.Prelude.{
  ℕ, zero, suc, ◌+◌, ◌-◌, ◌*◌, ◌/◌, ◌%◌, bit_and, Bool, true, false, not, ◌&&◌, ◌||◌, ltb, leb,
  ◌==◌, if◌then◌else◌, Option, none, some,
}
use jzip.Machine.{
  Machine, M, fatal, write_outside_data_area, pure, ◌>>=◌, ◌>>◌, read_data_byte, read_data_word,
  set_byte, set_word,
}
use jzip.Operand.{store_operand}
use jzip.Branch.{conditional_jump}

-- The loop over `n` elements, read by `read`; the address of the first that is `x`.
unfoldable pub scan_array : (ℕ → M ℕ) → ℕ → ℕ → ℕ → ℕ → M (Option ℕ)
scan_array read zero x address step = pure none
scan_array read (suc n) x address step = do
  value ← read address
  if value == x then pure (some address) else scan_array read n x (address + step) step

unfoldable pub finish_scan : Option ℕ → M (Unit {0})
finish_scan none = do store_operand 0; conditional_jump false
finish_scan (some address) = do store_operand (address % 0x10000); conditional_jump true

-- The arguments are the target, the table, its length and, where there are four, the form. Bit 7 of
-- the form asks for words.
unfoldable pub z_scan_table : ℕ → ℕ → ℕ → ℕ → ℕ → M (Unit {0})
z_scan_table argc x table len form =
    let step = if ltb argc 4 then 0x82 else form in
    do
      found ←
          scan_array (if bit_and step 0x80 == 0 then read_data_byte else read_data_word) len x table
            (bit_and step 0x7f)
      finish_scan found

unfoldable pub z_loadw : ℕ → ℕ → M (Unit {0})
z_loadw addr offset = do value ← read_data_word (addr + offset * 2); store_operand value

unfoldable pub z_loadb : ℕ → ℕ → M (Unit {0})
z_loadb addr offset = do value ← read_data_byte (addr + offset); store_operand value

unfoldable pub z_storew : ℕ → ℕ → ℕ → M (Unit {0})
z_storew addr offset value m =
    let at = (addr + offset * 2) % 0x10000 in
    if ltb m.data_size at then fatal write_outside_data_area else set_word at value m

unfoldable pub z_storeb : ℕ → ℕ → ℕ → M (Unit {0})
z_storeb addr offset value m =
    let at = (addr + offset) % 0x10000 in
    if ltb m.data_size at then fatal write_outside_data_area else set_byte at value m

unfoldable pub fill_zero : ℕ → ℕ → M (Unit {0})
fill_zero zero src = pure tt
fill_zero (suc n) src = do z_storeb src 0 0; fill_zero n ((src + 1) % 0x10000)

unfoldable pub copy_forward : ℕ → ℕ → ℕ → M (Unit {0})
copy_forward zero address dst = pure tt
copy_forward (suc n) address dst = do
  value ← read_data_byte address
  z_storeb dst 0 value
  copy_forward n (address + 1) ((dst + 1) % 0x10000)

-- From the ends of the tables down.
unfoldable pub copy_backward : ℕ → ℕ → ℕ → M (Unit {0})
copy_backward zero address dst = pure tt
copy_backward (suc n) address dst = do
  value ← read_data_byte (address - 1)
  z_storeb ((dst + 0xffff) % 0x10000) 0 value
  copy_backward n (address - 1) ((dst + 0xffff) % 0x10000)

-- A count that is negative as a `ZINT16` asks for a copy from the front.
unfoldable pub z_copy_table : ℕ → ℕ → ℕ → M (Unit {0})
z_copy_table src dst count =
    if src == dst || count == 0
    then pure tt
    else if dst == 0
    then fill_zero count src
    else if leb 0x8000 count
    then copy_forward (0x10000 - count) src dst
    else copy_backward count (src + count) ((dst + count) % 0x10000)
