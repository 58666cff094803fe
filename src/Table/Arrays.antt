-- ===== src/Table/Arrays.antt =====
-- Loading from and storing into arrays.
use jzip.Prelude.{
  ℕ, ◌+◌, ◌*◌, ◌%◌, ◌<◌, ◌≡◌, ◌≢◌, refl, arith, false, ltb, leb, ◌==◌, if◌then◌else◌, Bool-cases,
  inl, inr, ne→not_==, le→not_ltb, lt→ltb,
}
use jzip.Machine.{
  Machine, ok, fault, fatal, write_outside_data_area, update, update_word, read_data_byte,
  read_data_word, set_byte, set_word, set_word-ok,
}
use jzip.Operand.{store_operand}
use jzip.Table.{z_loadw, z_storew, z_storeb}

pub read_data_word-ok :
    (a : ℕ) (m : Machine)
    → a + 1 < m.data_size
    → read_data_word a m ≡ ok ((m.datap a * 256 + m.datap (a + 1)) % 0x10000) m
unfolding read_data_word read_data_byte
read_data_word-ok a m h = ground arith

pub word_written :
    (d : ℕ → ℕ) (a v : ℕ)
    → v < 0x10000
    → (update_word d a v a * 256 + update_word d a v (a + 1)) % 0x10000 ≡ v
word_written d a v h = ground arith

-- A word that is stored into an array within the data area is loaded again, and no byte but its two
-- changes.
pub z_loadw-z_storew :
    (addr offset v : ℕ) (m : Machine)
    → v < 0x10000
    → addr + offset * 2 < 0x10000
    → addr + offset * 2 + 1 < m.data_size
    → (m' : Machine) × (z_storew addr offset v m ≡ ok tt m')
      × (z_loadw addr offset m' ≡ store_operand v m')
      × ((a : ℕ) → a ≢ addr + offset * 2 → a ≢ addr + offset * 2 + 1 → m'.datap a ≡ m.datap a)
unfolding z_storew z_loadw
z_loadw-z_storew addr offset v m hv h k =
    let at = addr + offset * 2 in
    let m' = record m { datap = update_word m.datap at v } in
    let wrap : at % 0x10000 ≡ at = omega arith in
    let inside : ltb m.data_size at ≡ false = ground arith in
    (
      m',
      rw (wrap, inside) (set_word-ok at v m k),
      rw (read_data_word-ok at m' k, word_written m.datap at v hv) refl,
      λ a e e'. rw (ne→not_== a (at + 1) e', ne→not_== a at e) refl,
    )

byte_store :
    (at v : ℕ) (m : Machine)
    → (if ltb m.data_size at then fatal write_outside_data_area else set_byte at v m) ≡ (
        if ltb at m.data_size
        then ok tt (record m { datap = update m.datap at (v % 256) })
        else if at == m.data_size
        then fault
        else fatal write_outside_data_area)
unfolding set_byte
byte_store at v m = elim (Bool-cases (ltb at m.data_size)) [
  | inl inside ↦ rw (inside, le→not_ltb m.data_size at (ground arith)) refl
  | inr outside ↦ elim (Bool-cases (at == m.data_size)) [
    | inl end ↦ rw (outside, end, le→not_ltb m.data_size at (ground arith)) refl
    | inr above ↦ rw (outside, above, lt→ltb m.data_size at (ground arith)) refl
  ]
]

-- A word that does not fit within the data area, with the first byte outside or the last.
word_end : (at v : ℕ) (m : Machine) → ltb (at + 1) m.data_size ≡ false → set_word at v m ≡ fault
unfolding set_word set_byte
word_end at v m outside = ground arith

word_store :
    (at v : ℕ) (m : Machine)
    → (if ltb m.data_size at then fatal write_outside_data_area else set_word at v m) ≡ (
        if ltb (at + 1) m.data_size
        then ok tt (record m { datap = update_word m.datap at v })
        else if leb at m.data_size
        then fault
        else fatal write_outside_data_area)
word_store at v m = elim (Bool-cases (ltb (at + 1) m.data_size)) [
  | inl inside ↦
      rw (inside, le→not_ltb m.data_size at (ground arith), set_word-ok at v m (ground arith)) refl
  | inr outside ↦ elim (Bool-cases (leb at m.data_size)) [
    | inl end ↦
        rw (outside, end, le→not_ltb m.data_size at (ground arith)) (word_end at v m outside)
    | inr above ↦ rw (outside, above, lt→ltb m.data_size at (ground arith)) refl
  ]
]

-- The stores for every address. `z_storeb` writes the byte's low eight bits at an address within the
-- data area, and `z_storew` a word whose two bytes lie in it. The address just behind the area is
-- not refused: there both write outside the area, and so does `z_storew` with its second byte at
-- the last address. From the next address on both are the fatal error.
pub store_at_end :
    (addr offset v : ℕ) (m : Machine)
    → let byte_at = (addr + offset) % 0x10000 in
      let word_at = (addr + offset * 2) % 0x10000 in
      (z_storeb addr offset v m ≡ (
        if ltb byte_at m.data_size
        then ok tt (record m { datap = update m.datap byte_at (v % 256) })
        else if byte_at == m.data_size
        then fault
        else fatal write_outside_data_area))
      × (z_storew addr offset v m ≡ (
          if ltb (word_at + 1) m.data_size
          then ok tt (record m { datap = update_word m.datap word_at v })
          else if leb word_at m.data_size
          then fault
          else fatal write_outside_data_area))
unfolding z_storeb z_storew
store_at_end addr offset v m =
    (byte_store ((addr + offset) % 0x10000) v m, word_store ((addr + offset * 2) % 0x10000) v m)
