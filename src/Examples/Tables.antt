-- ===== src/Examples/Tables.antt =====
-- The theorems on properties and tables at small ones.
use jzip.Prelude.{
  ℕ, ◌+◌, ◌*◌, ◌%◌, ◌-◌, ◌<◌, ◌≡◌, ◌≢◌, ◌⊎◌, refl, arith, ◌==◌, if◌then◌else◌, inl, true, false, [],
  ◌∷◌, some,
}
use jzip.Machine.{Machine, ok, ◌>>◌, fault, fatal, write_outside_data_area}
use jzip.Operand.{store_operand}
use jzip.Branch.{conditional_jump}
use jzip.Property.{z_get_prop, z_get_prop_addr, z_get_prop_len, z_get_next_prop}
use jzip.Property.Layout.{entry, next_property}
use jzip.Property.Lookup.{HasProperties, first_property, found_address, z_get_prop_addr_found}
use jzip.Property.Values.{loaded_value, z_get_prop_loaded, z_get_prop_len-found_address}
use jzip.Table.{z_copy_table, z_scan_table, z_storeb, z_storew, z_loadw}
use jzip.Table.Copy.{copied, z_copy_table-copied, z_copy_table-copied_forward}
use jzip.Table.Arrays.{z_loadw-z_storew, store_at_end}
use jzip.Table.Scan.{Hit, Miss, word_of, z_scan_table_first}
use jzip.Property.Next.{following, z_get_next_prop-following}
use jzip.Examples.{start}

-- Object 1 has property 5, a word, and property 3, a byte.
abbrev chest_data : ℕ → ℕ
chest_data a =
    if a == 169
    then 1
    else if a == 170
    then 48
    else if a == 304
    then 1
    else if a == 307
    then 37
    else if a == 308
    then 1
    else if a == 309
    then 2
    else if a == 310
    then 3
    else if a == 311
    then 7
    else 0

abbrev chest : Machine
chest = record start { datap = chest_data }

chest-bytes : (a : ℕ) → chest_data a < 256
chest-bytes a = ground arith

chest-HasProperties : HasProperties 1 (5 ∷ 3 ∷ []) chest
chest-HasProperties = record {
  in_table = record { number = omega arith; inside = omega arith; word = omega arith };
  room = omega arith;
  listed = (
    omega arith,
    refl,
    omega arith,
    (omega arith, tt),
    (omega arith, refl, omega arith, tt, (omega arith, refl)),
  );
  few = omega arith;
}

z_get_prop_addr_found_example :
    z_get_prop_addr 1 3 chest
    ≡ store_operand
        (found_address (entry 3 (first_property 1 chest) (5 ∷ 3 ∷ []) chest) chest)
        chest
z_get_prop_addr_found_example =
    z_get_prop_addr_found 1 3 (5 ∷ 3 ∷ []) chest chest-HasProperties (omega arith) (omega arith)

third_property : found_address (entry 3 (first_property 1 chest) (5 ∷ 3 ∷ []) chest) chest ≡ 311
unfolding entry
third_property = refl

z_get_prop_loaded_example :
    z_get_prop 1 5 chest
    ≡ store_operand
        (loaded_value 5 (entry 5 (first_property 1 chest) (5 ∷ 3 ∷ []) chest) chest)
        chest
z_get_prop_loaded_example =
    z_get_prop_loaded 1 5 (5 ∷ 3 ∷ []) chest chest-HasProperties chest-bytes (omega arith)
      (omega arith) (omega arith)

fifth_property : loaded_value 5 (entry 5 (first_property 1 chest) (5 ∷ 3 ∷ []) chest) chest ≡ 258
unfolding entry
fifth_property = refl

z_get_prop_len-found_address_example :
    z_get_prop_len (found_address (some 307) chest) chest
    ≡ store_operand (next_property 307 chest - found_address (some 307) chest) chest
z_get_prop_len-found_address_example =
    z_get_prop_len-found_address 307 chest (omega arith) (omega arith) (λ e. cc)

z_copy_table-copied_example :
    (d : ℕ → ℕ) × (z_copy_table 307 309 4 chest ≡ ok tt (record chest { datap = d }))
    × ((a : ℕ) → d a ≡ copied 4 307 309 chest_data a)
z_copy_table-copied_example =
    z_copy_table-copied 307 309 4 chest chest-bytes (omega arith) (omega arith) (omega arith)
      (omega arith) (omega arith) (inl (omega arith))

z_copy_table-copied_forward_example :
    (d : ℕ → ℕ) × (z_copy_table 307 305 0xfffc chest ≡ ok tt (record chest { datap = d }))
    × ((a : ℕ) → d a ≡ copied 4 307 305 chest_data a)
z_copy_table-copied_forward_example =
    z_copy_table-copied_forward 307 305 4 chest chest-bytes (omega arith) (omega arith)
      (omega arith) (omega arith) (omega arith) (omega arith) (inl (omega arith))

z_loadw-z_storew_example :
    (m' : Machine) × (z_storew 300 2 1234 chest ≡ ok tt m')
    × (z_loadw 300 2 m' ≡ store_operand 1234 m')
    × ((a : ℕ) → a ≢ 304 → a ≢ 305 → m'.datap a ≡ chest_data a)
z_loadw-z_storew_example =
    z_loadw-z_storew 300 2 1234 chest (omega arith) (omega arith) (omega arith)

store_at_end_example :
    (z_storeb 500 12 7 chest ≡ fault) × (z_storew 500 12 7 chest ≡ fatal write_outside_data_area)
store_at_end_example = store_at_end 500 12 7 chest

z_scan_table_first_example :
    ((i : ℕ) × (z_scan_table 4 258 304 6 0x82 chest
        ≡ (do store_operand ((304 + i * 2) % 0x10000); conditional_jump true) chest)
      × Hit (word_of chest) 6 258 304 2 i)
    ⊎ ((z_scan_table 4 258 304 6 0x82 chest ≡ (do store_operand 0; conditional_jump false) chest)
        × Miss (word_of chest) 6 258 304 2)
z_scan_table_first_example = z_scan_table_first 258 304 6 0x82 chest refl (omega arith)

z_get_next_prop-following_example :
    z_get_next_prop 1 5 chest ≡ store_operand (following 5 (5 ∷ 3 ∷ [])) chest
z_get_next_prop-following_example =
    z_get_next_prop-following 1 5 (5 ∷ 3 ∷ []) chest chest-HasProperties (omega arith) (omega arith)
      refl
