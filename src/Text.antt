-- ===== src/Text.antt =====
-- Story text (text.c): packing characters of a word into codes of five bits, and unpacking a string.
pub mod Encode
pub mod Decode
pub mod Run
pub mod Room
pub mod RoundTrip
use jzip.Prelude.{
  ℕ, zero, suc, ◌+◌, ◌-◌, ◌*◌, ◌/◌, ◌%◌, bit_and, bit_or, Bool, true, false, not, ◌&&◌, ◌||◌, ltb,
  leb, ◌==◌, if◌then◌else◌, List, [], ◌∷◌, ◌++◌, length,
}
use jzip.Machine.{Machine}

-- The loop over the 26 characters of a table, from `j` on for `n` more, with what was found before: a
-- later match takes the place of an earlier.
unfoldable pub search_row : (ℕ → ℕ) → ℕ → ℕ → ℕ → ℕ → ℕ × ℕ → ℕ × ℕ
search_row row i c zero j found = found
search_row row i c (suc n) j found =
    search_row row i c n (j + 1) (if row j == c then (i, j) else found)

-- The table and the code of a character; character 0 of table 2 where it stands in none.
unfoldable pub find_code : (ℕ → ℕ → ℕ) → ℕ → ℕ × ℕ
find_code table c =
    search_row (table 2) 2 c 26 0
      (search_row (table 1) 1 c 26 0 (search_row (table 0) 0 c 26 0 (2, 0)))

-- `if ( codes_count < 9 ) codes[codes_count++] = code`
unfoldable pub add_code : ℕ → List ℕ → List ℕ
add_code code codes = if ltb (length codes) 9 then codes ++ (code ∷ []) else codes

-- The table of the next character, 0 behind the last.
unfoldable pub next_table : (ℕ → ℕ → ℕ) → List ℕ → ℕ
next_table table [] = 0
next_table table (c ∷ rest) = (find_code table c).0

-- The shift codes before a character: what version 1 and 2 store and the table that stays locked, and
-- what the later versions store.
unfoldable pub shift_early : ℕ → ℕ → ℕ → List ℕ → List ℕ × ℕ
shift_early table prev_table following codes =
    if table == prev_table
    then (codes, prev_table)
    else let shift_state = (table + prev_table * 2) % 3 in
      if shift_state == 0
      then (codes, prev_table)
      else if following == table
      then (add_code (shift_state + 3) codes, table)
      else (add_code (shift_state + 1) codes, 0)

unfoldable pub shift_late : ℕ → List ℕ → List ℕ
shift_late table codes = if table == 0 then codes else add_code (table + 3) codes

-- The code of the character, with the two codes of a literal one. The character is a `char`.
unfoldable pub add_char : ℕ → ℕ → ℕ → List ℕ → List ℕ
add_char c table code codes =
    let codes' = add_code (code + 6) codes in
    if table == 2 && code == 0 then add_code (c % 32) (add_code (c / 32 % 8) codes') else codes'

-- The loop over the characters.
unfoldable pub encode_chars : ℕ → (ℕ → ℕ → ℕ) → List ℕ → ℕ → List ℕ → List ℕ
encode_chars h_type lookup_table [] prev_table codes = codes
encode_chars h_type lookup_table (c ∷ s) prev_table codes =
    let found = find_code lookup_table c in
    let shifted =
      if ltb h_type 3
      then shift_early found.0 prev_table (next_table lookup_table s) codes
      else (shift_late found.0 codes, prev_table) in
    encode_chars h_type lookup_table s shifted.1 (add_char c found.0 found.1 shifted.0)

-- `while ( codes_count < 9 ) codes[codes_count++] = 5`
unfoldable pub pad_codes : ℕ → List ℕ → List ℕ
pad_codes zero codes = codes
pad_codes (suc n) codes = if ltb (length codes) 9 then pad_codes n (add_code 5 codes) else codes

-- Three codes in a word.
unfoldable pub pack : ℕ → ℕ → ℕ → ℕ
pack a b c = bit_or (bit_or (a * 1024) (b * 32)) c

-- The three words of the buffer from the nine codes; the last that counts has its high bit set.
unfoldable pub pack_codes : ℕ → List ℕ → List ℕ
pack_codes h_type (a ∷ b ∷ c ∷ d ∷ e ∷ f ∷ g ∷ h ∷ i ∷ rest) =
    if ltb h_type 4
    then pack a b c ∷ bit_or (pack d e f) 0x8000 ∷ pack g h i ∷ []
    else pack a b c ∷ pack d e f ∷ bit_or (pack g h i) 0x8000 ∷ []
pack_codes h_type _ = []

unfoldable pub encode_text : List ℕ → Machine → List ℕ
encode_text s m = pack_codes m.h_type (pad_codes 9 (encode_chars m.h_type m.lookup_table s 0 []))
