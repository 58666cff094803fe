-- ===== src/Text/Decode.antt =====
-- `decode_text` of text.c. What it writes is a list: the calls of `write_zchar` and `z_new_line`.
use jzip.Prelude.{
  ℕ, zero, suc, ◌+◌, ◌-◌, ◌*◌, ◌/◌, ◌%◌, bit_and, bit_or, Bool, true, false, not, ◌&&◌, ltb, ◌==◌,
  if◌then◌else◌, List, [], ◌∷◌, ◌++◌,
}
use jzip.Machine.{Machine, M, ok, out_of_fuel, pure, ◌>>=◌, get_word, read_data_word}

pub data Out : Type 0 where
  zchar : ℕ → Out
  new_line : Out

-- The state variables of the loop. A flag that the code only sets and clears is a truth value.
pub record Decoder : Type 0 where
  pub shift_state : ℕ
  pub shift_lock : ℕ
  pub zscii_flag : ℕ
  pub zscii : ℕ
  pub synonym_flag : Bool
  pub synonym : ℕ

abbrev pub first_state : Decoder
first_state = record {
  shift_state = 0;
  shift_lock = 0;
  zscii_flag = 0;
  zscii = 0;
  synonym_flag = false;
  synonym = 0;
}

-- ZSCII codes: the upper part of a character, and the lower.
unfoldable pub decode_zscii : ℕ → Decoder → Decoder × List Out
decode_zscii code d =
    if d.zscii_flag == 1
    then (record d { zscii_flag = 2; zscii = code * 32 }, [])
    else (record d { zscii_flag = 0 }, zchar (bit_or d.zscii code % 256) ∷ [])

-- Character codes, less 6.
unfoldable pub decode_char : Machine → ℕ → Decoder → Decoder × List Out
decode_char m code d =
    if d.shift_state == 2 && code == 0
    then (record d { zscii_flag = 1; shift_state = d.shift_lock }, [])
    else if d.shift_state == 2 && (code == 1 && ltb 1 m.h_type)
    then (record d { shift_state = d.shift_lock }, new_line ∷ [])
    else (record d { shift_state = d.shift_lock }, zchar (m.lookup_table d.shift_state code) ∷ [])

-- The synonym and shift codes 1 to 5 of versions 1 and 2.
unfoldable pub shift_before : ℕ → ℕ → Decoder → Decoder × List Out
shift_before h_type code d =
    if code == 1
    then (if h_type == 1
        then (d, new_line ∷ [])
        else (record d { synonym_flag = true; synonym = code }, []))
    else if ltb code 4
    then (record d { shift_state = (d.shift_lock + code + 2) % 3 }, [])
    else (
      record d { shift_state = (d.shift_lock + code) % 3; shift_lock = (d.shift_lock + code) % 3 },
      [],
    )

-- The same codes of the later versions.
unfoldable pub shift_after : ℕ → Decoder → Decoder × List Out
shift_after code d =
    if ltb code 4
    then (record d { synonym_flag = true; synonym = code }, [])
    else (record d { shift_state = code - 3; shift_lock = 0 }, [])

-- A code where no synonym is due.
unfoldable pub decode_plain : Machine → ℕ → Decoder → Decoder × List Out
unfolding decode_zscii decode_char shift_before shift_after
decode_plain m code d =
    if not (d.zscii_flag == 0)
    then decode_zscii code d
    else if ltb 5 code
    then decode_char m (code - 6) d
    else if code == 0
    then (d, zchar 32 ∷ [])
    else if ltb m.h_type 3
    then shift_before m.h_type code d
    else shift_after code d

-- A code; `text_at` decodes the string at an address, for a synonym.
unfoldable pub decode_code : (ℕ → M (List Out)) → ℕ → Decoder → M (Decoder × List Out)
unfolding decode_plain
decode_code text_at code d =
    if d.synonym_flag
    then (do
      m ← (λ m. ok m m)
      let synonym : ℕ = (d.synonym - 1) * 64
      addr ← get_word (m.h_synonyms_offset + synonym + code * 2)
      text ← text_at (addr * 2)
      pure (record d { synonym_flag = false; synonym = synonym; shift_state = d.shift_lock }, text))
    else (λ m. ok (decode_plain m code d) m)

-- `for ( i = 10; i >= 0; i -= 5 )`, on the codes of a word.
unfoldable pub decode_codes : (ℕ → M (List Out)) → List ℕ → Decoder → M (Decoder × List Out)
unfolding decode_code
decode_codes text_at [] d = pure (d, [])
decode_codes text_at (code ∷ codes) d = do
  first ← decode_code text_at code d
  rest ← decode_codes text_at codes first.0
  pure (rest.0, first.1 ++ rest.1)

unfoldable pub codes_of : ℕ → List ℕ
codes_of w = (w / 1024 % 32) ∷ (w / 32 % 32) ∷ (w % 32) ∷ []

-- The loop over the words of a string, with the address behind it. The fuel bounds the words of the
-- string and those of the synonyms in it.
unfoldable pub decode_words : ℕ → ℕ → Decoder → M (List Out × ℕ)
unfolding decode_codes codes_of
decode_words zero address d = λ m. out_of_fuel
decode_words (suc fuel) address d = do
  w ← read_data_word address
  r ←
      decode_codes (λ addr. do text ← decode_words fuel addr first_state; pure text.0) (codes_of w)
        d
  elim (bit_and w 0x8000 == 0) [
    | true ↦ do rest ← decode_words fuel (address + 2) r.0; pure (r.1 ++ rest.0, rest.1)
    | false ↦ pure (r.1, address + 2)
  ]

unfoldable pub decode_text : ℕ → ℕ → M (List Out × ℕ)
unfolding decode_words
decode_text fuel address = decode_words fuel address first_state
