-- ===== src/Print.antt =====
-- The opcodes of text.c that print text from memory, and `z_encode`. What is printed is the list of the
-- calls of `write_zchar` and `z_new_line`; the fuel is that of `decode_text`.
pub mod Encoded
use jzip.Prelude.{ℕ, ◌+◌, ◌*◌, ◌%◌, ltb, ◌==◌, if◌then◌else◌, List, [], ◌∷◌, ◌++◌}
use jzip.Machine.{Machine, M, ok, pure, ◌>>=◌, ◌>>◌, get_word, set_word}
use jzip.Objects.{get_object_address}
use jzip.Return.{z_ret}
use jzip.Text.{encode_text}
use jzip.Text.Decode.{Out, new_line, decode_text}
use jzip.Tokenise.{read_chars}

unfoldable pub z_print_paddr : ℕ → ℕ → M (List Out)
z_print_paddr fuel packed_address m =
    (do r ← decode_text fuel (packed_address * m.story_scaler); pure r.0) m

unfoldable pub z_print_addr : ℕ → ℕ → M (List Out)
z_print_addr fuel offset = do r ← decode_text fuel offset; pure r.0

-- The name of an object, at the front of its property list, behind the count byte.
unfoldable pub z_print_obj : ℕ → ℕ → M (List Out)
z_print_obj fuel obj m =
    if obj == 0
    then ok [] m
    else (do
      address ← get_word ((get_object_address obj m + (if ltb m.h_type 4 then 7 else 12)) % 0x10000)
      r ← decode_text fuel (address + 1)
      pure r.0)
        m

-- `decode_text( &pc )` leaves the program counter behind the string.
unfoldable pub z_print : ℕ → M (List Out)
z_print fuel m = (do r ← decode_text fuel m.pc; (λ n. ok tt (record n { pc = r.1 })); pure r.0) m

unfoldable pub z_print_ret : ℕ → M (List Out)
unfolding z_print
z_print_ret fuel = do printed ← z_print fuel; z_ret 1; pure (printed ++ (new_line ∷ []))

-- The loop over the three words; `dest_addr` is a `zword_t`.
unfoldable pub store_words : ℕ → List ℕ → M (Unit {0})
store_words dest_addr [] = pure tt
store_words dest_addr (w ∷ words) = do
  set_word dest_addr w
  store_words ((dest_addr + 2) % 0x10000) words

unfoldable pub z_encode : ℕ → ℕ → ℕ → ℕ → M (Unit {0})
unfolding store_words
z_encode word_addr word_length word_offset dest_addr = do
  s ← read_chars word_length (word_addr + word_offset)
  m ← (λ m. ok m m)
  store_words dest_addr (encode_text s m)
