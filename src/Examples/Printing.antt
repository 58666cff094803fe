-- ===== src/Examples/Printing.antt =====
-- Text that is encoded and printed, and runs of the codes of version 2.
use jzip.Prelude.{ℕ, ◌<◌, ◌≡◌, refl, arith, ◌==◌, if◌then◌else◌, [], ◌∷◌, map}
use jzip.Machine.{Machine, ok}
use jzip.Text.{encode_chars}
use jzip.Text.Decode.{first_state, zchar}
use jzip.Text.Run.{text_codes, written, run}
use jzip.Print.{z_encode, z_print_addr}
use jzip.Print.Encoded.{z_print_addr-z_encode}
use jzip.Examples.Words.{words}

-- "go" at 300.
abbrev typed : Machine
typed = record words { datap = λ a. if a == 300 then 103 else if a == 301 then 111 else 0 }

z_print_addr-z_encode_example :
    (m' : Machine) × (z_encode 290 2 10 420 typed ≡ ok tt m')
    × (z_print_addr 3 420 m' ≡ ok (map (written typed.lookup_table) (103 ∷ 111 ∷ [])) m')
    × ((a : ℕ) → a < 420 → m'.datap a ≡ typed.datap a)
unfolding text_codes jzip.Text.Run.char_codes jzip.Text.find_code jzip.Text.search_row
z_print_addr-z_encode_example =
    z_print_addr-z_encode (103 ∷ 111 ∷ []) 290 10 420 0 typed (omega arith)
      (omega arith, (omega arith, tt)) (omega arith) (omega arith, refl, (omega arith, refl, tt))
      (omega arith) (omega arith)

abbrev early : Machine
early = record words { h_type = 2 }

-- The last character, 43 of table 2, comes back as 68 of table 1: the single shift for 97 kept the lock.
shifted_wrong :
    (run early (encode_chars 2 early.lookup_table (43 ∷ 45 ∷ 97 ∷ 43 ∷ []) 0 []) first_state).1
    ≡ zchar 43 ∷ zchar 45 ∷ zchar 97 ∷ zchar 68 ∷ []
unfolding run encode_chars jzip.Text.add_char jzip.Text.find_code jzip.Text.search_row
    jzip.Text.add_code jzip.Text.shift_early jzip.Text.next_table jzip.Text.Decode.decode_plain
shifted_wrong = refl
