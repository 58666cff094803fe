-- ===== src/Print/Encoded.antt =====
-- Text that `z_encode` stores is printed by `z_print_addr`.
use jzip.Prelude.{
  ℕ, suc, ◌+◌, ◌-◌, ◌*◌, ◌%◌, ◌<◌, ◌≤◌, ◌≡◌, ◌∙◌, refl, ap, arith, ltb, Bool-cases, ne→not_==,
  lt→ltb, inl, inr, List, [], ◌∷◌, length, length-append, length-replicate, map, All, get_or,
  replicate,
}
use jzip.Machine.{
  Machine, ok, pure, and_then, ◌>>=◌, update_word, get_byte, set_word-ok, read_data_word,
}
use jzip.Text.{encode_text, pack_codes, pad_codes, encode_chars}
use jzip.Text.Encode.{encode_text-AreWords}
use jzip.Text.Run.{text_codes, written}
use jzip.Text.Room.{encode_text-pad}
use jzip.Text.RoundTrip.{Holds, entry_words, capacity, decode_text-encode_text}
use jzip.Table.Arrays.{read_data_word-ok, word_written}
use jzip.Tokenise.{read_chars}
use jzip.Print.{z_print_addr, store_words, z_encode}

abbrev with_data : (ℕ → ℕ) → Machine → Machine
with_data datap m = record m { datap = datap }

-- What storing words comes to.
record Stored (words : List ℕ) (dest : ℕ) (m : Machine) : Type 0 where
  datap' : ℕ → ℕ
  result : store_words dest words m ≡ ok tt (with_data datap' m)
  holds : Holds words dest (with_data datap' m)
  below : (a : ℕ) → a < dest → datap' a ≡ m.datap a

read_data_word_of :
    (d d' : ℕ → ℕ) (a w : ℕ) (m : Machine)
    → a + 1 < m.data_size
    → (d a * 256 + d (a + 1)) % 0x10000 ≡ w
    → d' a ≡ d a
    → d' (a + 1) ≡ d (a + 1)
    → read_data_word a (with_data d' m) ≡ ok w (with_data d' m)
read_data_word_of d d' a w m inside e same same' =
    read_data_word-ok a (with_data d' m) inside
    ∙ ap (λ x. ok x (with_data d' m))
        (ap (λ (x : ℕ). (x * 256 + d' (a + 1)) % 0x10000) same
          ∙ (ap (λ (x : ℕ). (d a * 256 + x) % 0x10000) same' ∙ e))

store_words-Stored :
    (words : List ℕ) (dest : ℕ) (m : Machine)
    → All (λ w. w < 0x10000) words
    → dest + 2 * length words ≤ m.data_size
    → dest + 2 * length words < 0x10000
    → Stored words dest m
unfolding store_words
store_words-Stored [] dest m small inside low = record {
  datap' = m.datap;
  result = refl;
  holds = tt;
  below = λ a h. refl;
}
store_words-Stored (w ∷ words) dest m small inside low =
    let d = update_word m.datap dest w in
    let wrap : (dest + 2) % 0x10000 ≡ dest + 2 = omega arith in
    let rest =
      store_words-Stored words (dest + 2) (with_data d m) small.1 (omega arith) (omega arith) in
    record {
      datap' = rest.datap';
      result =
          ap (λ r. and_then r (λ _. store_words ((dest + 2) % 0x10000) words))
            (set_word-ok dest w m (omega arith))
          ∙ (ap (λ a. store_words a words (with_data d m)) wrap ∙ rest.result);
      holds = (
        read_data_word_of d rest.datap' dest w m (omega arith) (word_written m.datap dest w small.0)
            (rest.below dest (omega arith)) (rest.below (dest + 1) (omega arith)),
        rest.holds,
      );
      below = λ a h.
          rest.below a (omega arith)
          ∙ rw (ne→not_== a (dest + 1) (λ e. omega arith), ne→not_== a dest (λ e. omega arith))
              refl;
    }

-- The text's characters stand in the data area.
abbrev pub HoldsBytes : List ℕ → ℕ → Machine → Type 0
HoldsBytes [] address m = Unit
HoldsBytes (c ∷ s) address m =
    (address < m.data_size) × (m.datap address ≡ c) × HoldsBytes s (address + 1) m

read_chars-HoldsBytes :
    (s : List ℕ) (address : ℕ) (m : Machine)
    → HoldsBytes s address m
    → read_chars (length s) address m ≡ ok s m
unfolding read_chars get_byte
read_chars-HoldsBytes [] address m h = refl
read_chars-HoldsBytes (c ∷ s) address m h =
    rw (lt→ltb address m.data_size h.0, read_chars-HoldsBytes s (address + 1) m h.2, h.1) refl

-- The three words of a text.
three_words :
    (h_type : ℕ) (codes : List ℕ)
    → length codes ≡ 9
    → let w = pack_codes h_type codes in w ≡ get_or w 0 0 ∷ get_or w 1 0 ∷ get_or w 2 0 ∷ []
unfolding pack_codes
three_words h_type (a ∷ b ∷ c ∷ d ∷ e ∷ f ∷ g ∷ h ∷ i ∷ []) len = elim (Bool-cases (ltb h_type 4)) [
  | inl early ↦ rw early refl
  | inr late ↦ rw late refl
]
three_words h_type _ len = absurd (omega arith)

encode_text-three :
    (s : List ℕ) (m : Machine)
    → 3 ≤ m.h_type
    → length (text_codes m.lookup_table s) ≤ 9
    → let w = encode_text s m in w ≡ get_or w 0 0 ∷ get_or w 1 0 ∷ get_or w 2 0 ∷ []
unfolding encode_text
encode_text-three s m late room =
    let codes = text_codes m.lookup_table s in
    three_words m.h_type (pad_codes 9 (encode_chars m.h_type m.lookup_table s 0 [])) (
      ap length (encode_text-pad s m late room)
      ∙ omega (
        arith,
        length-append codes (replicate (9 - length codes) 5),
        length-replicate {A = ℕ} (9 - length codes) 5,
      ))

entry_words-Holds :
    (h_type a b c address : ℕ) (words : List ℕ) (m : Machine)
    → words ≡ a ∷ b ∷ c ∷ []
    → Holds (a ∷ b ∷ c ∷ []) address m
    → Holds (entry_words h_type words) address m
entry_words-Holds h_type a b c address words m e (ha, (hb, hc)) = elim (Bool-cases (ltb h_type 4)) [
  | inl early ↦ rw (e, early) (ha, (hb, tt))
  | inr late ↦ rw (e, late) (ha, (hb, hc))
]

encode_text_data :
    (s : List ℕ) (datap : ℕ → ℕ) (m : Machine) → encode_text s (with_data datap m) ≡ encode_text s m
unfolding encode_text
encode_text_data s datap m = refl

-- From version 3 on, `z_encode` on a text in the data area, of characters below 256 whose codes fit into
-- a dictionary word, stores words in the data area that `z_print_addr` prints as the text, with a new
-- line for a character at the second place of table 2; it changes nothing below them.
pub z_print_addr-z_encode :
    (s : List ℕ) (word_addr word_offset dest_addr fuel : ℕ) (m : Machine)
    → 3 ≤ m.h_type
    → All (λ c. c < 256) s
    → length (text_codes m.lookup_table s) ≤ capacity m.h_type
    → HoldsBytes s (word_addr + word_offset) m
    → dest_addr + 6 ≤ m.data_size
    → dest_addr + 6 < 0x10000
    → (m' : Machine) × (z_encode word_addr (length s) word_offset dest_addr m ≡ ok tt m')
      × (z_print_addr (suc (suc (suc fuel))) dest_addr m' ≡ ok (map (written m.lookup_table) s) m')
      × ((a : ℕ) → a < dest_addr → m'.datap a ≡ m.datap a)
unfolding z_encode z_print_addr
z_print_addr-z_encode s word_addr word_offset dest_addr fuel m late small room text inside low =
    let w = encode_text s m in
    let w0 = get_or w 0 0 in
    let w1 = get_or w 1 0 in
    let w2 = get_or w 2 0 in
    let three = encode_text-three s m late (ground arith) in
    let are = encode_text-AreWords s m in
    let stored =
      store_words-Stored (w0 ∷ w1 ∷ w2 ∷ []) dest_addr m (are.0, (are.1, (are.2, tt))) inside low in
    let m' = with_data stored.datap' m in
    let holds : Holds (entry_words m.h_type (encode_text s m')) dest_addr m' =
      entry_words-Holds m.h_type w0 w1 w2 dest_addr (encode_text s m') m'
        (encode_text_data s stored.datap' m ∙ three) stored.holds in
    (
      m',
      ap (λ r. and_then r (λ s. (λ n. ok n n) >>= (λ n. store_words dest_addr (encode_text s n))))
            (read_chars-HoldsBytes s (word_addr + word_offset) m text)
          ∙ (ap (λ ws. store_words dest_addr ws m) three ∙ stored.result),
      ap (λ r. and_then r (λ r. pure r.0))
          (decode_text-encode_text s dest_addr fuel m' late small room holds),
      stored.below,
    )
