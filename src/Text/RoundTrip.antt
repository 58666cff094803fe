-- ===== src/Text/RoundTrip.antt =====
-- The decoding of an encoded text, from version 3 on.
use jzip.Prelude.{
  ℕ, suc, ◌+◌, ◌-◌, ◌<◌, ◌≤◌, ◌≡◌, ◌∙◌, inl, inr, refl, sym, ap, arith, bit_and, bit_or, true,
  false, ltb, ◌==◌, if◌then◌else◌, Bool-cases, eq→==, ne→not_==, List, [], ◌∷◌, ◌++◌, length,
  length-append, length-replicate, All, append_assoc, replicate, replicate_add, map,
}
use jzip.Prelude.Bits.{bit_and_bit}
use jzip.Machine.{Machine, M, ok, pure, and_then, ◌>>=◌, read_data_word}
use jzip.Text.{pack, pack_codes, encode_text}
use jzip.Text.Encode.{pack-sum, high_bit, Small, encode_text-Small}
use jzip.Text.Decode.{Out, Decoder, first_state, decode_codes, codes_of, decode_words, decode_text}
use jzip.Text.Run.{
  run, IsPlain, IsPlain-split, run-append, decode_codes-run, text_codes, written, padded-run,
}
use jzip.Text.Room.{encode_text-pad}

-- A word of three codes gives the codes back, whether it is the last or not.
codes_of-pack :
    (a b c : ℕ)
    → a < 32
    → b < 32
    → c < 32
    → (codes_of (pack a b c) ≡ a ∷ b ∷ c ∷ [])
      × (codes_of (bit_or (pack a b c) 0x8000) ≡ a ∷ b ∷ c ∷ [])
      × (bit_and (pack a b c) 0x8000 ≡ 0)
      × ((bit_and (bit_or (pack a b c) 0x8000) 0x8000 == 0) ≡ false)
unfolding codes_of
codes_of-pack a b c h h' h'' =
    let sum = pack-sum a b c h' h'' in
    let low : pack a b c < 0x8000 = omega arith in
    let high = high_bit (pack a b c) low in
    (
      three (omega (arith, sum)) (omega (arith, sum)) (omega (arith, sum)),
      three (omega (arith, sum, high)) (omega (arith, sum, high)) (omega (arith, sum, high)),
      omega (arith, low, bit_and_bit 15 (pack a b c)),
      ne→not_== _ _ (λ e. omega (arith, low, high, bit_and_bit 15 (bit_or (pack a b c) 0x8000), e)),
    )
  where
    three : {x y z : ℕ} → x ≡ a → y ≡ b → z ≡ c → x ∷ y ∷ z ∷ [] ≡ a ∷ b ∷ c ∷ []
    three e e' e'' = rw (e, e', e'') refl

-- What the loop does behind a word.
abbrev text_at : ℕ → ℕ → M (List Out)
text_at fuel addr = decode_words fuel addr first_state >>= (λ text. pure text.0)

abbrev finish : ℕ → ℕ → ℕ → Decoder × List Out → M (List Out × ℕ)
finish fuel address w r = elim (bit_and w 0x8000 == 0) [
  | true ↦ decode_words fuel (address + 2) r.0 >>= (λ rest. pure (r.1 ++ rest.0, rest.1))
  | false ↦ pure (r.1, address + 2)
]

decode_words-run :
    (fuel address w : ℕ) (codes : List ℕ) (d : Decoder) (m : Machine)
    → read_data_word address m ≡ ok w m
    → codes_of w ≡ codes
    → IsPlain m codes d
    → decode_words (suc fuel) address d m ≡ finish fuel address w (run m codes d) m
unfolding decode_words
decode_words-run fuel address w codes d m reads e plain =
    ap (λ r. and_then r (λ w. decode_codes (text_at fuel) (codes_of w) d >>= finish fuel address w))
      reads
    ∙ (ap (λ cs. and_then (decode_codes (text_at fuel) cs d m) (finish fuel address w)) e
        ∙ ap (λ r. and_then r (finish fuel address w))
            (decode_codes-run (text_at fuel) m codes d plain))

-- The last word of a string, and a word before it.
decode_words-last :
    (fuel address w : ℕ) (codes : List ℕ) (d : Decoder) (m : Machine)
    → read_data_word address m ≡ ok w m
    → codes_of w ≡ codes
    → (bit_and w 0x8000 == 0) ≡ false
    → IsPlain m codes d
    → decode_words (suc fuel) address d m ≡ ok ((run m codes d).1, address + 2) m
decode_words-last fuel address w codes d m reads e last plain =
    decode_words-run fuel address w codes d m reads e plain ∙ rw (finish, last) refl

decode_words-next :
    (fuel address w next : ℕ) (codes : List ℕ) (d : Decoder) (out : List Out) (m : Machine)
    → read_data_word address m ≡ ok w m
    → codes_of w ≡ codes
    → bit_and w 0x8000 ≡ 0
    → IsPlain m codes d
    → decode_words fuel (address + 2) (run m codes d).0 m ≡ ok (out, next) m
    → decode_words (suc fuel) address d m ≡ ok ((run m codes d).1 ++ out, next) m
decode_words-next fuel address w next codes d out m reads e more plain rest =
    decode_words-run fuel address w codes d m reads e plain
    ∙ rw (finish, eq→== _ _ more)
        (ap (λ r. and_then r (λ rest. pure ((run m codes d).1 ++ rest.0, rest.1))) rest)

-- Words stand in the memory from an address on.
abbrev pub Holds : List ℕ → ℕ → Machine → Type 0
Holds [] address m = Unit
Holds (w ∷ words) address m = (read_data_word address m ≡ ok w m) × Holds words (address + 2) m

-- A string's first three codes, and what is decoded behind them.
first_word :
    (fuel address a b c next : ℕ) (codes : List ℕ) (d : Decoder) (m : Machine)
    → Small (a ∷ b ∷ c ∷ [])
    → read_data_word address m ≡ ok (pack a b c) m
    → IsPlain m (a ∷ b ∷ c ∷ codes) d
    → decode_words fuel (address + 2) (run m (a ∷ b ∷ c ∷ []) d).0 m
      ≡ ok ((run m codes (run m (a ∷ b ∷ c ∷ []) d).0).1, next) m
    → decode_words (suc fuel) address d m ≡ ok ((run m (a ∷ b ∷ c ∷ codes) d).1, next) m
first_word fuel address a b c next codes d m (sa, (sb, (sc, s))) reads plain rest =
    let split = IsPlain-split m (a ∷ b ∷ c ∷ []) codes d plain in
    let packed = codes_of-pack a b c sa sb sc in
    decode_words-next fuel address (pack a b c) next (a ∷ b ∷ c ∷ []) d _ m reads packed.0 packed.2
      split.0 rest
    ∙ ap (λ out. ok (out, next) m) (sym (ap (λ r. r.1) (run-append m (a ∷ b ∷ c ∷ []) codes d)))

last_word :
    (fuel address a b c next : ℕ) (d : Decoder) (m : Machine)
    → address + 2 ≡ next
    → Small (a ∷ b ∷ c ∷ [])
    → read_data_word address m ≡ ok (bit_or (pack a b c) 0x8000) m
    → IsPlain m (a ∷ b ∷ c ∷ []) d
    → decode_words (suc fuel) address d m ≡ ok ((run m (a ∷ b ∷ c ∷ []) d).1, next) m
last_word fuel address a b c next d m e (sa, (sb, (sc, s))) reads plain =
    let packed = codes_of-pack a b c sa sb sc in
    decode_words-last fuel address _ (a ∷ b ∷ c ∷ []) d m reads packed.1 packed.3 plain
    ∙ ap (λ n. ok ((run m (a ∷ b ∷ c ∷ []) d).1, n) m) e

-- The words of an entry: two of the three in the buffer before version 4.
abbrev pub entry_words : ℕ → List ℕ → List ℕ
entry_words h_type [] = []
entry_words h_type (a ∷ []) = a ∷ []
entry_words h_type (a ∷ b ∷ rest) = if ltb h_type 4 then a ∷ b ∷ [] else a ∷ b ∷ rest

-- Strings of two words, in version 3, and of three.
six_codes :
    (fuel address : ℕ) (codes : List ℕ) (m : Machine)
    → length codes ≡ 6
    → Small codes
    → ltb m.h_type 4 ≡ true
    → Holds (entry_words m.h_type (pack_codes m.h_type (codes ++ replicate 3 5))) address m
    → IsPlain m codes first_state
    → decode_words (suc (suc (suc fuel))) address first_state m
      ≡ ok ((run m codes first_state).1, address + 4) m
unfolding pack_codes
six_codes fuel address (a ∷ b ∷ c ∷ d ∷ e ∷ f ∷ []) m len (sa, (sb, (sc, small))) early holds
      plain =
    let held : Holds (pack a b c ∷ bit_or (pack d e f) 0x8000 ∷ []) address m =
      rw (entry_words, early, early) at holds in
    let split = IsPlain-split m (a ∷ b ∷ c ∷ []) (d ∷ e ∷ f ∷ []) first_state plain in
    first_word (suc (suc fuel)) address a b c (address + 4) (d ∷ e ∷ f ∷ []) first_state m
      (sa, (sb, (sc, tt))) held.0 plain
      (last_word (suc fuel) (address + 2) d e f (address + 4) _ m (omega arith) small held.1.0
        split.1)
six_codes fuel address _ m len small early holds plain = absurd (omega arith)

nine_codes :
    (fuel address : ℕ) (codes : List ℕ) (m : Machine)
    → length codes ≡ 9
    → Small codes
    → ltb m.h_type 4 ≡ false
    → Holds (entry_words m.h_type (pack_codes m.h_type codes)) address m
    → IsPlain m codes first_state
    → decode_words (suc (suc (suc fuel))) address first_state m
      ≡ ok ((run m codes first_state).1, address + 6) m
unfolding pack_codes
nine_codes fuel address (a ∷ b ∷ c ∷ d ∷ e ∷ f ∷ g ∷ h ∷ i ∷ []) m len
      (sa, (sb, (sc, (sd, (se, (sf, small)))))) late holds plain =
    let held : Holds (pack a b c ∷ pack d e f ∷ bit_or (pack g h i) 0x8000 ∷ []) address m =
      rw (entry_words, late, late) at holds in
    let split = IsPlain-split m (a ∷ b ∷ c ∷ []) (d ∷ e ∷ f ∷ g ∷ h ∷ i ∷ []) first_state plain in
    let split' = IsPlain-split m (d ∷ e ∷ f ∷ []) (g ∷ h ∷ i ∷ []) _ split.1 in
    first_word (suc (suc fuel)) address a b c (address + 6) (d ∷ e ∷ f ∷ g ∷ h ∷ i ∷ []) first_state
      m (sa, (sb, (sc, tt))) held.0 plain
      (first_word (suc fuel) (address + 2) d e f (address + 6) (g ∷ h ∷ i ∷ []) _ m
        (sd, (se, (sf, tt))) held.1.0 split.1
        (last_word fuel (address + 2 + 2) g h i (address + 6) _ m (omega arith) small held.1.1.0
          split'.1))
nine_codes fuel address _ m len small late holds plain = absurd (omega arith)

Small-prefix : (xs ys : List ℕ) → Small (xs ++ ys) → Small xs
Small-prefix [] ys h = tt
Small-prefix (x ∷ xs) ys h = (h.0, Small-prefix xs ys h.1)

-- How many codes an encoded text has, and its bytes.
abbrev pub capacity : ℕ → ℕ
capacity h_type = if ltb h_type 4 then 6 else 9

abbrev pub encoded_bytes : ℕ → ℕ
encoded_bytes h_type = if ltb h_type 4 then 4 else 6

-- From version 3 on, a text of characters below 256 whose codes fit into a dictionary word, six before
-- version 4 and nine after, is encoded so that `decode_text` at the words ends, writes the text's
-- characters in order, and stops behind the words; the character at the second place of table 2
-- becomes a new line.
pub decode_text-encode_text :
    (s : List ℕ) (address fuel : ℕ) (m : Machine)
    → 3 ≤ m.h_type
    → All (λ c. c < 256) s
    → length (text_codes m.lookup_table s) ≤ capacity m.h_type
    → Holds (entry_words m.h_type (encode_text s m)) address m
    → decode_text (suc (suc (suc fuel))) address m
      ≡ ok (map (written m.lookup_table) s, address + encoded_bytes m.h_type) m
unfolding decode_text encode_text
decode_text-encode_text s address fuel m late small room holds =
    let codes = text_codes m.lookup_table s in
    let pad = encode_text-pad s m late (ground arith) in
    let all_small : Small (codes ++ replicate (9 - length codes) 5) =
      rw⁻¹ pad (encode_text-Small s m) in
    elim (Bool-cases (ltb m.h_type 4)) [
      | inl early ↦
          let fits : length codes ≤ 6 = (rw early at room) in
          let nine : 9 - length codes ≡ (6 - length codes) + 3 = omega arith in
          let six = codes ++ replicate (6 - length codes) 5 in
          let parts : codes ++ replicate (9 - length codes) 5 ≡ six ++ replicate 3 5 =
            rw (nine, replicate_add {A = ℕ} (6 - length codes) 3 5)
              (sym (append_assoc codes (replicate (6 - length codes) 5) (replicate 3 5))) in
          let runs = padded-run m s (6 - length codes) late small in
          rw early (
            six_codes fuel address six m
              (omega (
                arith,
                length-append codes (replicate (6 - length codes) 5),
                length-replicate {A = ℕ} (6 - length codes) 5,
              ))
              (Small-prefix six (replicate 3 5) (rw⁻¹ parts all_small)) early
              (rw⁻¹ (pad ∙ parts) holds) runs.0
            ∙ ap (λ out. ok (out, address + 4) m) runs.1)
      | inr later ↦
          let fits : length codes ≤ 9 = (rw later at room) in
          let runs = padded-run m s (9 - length codes) late small in
          rw later (
            nine_codes fuel address (codes ++ replicate (9 - length codes) 5) m
              (omega (
                arith,
                length-append codes (replicate (9 - length codes) 5),
                length-replicate {A = ℕ} (9 - length codes) 5,
              ))
              all_small later (rw⁻¹ pad holds) runs.0
            ∙ ap (λ out. ok (out, address + 6) m) runs.1)
    ]
