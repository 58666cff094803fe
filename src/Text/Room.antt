-- ===== src/Text/Room.antt =====
-- The codes of a text that fits.
use jzip.Prelude.{
  ℕ, ◌+◌, ◌-◌, ◌<◌, ◌≤◌, ◌≡◌, ◌∙◌, inl, inr, refl, sym, ap, arith, false, ◌&&◌, ltb, ◌==◌,
  Bool-cases, lt→ltb, List, [], ◌∷◌, ◌++◌, length, length-append, append_assoc, append_nil,
  replicate,
}
use jzip.Machine.{Machine}
use jzip.Text.{find_code, add_code, shift_late, add_char, encode_chars, pad_codes}
use jzip.Text.Encode.{pad_codes-replicate}
use jzip.Text.Run.{char_codes, text_codes}

add_code-room : (c : ℕ) (codes : List ℕ) → length codes < 9 → add_code c codes ≡ codes ++ (c ∷ [])
unfolding add_code
add_code-room c codes room = rw (lt→ltb _ _ room) refl

add_codes : List ℕ → List ℕ → List ℕ
add_codes [] codes = codes
add_codes (c ∷ more) codes = add_codes more (add_code c codes)

add_codes-room :
    (more codes : List ℕ) → length codes + length more ≤ 9 → add_codes more codes ≡ codes ++ more
unfolding add_codes
add_codes-room [] codes room = sym (append_nil codes)
add_codes-room (c ∷ more) codes room =
    ap (add_codes more) (add_code-room c codes (omega arith))
    ∙ (add_codes-room more (codes ++ (c ∷ [])) (omega (arith, length-append codes (c ∷ [])))
        ∙ append_assoc codes (c ∷ []) more)

-- Where there is room, a character's codes are added.
char_codes-added :
    (c : ℕ) (found : ℕ × ℕ) (codes : List ℕ)
    → add_char c found.0 found.1 (shift_late found.0 codes) ≡ add_codes (char_codes c found) codes
unfolding char_codes add_char shift_late add_codes
char_codes-added c (table, k) codes = elim (Bool-cases (table == 0)) [
  | inl first ↦ elim (Bool-cases (table == 2 && k == 0)) [
    | inl literal ↦ rw (first, literal) refl
    | inr plain ↦ rw (first, plain) refl
  ]
  | inr other ↦ elim (Bool-cases (table == 2 && k == 0)) [
    | inl literal ↦ rw (other, literal) refl
    | inr plain ↦ rw (other, plain) refl
  ]
]

encode_chars-text_codes :
    (h_type : ℕ) (table : ℕ → ℕ → ℕ) (s codes : List ℕ)
    → 3 ≤ h_type
    → length codes + length (text_codes table s) ≤ 9
    → encode_chars h_type table s 0 codes ≡ codes ++ text_codes table s
unfolding encode_chars text_codes
encode_chars-text_codes h_type table [] codes late room = sym (append_nil codes)
encode_chars-text_codes h_type table (c ∷ s) codes late room =
    let found = find_code table c in
    let old : ltb h_type 3 ≡ false = ground arith in
    let len = length-append (char_codes c found) (text_codes table s) in
    let len' = length-append codes (char_codes c found) in
    let added =
      char_codes-added c found codes
      ∙ add_codes-room (char_codes c found) codes (omega (arith, len)) in
    rw (old, added)
      (encode_chars-text_codes h_type table s (codes ++ char_codes c found) late
          (omega (arith, len, len'))
        ∙ append_assoc codes (char_codes c found) (text_codes table s))

-- The nine codes of a text with room.
pub encode_text-pad :
    (s : List ℕ) (m : Machine)
    → 3 ≤ m.h_type
    → length (text_codes m.lookup_table s) ≤ 9
    → pad_codes 9 (encode_chars m.h_type m.lookup_table s 0 [])
      ≡ text_codes m.lookup_table s ++ replicate (9 - length (text_codes m.lookup_table s)) 5
encode_text-pad s m late room =
    ap (pad_codes 9) (encode_chars-text_codes m.h_type m.lookup_table s [] late (omega arith))
    ∙ pad_codes-replicate 9 (text_codes m.lookup_table s) (omega arith)
