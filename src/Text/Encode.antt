-- ===== src/Text/Encode.antt =====
-- The words of an encoded text are words.
use jzip.Prelude.{
  ℕ, zero, suc, ◌+◌, ◌-◌, ◌*◌, ◌/◌, ◌%◌, ◌<◌, ◌≤◌, ◌≡◌, ◌∙◌, ◌⊎◌, inl, inr, refl, sym, ap, arith,
  bit_or, ◌&&◌, ltb, ◌==◌, Bool-cases, ==→eq, List, [], ◌∷◌, ◌++◌, length, length-append, All,
  get_or, append_assoc, append_nil, replicate,
}
use jzip.Prelude.Bits.{bit_or_fields, bit_or_comm}
use jzip.Machine.{Machine}
use jzip.Text.{
  search_row, find_code, add_code, next_table, shift_early, shift_late, add_char, encode_chars,
  pad_codes, pack, pack_codes, encode_text,
}

-- What holds of every match in a row, and of what was found before, holds of what the search finds.
search_row_all :
    (P : ℕ × ℕ → Type 0) (row : ℕ → ℕ) (i c n j : ℕ) (found : ℕ × ℕ)
    → P found
    → ((k : ℕ) → k < j + n → row k ≡ c → P (i, k))
    → P (search_row row i c n j found)
unfolding search_row
search_row_all P row i c zero j found h each = h
search_row_all P row i c (suc n) j found h each = elim (Bool-cases (row j == c)) [
  | inl match' ↦ rw match' (
      search_row_all P row i c n (j + 1) (i, j) (each j (omega arith) (==→eq _ _ match'))
        (λ k small e. each k (omega arith) e))
  | inr other ↦
      rw other (search_row_all P row i c n (j + 1) found h (λ k small e. each k (omega arith) e))
]

-- A code's table and place, and that the character stands there unless it is that of a literal.
abbrev pub IsCode : (ℕ → ℕ → ℕ) → ℕ → ℕ × ℕ → Type 0
IsCode table c found =
    (found.0 ≤ 2) × (found.1 < 26) × (((found.0 ≡ 2) × (found.1 ≡ 0)) ⊎ (table found.0 found.1 ≡ c))

pub find_code-IsCode : (table : ℕ → ℕ → ℕ) (c : ℕ) → IsCode table c (find_code table c)
unfolding find_code
find_code-IsCode table c =
    search_row_all (IsCode table c) (table 2) 2 c 26 0 _
      (search_row_all (IsCode table c) (table 1) 1 c 26 0 _
        (search_row_all (IsCode table c) (table 0) 0 c 26 0 _
          (omega arith, omega arith, inl (refl, refl))
          (λ k small e. (omega arith, omega arith, inr e)))
        (λ k small e. (omega arith, omega arith, inr e)))
      (λ k small e. (omega arith, omega arith, inr e))

pub pack-sum : (a b c : ℕ) → b < 32 → c < 32 → pack a b c ≡ a * 1024 + b * 32 + c
unfolding pack
pack-sum a b c small small' =
    ap (λ (w : ℕ). bit_or w c) (bit_or_fields 10 a (b * 32) (omega arith))
    ∙ (ap (λ (w : ℕ). bit_or w c) (omega arith)
        ∙ (bit_or_fields 5 (a * 32 + b) c (omega arith) ∙ omega arith))

pub high_bit : (w : ℕ) → w < 0x8000 → bit_or w 0x8000 ≡ 0x8000 + w
high_bit w small = bit_or_comm w 0x8000 ∙ bit_or_fields 15 1 w (omega arith)

-- The codes are below 32.
abbrev pub Small : List ℕ → Type 0
Small codes = All (λ c. c < 32) codes

Small-append : (xs : List ℕ) (c : ℕ) → c < 32 → Small xs → Small (xs ++ (c ∷ []))
Small-append [] c small h = (small, tt)
Small-append (x ∷ xs) c small h = (h.0, Small-append xs c small h.1)

add_code-Small : (c : ℕ) (codes : List ℕ) → c < 32 → Small codes → Small (add_code c codes)
unfolding add_code
add_code-Small c codes small h = elim (Bool-cases (ltb (length codes) 9)) [
  | inl room ↦ rw room (Small-append codes c small h)
  | inr full ↦ rw full h
]

shift_early-Small :
    (table prev following : ℕ) (codes : List ℕ)
    → Small codes
    → Small (shift_early table prev following codes).0
unfolding shift_early
shift_early-Small table prev following codes h = elim (Bool-cases (table == prev)) [
  | inl same ↦ rw same h
  | inr other ↦ elim (Bool-cases ((table + prev * 2) % 3 == 0)) [
    | inl none' ↦ rw (other, none') h
    | inr some' ↦ elim (Bool-cases (following == table)) [
      | inl lock ↦ rw (other, some', lock) (add_code-Small _ codes (omega arith) h)
      | inr shift ↦ rw (other, some', shift) (add_code-Small _ codes (omega arith) h)
    ]
  ]
]

shift_late-Small :
    (table : ℕ) (codes : List ℕ) → table ≤ 2 → Small codes → Small (shift_late table codes)
unfolding shift_late
shift_late-Small table codes low h = elim (Bool-cases (table == 0)) [
  | inl first ↦ rw first h
  | inr other ↦ rw other (add_code-Small _ codes (omega arith) h)
]

add_char-Small :
    (c table code : ℕ) (codes : List ℕ)
    → code < 26
    → Small codes
    → Small (add_char c table code codes)
unfolding add_char
add_char-Small c table code codes low h = elim (Bool-cases (table == 2 && code == 0)) [
  | inl literal ↦ rw literal (
      add_code-Small (c % 32) _ (omega arith) (
        add_code-Small (c / 32 % 8) _ (omega arith)
          (add_code-Small (code + 6) codes (omega arith) h)))
  | inr plain ↦ rw plain (add_code-Small (code + 6) codes (omega arith) h)
]

encode_chars-Small :
    (h_type : ℕ) (table : ℕ → ℕ → ℕ) (s : List ℕ) (prev : ℕ) (codes : List ℕ)
    → Small codes
    → Small (encode_chars h_type table s prev codes)
unfolding encode_chars
encode_chars-Small h_type table [] prev codes h = h
encode_chars-Small h_type table (c ∷ s) prev codes h =
    let found = find_code table c in
    let is = find_code-IsCode table c in
    elim (Bool-cases (ltb h_type 3)) [
      | inl early ↦ rw early (
          encode_chars-Small h_type table s _ _ (
            add_char-Small c found.0 found.1 _ is.1
              (shift_early-Small found.0 prev (next_table table s) codes h)))
      | inr late ↦ rw late (
          encode_chars-Small h_type table s _ _
            (add_char-Small c found.0 found.1 _ is.1 (shift_late-Small found.0 codes is.0 h)))
    ]

-- The codes are filled up with code 5.
pub pad_codes-replicate :
    (n : ℕ) (codes : List ℕ)
    → 9 ≤ n + length codes
    → pad_codes n codes ≡ codes ++ replicate (9 - length codes) 5
unfolding pad_codes add_code
pad_codes-replicate zero codes h =
    let none' : 9 - length codes ≡ 0 = omega arith in rw none' (sym (append_nil codes))
pad_codes-replicate (suc n) codes h = elim (Bool-cases (ltb (length codes) 9)) [
  | inl room ↦
      let longer = length-append codes (5 ∷ []) in
      let next : 9 - length codes ≡ suc (9 - length (codes ++ (5 ∷ []))) = ground (arith, longer) in
      rw (room, next)
        (pad_codes-replicate n (codes ++ (5 ∷ [])) (omega (arith, longer))
          ∙ append_assoc codes (5 ∷ []) (replicate (9 - length (codes ++ (5 ∷ []))) 5))
  | inr full ↦
      let none' : 9 - length codes ≡ 0 = ground arith in rw (full, none') (sym (append_nil codes))
]

pub pad_codes-Small : (n : ℕ) (codes : List ℕ) → Small codes → Small (pad_codes n codes)
unfolding pad_codes
pad_codes-Small zero codes h = h
pad_codes-Small (suc n) codes h = elim (Bool-cases (ltb (length codes) 9)) [
  | inl room ↦
      rw room (pad_codes-Small n (add_code 5 codes) (add_code-Small 5 codes (omega arith) h))
  | inr full ↦ rw full h
]

-- Three words.
abbrev pub AreWords : List ℕ → Type 0
AreWords word =
    (get_or word 0 0 < 0x10000) × (get_or word 1 0 < 0x10000) × (get_or word 2 0 < 0x10000)

pack-Small :
    (a b c : ℕ)
    → a < 32
    → b < 32
    → c < 32
    → (pack a b c < 0x8000) × (bit_or (pack a b c) 0x8000 < 0x10000)
pack-Small a b c h h' h'' =
    let low : pack a b c < 0x8000 = omega (arith, pack-sum a b c h' h'') in
    (low, omega (arith, high_bit (pack a b c) low))

pack_codes-AreWords :
    (h_type : ℕ) (codes : List ℕ) → Small codes → AreWords (pack_codes h_type codes)
unfolding pack_codes
pack_codes-AreWords h_type (a ∷ b ∷ c ∷ d ∷ e ∷ f ∷ g ∷ h ∷ i ∷ rest)
      (sa, (sb, (sc, (sd, (se, (sf, (sg, (sh, (si, s))))))))) =
    let first = pack-Small a b c sa sb sc in
    let second = pack-Small d e f sd se sf in
    let third = pack-Small g h i sg sh si in
    elim (Bool-cases (ltb h_type 4)) [
      | inl early ↦ rw early (omega arith, omega arith, omega arith)
      | inr late ↦ rw late (omega arith, omega arith, omega arith)
    ]
pack_codes-AreWords h_type [] s = (omega arith, omega arith, omega arith)
pack_codes-AreWords h_type (_ ∷ []) s = (omega arith, omega arith, omega arith)
pack_codes-AreWords h_type (_ ∷ _ ∷ []) s = (omega arith, omega arith, omega arith)
pack_codes-AreWords h_type (_ ∷ _ ∷ _ ∷ []) s = (omega arith, omega arith, omega arith)
pack_codes-AreWords h_type (_ ∷ _ ∷ _ ∷ _ ∷ []) s = (omega arith, omega arith, omega arith)
pack_codes-AreWords h_type (_ ∷ _ ∷ _ ∷ _ ∷ _ ∷ []) s = (omega arith, omega arith, omega arith)
pack_codes-AreWords h_type (_ ∷ _ ∷ _ ∷ _ ∷ _ ∷ _ ∷ []) s = (omega arith, omega arith, omega arith)
pack_codes-AreWords h_type (_ ∷ _ ∷ _ ∷ _ ∷ _ ∷ _ ∷ _ ∷ []) s =
    (omega arith, omega arith, omega arith)
pack_codes-AreWords h_type (_ ∷ _ ∷ _ ∷ _ ∷ _ ∷ _ ∷ _ ∷ _ ∷ []) s =
    (omega arith, omega arith, omega arith)

pub encode_text-Small :
    (s : List ℕ) (m : Machine) → Small (pad_codes 9 (encode_chars m.h_type m.lookup_table s 0 []))
encode_text-Small s m = pad_codes-Small 9 _ (encode_chars-Small m.h_type m.lookup_table s 0 [] tt)

pub encode_text-AreWords : (s : List ℕ) (m : Machine) → AreWords (encode_text s m)
unfolding encode_text
encode_text-AreWords s m = pack_codes-AreWords m.h_type _ (encode_text-Small s m)
