-- ===== src/Text/Run.antt =====
-- Runs of the decoder on the codes of a text, from version 3 on.
use jzip.Prelude.{
  ℕ, zero, suc, ◌+◌, ◌-◌, ◌*◌, ◌/◌, ◌%◌, ◌<◌, ◌≤◌, ◌≡◌, ◌∙◌, ◌⊎◌, inl, inr, refl, ap, arith, bit_or,
  Bool, false, ◌&&◌, ltb, ◌==◌, if◌then◌else◌, Bool-cases, lt→ltb, List, [], ◌∷◌, ◌++◌, All,
  append_assoc, append_nil, replicate, map,
}
use jzip.Prelude.Bits.{bit_or_fields}
use jzip.Machine.{Machine, M, ok, pure, and_then, ◌>>=◌}
use jzip.Text.{find_code}
use jzip.Text.Encode.{IsCode, find_code-IsCode}
use jzip.Text.Decode.{
  Out, zchar, new_line, Decoder, first_state, decode_zscii, decode_char, shift_after, decode_plain,
  decode_code, decode_codes,
}

-- Codes decoded one after the other where no synonym is due.
unfoldable pub run : Machine → List ℕ → Decoder → Decoder × List Out
run m [] d = (d, [])
run m (c ∷ codes) d =
    let first = decode_plain m c d in let rest = run m codes first.0 in (rest.0, first.1 ++ rest.1)

-- No synonym is due at any of the codes.
abbrev pub IsPlain : Machine → List ℕ → Decoder → Type 0
IsPlain m [] d = Unit
IsPlain m (c ∷ codes) d = (d.synonym_flag ≡ false) × IsPlain m codes (decode_plain m c d).0

decode_code-plain :
    (text_at : ℕ → M (List Out)) (m : Machine) (c : ℕ) (d : Decoder)
    → d.synonym_flag ≡ false
    → decode_code text_at c d m ≡ ok (decode_plain m c d) m
unfolding decode_code
decode_code-plain text_at m c d none' = go d.synonym_flag none' _ _
  where
    go :
        (flag : Bool)
        → flag ≡ false
        → (f g : M (Decoder × List Out)) → (if flag then f else g) m ≡ g m
    go flag e f g = rw e refl

pub decode_codes-run :
    (text_at : ℕ → M (List Out)) (m : Machine) (codes : List ℕ) (d : Decoder)
    → IsPlain m codes d
    → decode_codes text_at codes d m ≡ ok (run m codes d) m
unfolding decode_codes run
decode_codes-run text_at m [] d plain = refl
decode_codes-run text_at m (c ∷ codes) d plain =
    ap
      (λ r. and_then r (λ first.
        decode_codes text_at codes first.0 >>= (λ rest. pure (rest.0, first.1 ++ rest.1))))
      (decode_code-plain text_at m c d plain.0)
    ∙ ap (λ r. and_then r (λ rest. pure (rest.0, (decode_plain m c d).1 ++ rest.1)))
        (decode_codes-run text_at m codes (decode_plain m c d).0 plain.1)

pub run-append :
    (m : Machine) (xs ys : List ℕ) (d : Decoder)
    → run m (xs ++ ys) d
      ≡ ((run m ys (run m xs d).0).0, (run m xs d).1 ++ (run m ys (run m xs d).0).1)
unfolding run
run-append m [] ys d = refl
run-append m (x ∷ xs) ys d =
    let first = decode_plain m x d in
    rw
      (
        run-append m xs ys first.0,
        append_assoc first.1 (run m xs first.0).1 (run m ys (run m xs first.0).0).1,
      )
      refl

IsPlain-append :
    (m : Machine) (xs ys : List ℕ) (d : Decoder)
    → IsPlain m xs d
    → IsPlain m ys (run m xs d).0
    → IsPlain m (xs ++ ys) d
unfolding run
IsPlain-append m [] ys d plain plain' = plain'
IsPlain-append m (x ∷ xs) ys d plain plain' =
    (plain.0, IsPlain-append m xs ys (decode_plain m x d).0 plain.1 plain')

pub IsPlain-split :
    (m : Machine) (xs ys : List ℕ) (d : Decoder)
    → IsPlain m (xs ++ ys) d
    → IsPlain m xs d × IsPlain m ys (run m xs d).0
unfolding run
IsPlain-split m [] ys d plain = (tt, plain)
IsPlain-split m (x ∷ xs) ys d plain =
    let rest = IsPlain-split m xs ys (decode_plain m x d).0 plain.1 in ((plain.0, rest.0), rest.1)

-- The codes of a character that stands at a place of a table.
unfoldable pub char_codes : ℕ → ℕ × ℕ → List ℕ
char_codes c found =
    (if found.0 == 0 then [] else (found.0 + 3) ∷ [])
    ++ ((found.1 + 6) ∷ (if found.0 == 2 && found.1 == 0 then (c / 32 % 8) ∷ (c % 32) ∷ [] else []))

unfoldable pub text_codes : (ℕ → ℕ → ℕ) → List ℕ → List ℕ
text_codes table [] = []
text_codes table (c ∷ s) = char_codes c (find_code table c) ++ text_codes table s

-- What the decoder writes for a character: itself, or a new line for the second place of table 2.
unfoldable pub written : (ℕ → ℕ → ℕ) → ℕ → Out
written table c =
    if (find_code table c).0 == 2 && (find_code table c).1 == 1 then new_line else zchar c

-- Before the code of a character of a table; between characters it is table 0.
abbrev at : ℕ → ℕ → Decoder
at table zscii = record first_state { shift_state = table; zscii = zscii }

-- The decoder writes something on the codes and is then between characters.
record Runs (m : Machine) (codes : List ℕ) (d : Decoder) (out : List Out) : Type 0 where
  plain : IsPlain m codes d
  after : ℕ
  result : run m codes d ≡ (at 0 after, out)

Runs-nil : (m : Machine) (zscii : ℕ) → Runs m [] (at 0 zscii) []
unfolding run
Runs-nil m zscii = record { plain = tt; after = zscii; result = refl }

Runs-cons :
    (m : Machine) (c : ℕ) (codes : List ℕ) (d d' : Decoder) (o out : List Out)
    → d.synonym_flag ≡ false
    → decode_plain m c d ≡ (d', o)
    → Runs m codes d' out
    → Runs m (c ∷ codes) d (o ++ out)
unfolding run
Runs-cons m c codes d d' o out none' e r = record {
  plain = (none', rw e r.plain);
  after = r.after;
  result = rw (e, r.result) refl;
}

Runs-append :
    (m : Machine) (xs ys : List ℕ) (d : Decoder) (out out' : List Out)
    → Runs m xs d out
    → ((zscii : ℕ) → Runs m ys (at 0 zscii) out')
    → Runs m (xs ++ ys) d (out ++ out')
Runs-append m xs ys d out out' r next =
    let r' = next r.after in
    record {
      plain = IsPlain-append m xs ys d r.plain (rw r.result r'.plain);
      after = r'.after;
      result = run-append m xs ys d ∙ rw (r.result, r'.result) refl;
    }

decode_plain-char :
    (m : Machine) (table k zscii : ℕ)
    → decode_plain m (k + 6) (at table zscii) ≡ decode_char m k (at table zscii)
unfolding decode_plain
decode_plain-char m table k zscii =
    let same : k + 6 - 6 ≡ k = omega arith in rw (lt→ltb 5 (k + 6) (omega arith), same) refl

decode_plain-shift :
    (m : Machine) (table zscii : ℕ)
    → 3 ≤ m.h_type
    → 1 ≤ table
    → table ≤ 2
    → decode_plain m (table + 3) (at 0 zscii) ≡ (at table zscii, [])
unfolding decode_plain shift_after
decode_plain-shift m zero zscii late low high = absurd (omega arith)
decode_plain-shift m (suc zero) zscii late low high =
    let old : ltb m.h_type 3 ≡ false = ground arith in rw old refl
decode_plain-shift m (suc (suc zero)) zscii late low high =
    let old : ltb m.h_type 3 ≡ false = ground arith in rw old refl
decode_plain-shift m (suc (suc (suc t))) zscii late low high = absurd (omega arith)

decode_char-table :
    (m : Machine) (table k zscii : ℕ)
    → ((table ≡ 2) × (k ≤ 1) → ⊥)
    → decode_char m k (at table zscii) ≡ (at 0 zscii, zchar (m.lookup_table table k) ∷ [])
unfolding decode_char
decode_char-table m table k zscii plain = elim (Bool-cases (table == 2)) [
  | inr other ↦ rw other refl
  | inl two ↦
      let first : (k == 0) ≡ false = ground arith in
      let second : (k == 1) ≡ false = ground arith in rw (two, first, second) refl
]

-- A character that is neither a literal nor a new line.
plain_char-Runs :
    (m : Machine) (c table k zscii : ℕ)
    → ((table ≡ 2) × (k ≤ 1) → ⊥)
    → m.lookup_table table k ≡ c
    → Runs m ((k + 6) ∷ []) (at table zscii) (zchar c ∷ [])
plain_char-Runs m c table k zscii plain e =
    Runs-cons m (k + 6) [] (at table zscii) (at 0 zscii) (zchar c ∷ []) [] refl
      (decode_plain-char m table k zscii
        ∙ (decode_char-table m table k zscii plain ∙ ap (λ x. (at 0 zscii, zchar x ∷ [])) e))
      (Runs-nil m zscii)

line_break :
    (m : Machine) (zscii : ℕ)
    → 3 ≤ m.h_type
    → decode_char m 1 (at 2 zscii) ≡ (at 0 zscii, new_line ∷ [])
unfolding decode_char
line_break m zscii late = rw (lt→ltb 1 m.h_type (omega arith)) refl

-- A literal character, with the two codes of its number.
literal-Runs :
    (m : Machine) (c zscii : ℕ)
    → c < 256
    → Runs m (6 ∷ (c / 32 % 8) ∷ (c % 32) ∷ []) (at 2 zscii) (zchar c ∷ [])
unfolding decode_plain decode_char decode_zscii
literal-Runs m c zscii small =
    let upper : ℕ = c / 32 % 8 in
    let begun : Decoder = record (at 0 zscii) { zscii_flag = 1 } in
    let half : Decoder = record (at 0 (upper * 32)) { zscii_flag = 2 } in
    let whole : bit_or (upper * 32) (c % 32) % 256 ≡ c =
      omega (arith, bit_or_fields 5 upper (c % 32) (omega arith)) in
    Runs-cons m 6 _ (at 2 zscii) begun [] (zchar c ∷ []) refl refl (
      Runs-cons m upper _ begun half [] (zchar c ∷ []) refl refl (
        Runs-cons m (c % 32) [] half (at 0 (upper * 32)) (zchar c ∷ []) [] refl
          (ap (λ x. (at 0 (upper * 32), zchar x ∷ [])) whole) (Runs-nil m (upper * 32))))

stands :
    (m : Machine) (c table k : ℕ)
    → ((table ≡ 2) × (k ≡ 0) → ⊥)
    → ((table ≡ 2) × (k ≡ 0)) ⊎ (m.lookup_table table k ≡ c)
    → m.lookup_table table k ≡ c
stands m c table k plain (inl first) = absurd (plain first)
stands m c table k plain (inr e) = e

-- The codes of a character from its table on.
code-Runs :
    (m : Machine) (c zscii : ℕ) (found : ℕ × ℕ)
    → 3 ≤ m.h_type
    → c < 256
    → IsCode m.lookup_table c found
    → Runs m
        ((found.1 + 6)
          ∷ (if found.0 == 2 && found.1 == 0 then (c / 32 % 8) ∷ (c % 32) ∷ [] else []))
        (at found.0 zscii)
        ((if found.0 == 2 && found.1 == 1 then new_line else zchar c) ∷ [])
code-Runs m c zscii (suc (suc zero), zero) late small is = literal-Runs m c zscii small
code-Runs m c zscii (suc (suc zero), suc zero) late small is =
    Runs-cons m 7 [] (at 2 zscii) (at 0 zscii) (new_line ∷ []) [] refl
      (decode_plain-char m 2 1 zscii ∙ line_break m zscii late) (Runs-nil m zscii)
code-Runs m c zscii (suc (suc zero), suc (suc k)) late small is =
    let first : (suc (suc k) == 0) ≡ false = ground arith in
    let second : (suc (suc k) == 1) ≡ false = ground arith in
    rw (first, second)
      (plain_char-Runs m c 2 (suc (suc k)) zscii (λ b. omega arith)
        (stands m c 2 (suc (suc k)) (λ b. omega arith) is.2))
code-Runs m c zscii (suc zero, k) late small is =
    plain_char-Runs m c 1 k zscii (λ b. omega arith) (stands m c 1 k (λ b. omega arith) is.2)
code-Runs m c zscii (zero, k) late small is =
    plain_char-Runs m c 0 k zscii (λ b. omega arith) (stands m c 0 k (λ b. omega arith) is.2)
code-Runs m c zscii (suc (suc (suc t)), k) late small is = absurd (omega arith)

char_codes-Runs :
    (m : Machine) (c zscii : ℕ)
    → 3 ≤ m.h_type
    → c < 256
    → Runs m
        (char_codes c (find_code m.lookup_table c))
        (at 0 zscii)
        (written m.lookup_table c ∷ [])
unfolding char_codes written
char_codes-Runs m c zscii late small =
    go (find_code m.lookup_table c) (find_code-IsCode m.lookup_table c)
  where
    go :
        (found : ℕ × ℕ)
        → IsCode m.lookup_table c found
        → Runs m
            (char_codes c found)
            (at 0 zscii)
            ((if found.0 == 2 && found.1 == 1 then new_line else zchar c) ∷ [])
    go (zero, k) is = code-Runs m c zscii (0, k) late small is
    go (suc zero, k) is =
        Runs-cons m 4 _ (at 0 zscii) (at 1 zscii) [] _ refl
          (decode_plain-shift m 1 zscii late (omega arith) (omega arith))
          (code-Runs m c zscii (1, k) late small is)
    go (suc (suc zero), k) is =
        Runs-cons m 5 _ (at 0 zscii) (at 2 zscii) [] _ refl
          (decode_plain-shift m 2 zscii late (omega arith) (omega arith))
          (code-Runs m c zscii (2, k) late small is)
    go (suc (suc (suc t)), k) is = absurd (omega arith)

text_codes-Runs :
    (m : Machine) (s : List ℕ) (zscii : ℕ)
    → 3 ≤ m.h_type
    → All (λ c. c < 256) s
    → Runs m (text_codes m.lookup_table s) (at 0 zscii) (map (written m.lookup_table) s)
unfolding text_codes
text_codes-Runs m [] zscii late small = Runs-nil m zscii
text_codes-Runs m (c ∷ s) zscii late small =
    Runs-append m (char_codes c (find_code m.lookup_table c)) (text_codes m.lookup_table s)
      (at 0 zscii) (written m.lookup_table c ∷ []) _ (char_codes-Runs m c zscii late small.0)
      (λ z. text_codes-Runs m s z late small.1)

fives-Runs :
    (m : Machine) (n zscii : ℕ)
    → 3 ≤ m.h_type
    → (table : ℕ)
    → (IsPlain m (replicate n 5) (at table zscii))
      × ((run m (replicate n 5) (at table zscii)).1 ≡ [])
unfolding run decode_plain shift_after
fives-Runs m zero zscii late table = (tt, refl)
fives-Runs m (suc n) zscii late table =
    let old : ltb m.h_type 3 ≡ false = ground arith in
    let rest = fives-Runs m n zscii late 2 in rw old ((refl, rest.0), rest.1)

-- What the codes of a text and the filling are run to.
pub padded-run :
    (m : Machine) (s : List ℕ) (n : ℕ)
    → 3 ≤ m.h_type
    → All (λ c. c < 256) s
    → let codes = text_codes m.lookup_table s ++ replicate n 5 in
      IsPlain m codes first_state × ((run m codes first_state).1 ≡ map (written m.lookup_table) s)
padded-run m s n late small =
    let r = text_codes-Runs m s 0 late small in
    let fill = fives-Runs m n r.after late 0 in
    (
      IsPlain-append m (text_codes m.lookup_table s) (replicate n 5) first_state r.plain
          (rw r.result fill.0),
      ap (λ x. x.1) (run-append m (text_codes m.lookup_table s) (replicate n 5) first_state)
          ∙ rw (r.result, fill.1) (append_nil (map (written m.lookup_table) s)),
    )
