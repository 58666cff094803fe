-- ===== src/Tokenise.antt =====
-- Cutting a line of input into tokens and storing them in a token buffer (input.c).
pub mod Tokens
use jzip.Prelude.{
  ℕ, zero, suc, ◌+◌, ◌-◌, ◌*◌, ◌/◌, ◌%◌, bit_and, Bool, true, false, not, ◌&&◌, ◌||◌, ltb, leb,
  ◌==◌, if◌then◌else◌, List, [], ◌∷◌, ◌++◌, length,
}
use jzip.Prelude.Int.{ℤ, pos, signed}
use jzip.Machine.{
  Machine, M, ok, fault, out_of_fuel, pure, ◌>>=◌, ◌>>◌, when, get_byte, set_byte, get_word,
}
use jzip.Input.{Dictionary, find_word, start_chop}

abbrev pub contains : ℕ → List ℕ → Bool
contains c [] = false
contains c (x ∷ xs) = x == c || contains c xs

-- `separators`: space, tab, newline, form feed, full stop, comma, question mark.
abbrev pub separators : List ℕ
separators = 32 ∷ 9 ∷ 10 ∷ 12 ∷ 46 ∷ 44 ∷ 63 ∷ []

-- What `next_token` returns: the token with its start in the buffer, and what is left of the line
-- with its start. A token of no characters is none.
pub record Found : Type 0 where
  pub text : List ℕ
  pub start : ℕ
  pub rest : List ℕ
  pub position : ℕ

-- The loop of `next_token`, with the token's characters so far.
unfoldable pub scan_token : List ℕ → List ℕ → ℕ → List ℕ → ℕ → Found
scan_token punctuation text start [] position = record {
  text = text;
  start = start;
  rest = [];
  position = position;
}
scan_token punctuation text start (c ∷ s) position =
    if contains c punctuation
    then (if length text == 0
        then record { text = c ∷ []; start = position; rest = s; position = position + 1 }
        else record { text = text; start = start; rest = c ∷ s; position = position })
    else if contains c separators && not (length text == 0)
    then record { text = text; start = start; rest = s; position = position + 1 }
    else scan_token punctuation (if contains c separators then text else text ++ (c ∷ []))
        (if length text == 0 then position else start) s (position + 1)

unfoldable pub next_token : List ℕ → List ℕ → ℕ → Found
unfolding scan_token
next_token punctuation s position = scan_token punctuation [] 0 s position

-- One token of the buffer at `tp`: the dictionary address, which the flag can keep out, the length
-- and the start in the character buffer.
unfoldable pub store_token : ℕ → ℕ → ℕ → Found → M (Unit {0})
store_token tp word flag token = do
  when (not (word == 0) || flag == 0) (do set_byte tp (word / 256); set_byte (tp + 1) word)
  set_byte (tp + 2) (length token.text)
  set_byte (tp + 3) token.start

-- `words <= tbuf[0]`, where `char` is signed.
unfoldable pub has_space : ℕ → ℕ → Bool
has_space words most = leb words most && ltb most 0x80

-- What a token does: it is looked up and stored, or else discarded with a message.
unfoldable pub take_token : Dictionary → ℕ → ℕ → Found → ℕ → M ℕ
take_token d token_buf flag token words = do
  most ← get_byte token_buf
  if has_space words most
      then (do
        word ← find_word token.text d (start_chop d.dictionary_size)
        store_token (token_buf + 2 + words * 4) word flag token
        pure (words + 1))
      else pure words

-- The loop over the tokens; each takes at least one character, so the characters left are fuel
-- enough.
unfoldable pub tokenise_loop : ℕ → List ℕ → Dictionary → ℕ → ℕ → List ℕ → ℕ → ℕ → M ℕ
tokenise_loop zero punctuation d token_buf flag s position words = out_of_fuel'
  where
    out_of_fuel' : M ℕ
    out_of_fuel' m = out_of_fuel
tokenise_loop (suc fuel) punctuation d token_buf flag s position words =
    let token = next_token punctuation s position in
    if length token.text == 0 then pure words else (do
      words' ← take_token d token_buf flag token words
      tokenise_loop fuel punctuation d token_buf flag token.rest token.position words')

-- `n` characters of the buffer.
unfoldable pub read_chars : ℕ → ℕ → M (List ℕ)
read_chars zero at = pure []
read_chars (suc n) at = do c ← get_byte at; rest ← read_chars n (at + 1); pure (c ∷ rest)

-- The characters before the 0 that ends a string. A string that does not end runs out of the data
-- area.
unfoldable pub read_string : ℕ → ℕ → M (List ℕ)
read_string zero at m = out_of_fuel
read_string (suc fuel) at m =
    (do
      c ← get_byte at
      if c == 0 then pure [] else (do rest ← read_string fuel (at + 1); pure (c ∷ rest)))
      m

-- The line of the character buffer: with its length from version 5 on, else up to a 0.
unfoldable pub read_line : ℕ → M (List ℕ)
read_line char_buf m =
    if ltb 4 m.h_type
    then (do slen ← get_byte (char_buf + 1); read_chars slen (char_buf + 2)) m
    else read_string (m.data_size + 1) (char_buf + 1) m

-- The `count` separators of a dictionary: its address is a `zword_t` that is stepped.
unfoldable pub read_punctuation : ℕ → ℕ → M (List ℕ)
read_punctuation zero dictionary = pure []
read_punctuation (suc count) dictionary = do
  c ← get_byte dictionary
  rest ← read_punctuation count ((dictionary + 1) % 0x10000)
  pure (c ∷ rest)

-- The separators of the dictionary as a C string: a 0 among them ends it.
unfoldable pub until_zero : List ℕ → List ℕ
until_zero [] = []
until_zero (c ∷ s) = if c == 0 then [] else c ∷ until_zero s

-- The array `punctuation[16]` has room for 15 separators and the 0.
unfoldable pub tokenise_line : ℕ → ℕ → ℕ → ℕ → M (Unit {0})
tokenise_line char_buf token_buf dictionary flag m =
    (do
      s ← read_line char_buf
      count ← get_byte dictionary
      (if ltb 15 count then (λ _. fault) else pure tt)
      punctuation ← read_punctuation count ((dictionary + 1) % 0x10000)
      entry_size ← get_byte ((dictionary + 1 + count) % 0x10000)
      dictionary_size ← get_word ((dictionary + 2 + count) % 0x10000)
      words ←
          tokenise_loop (length s + 1) (until_zero punctuation)
            (record {
              dictionary_offset = (dictionary + 4 + count) % 0x10000;
              dictionary_size = signed dictionary_size;
              entry_size = entry_size;
            })
            token_buf flag s (if ltb 4 m.h_type then 2 else 1) 0
      set_byte (token_buf + 1) words)
      m

-- The operands that are not given have defaults.
unfoldable pub z_tokenise : ℕ → (ℕ → ℕ) → M (Unit {0})
z_tokenise argc argv m =
    tokenise_line (argv 0) (argv 1) (if ltb argc 3 then m.h_words_offset else argv 2)
      (if ltb argc 4 then 0 else argv 3) m
