-- ===== src/Examples/Words.antt =====
-- The dictionary, the tokens and the operands of an instruction at concrete machines.
use jzip.Prelude.{
  ℕ, zero, suc, ◌+◌, ◌-◌, ◌*◌, ◌<◌, ◌≤◌, ◌≡◌, ◌≢◌, refl, arith, ◌==◌, if◌then◌else◌, List, [], ◌∷◌,
  get_or, length, map,
}
use jzip.Prelude.Int.{pos}
use jzip.Machine.{Machine, ok, pure, read_data_word, ◌>>=◌, read_code_word, read_code_byte}
use jzip.Examples.{start}
use jzip.Text.{encode_text}
use jzip.Text.Decode.{decode_text, zchar}
use jzip.Text.Run.{text_codes, written}
use jzip.Text.RoundTrip.{decode_text-encode_text}
use jzip.Input.{Dictionary, find_word, start_chop}
use jzip.Input.Chop.{entry_offset}
use jzip.Input.Lookup.{Sorted, entry_rank, word_rank, find_word-finds, find_word-misses}
use jzip.Tokenise.{tokenise_loop}
use jzip.Tokenise.Tokens.{
  all_tokens, texts, kept, take_all, texts-all_tokens, tokenise_loop-take_all,
}
use jzip.Interpreter.Loading.{load_variable_class}
use jzip.Interpreter.Laws.{types, load_all, filled, load_variable_class-filled}

-- The entries of "go" and "in", as a version 3 story has them.
abbrev entries : List ℕ
entries = 0x32 ∷ 0x85 ∷ 0x94 ∷ 0xa5 ∷ 0 ∷ 0 ∷ 0 ∷ 0x3a ∷ 0x65 ∷ 0x94 ∷ 0xa5 ∷ 0 ∷ 0 ∷ 0 ∷ []

abbrev pub words : Machine
words = record start {
  datap = λ a. get_or entries (a - 400) 0;
  lookup_table = λ i j. if i == 0 then 97 + j else if i == 1 then 65 + j else 40 + j;
}

abbrev two_words : Dictionary
two_words = record { dictionary_offset = 400; dictionary_size = pos 2; entry_size = 7 }

abbrev in_token : List ℕ
in_token = 105 ∷ 110 ∷ []

abbrev get_token : List ℕ
get_token = 103 ∷ 101 ∷ 116 ∷ []

two_words-Sorted : Sorted two_words 2 words
two_words-Sorted = record {
  size = refl;
  some' = omega arith;
  inside = λ i h. omega arith;
  ascend = λ i j h k.
      (let e : i ≡ 0 = omega arith in let e' : j ≡ 1 = omega arith in rw (e, e') (omega arith));
}

find_word-finds_example :
    find_word in_token two_words (start_chop (pos 2)) words ≡ ok (entry_offset two_words 1) words
unfolding encode_text jzip.Text.pack_codes jzip.Text.pad_codes jzip.Text.encode_chars
    jzip.Text.add_char jzip.Text.find_code jzip.Text.search_row jzip.Text.add_code
    jzip.Text.shift_late jzip.Text.pack
find_word-finds_example =
    find_word-finds in_token two_words 2 1 words two_words-Sorted (omega arith) refl

no_get :
    (i : ℕ)
    → i < 2
    → entry_rank (two_words.dictionary_offset + i * two_words.entry_size) words
      ≢ word_rank (0x3159 ∷ 0x94a5 ∷ 0x14a5 ∷ []) words
no_get zero h e = absurd (omega arith)
no_get (suc zero) h e = absurd (omega arith)
no_get (suc (suc i)) h e = absurd (omega arith)

-- "get" is 12, 10, 25 and six times 5.
get_code : encode_text get_token words ≡ 0x3159 ∷ 0x94a5 ∷ 0x14a5 ∷ []
unfolding encode_text jzip.Text.pack_codes jzip.Text.pad_codes jzip.Text.encode_chars
    jzip.Text.add_char jzip.Text.find_code jzip.Text.search_row jzip.Text.add_code
    jzip.Text.shift_late jzip.Text.pack
get_code = refl

find_word-misses_example : find_word get_token two_words (start_chop (pos 2)) words ≡ ok 0 words
unfolding encode_text
find_word-misses_example =
    find_word-misses get_token two_words 2 words two_words-Sorted (λ i h. rw get_code (no_get i h))

-- "in, go" with the comma among the dictionary's separators.
abbrev line : List ℕ
line = 105 ∷ 110 ∷ 44 ∷ 32 ∷ 103 ∷ 111 ∷ []

texts-all_tokens_example : texts (all_tokens 7 (44 ∷ []) line 1) ≡ kept (44 ∷ []) line
texts-all_tokens_example = texts-all_tokens 7 (44 ∷ []) line 1 (omega arith)

tokenise_loop-take_all_example :
    tokenise_loop 7 (44 ∷ []) two_words 500 0 line 1 0 words
    ≡ take_all two_words 500 0 (all_tokens 7 (44 ∷ []) line 1) 0 words
tokenise_loop-take_all_example =
    tokenise_loop-take_all 7 (44 ∷ []) two_words 500 0 line 1 0 words (omega arith)

load_variable_class-filled_example :
    (load_variable_class 0x20 (λ i. 0) words
      ≡ (do
        specifier ← read_code_byte
        values ← load_all (types 4 specifier)
        pure (filled values (record { count = 0; operand = λ i. 0 })))
          words)
    × ((specifier : ℕ) → length (types 4 specifier) ≤ 8)
load_variable_class-filled_example = load_variable_class-filled 0x20 (λ i. 0) words

-- The entry of "go" decodes to "go".
decode_text-encode_text_example :
    decode_text 3 400 words ≡ ok (map (written words.lookup_table) (103 ∷ 111 ∷ []), 404) words
unfolding encode_text read_data_word text_codes jzip.Text.Run.char_codes jzip.Text.find_code
    jzip.Text.search_row jzip.Text.pack_codes jzip.Text.pad_codes jzip.Text.encode_chars
    jzip.Text.add_char jzip.Text.add_code jzip.Text.shift_late jzip.Machine.read_data_byte
    jzip.Text.pack
decode_text-encode_text_example =
    decode_text-encode_text (103 ∷ 111 ∷ []) 400 0 words (omega arith)
      (omega arith, (omega arith, tt)) (omega arith) (refl, (refl, tt))

go_written : map (written words.lookup_table) (103 ∷ 111 ∷ []) ≡ zchar 103 ∷ zchar 111 ∷ []
unfolding written jzip.Text.find_code jzip.Text.search_row
go_written = refl
