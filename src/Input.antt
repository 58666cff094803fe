-- ===== src/Input.antt =====
-- Reading a line of input as words (input.c): cutting it into tokens, and looking a token up in the
-- dictionary.
pub mod Chop
pub mod Lookup
use jzip.Prelude.{
  ℕ, zero, suc, ◌+◌, ◌-◌, ◌*◌, ◌/◌, ◌%◌, bit_and, Bool, true, false, not, ◌&&◌, ◌||◌, ltb, leb,
  ◌==◌, if◌then◌else◌, List, [], ◌∷◌, ◌++◌, length, get_or,
}
use jzip.Prelude.Int.{ℤ, pos, negsuc, signed, ltb_ℤ}
use jzip.Machine.{
  Machine, M, ok, fault, out_of_fuel, pure, ◌>>=◌, ◌>>◌, when, get_byte, set_byte, get_word,
}
use jzip.Text.{encode_text}

-- The three statics that `tokenise_line` sets from a dictionary's header.
pub record Dictionary : Type 0 where
  pub dictionary_offset : ℕ
  pub dictionary_size : ℤ
  pub entry_size : ℕ

-- The sign of `status`.
pub data Status : Type 0 where
  below same above : Status

unfoldable pub compare_word : ℕ → ℕ → Status
compare_word word entry =
    if word == entry then same else if ltb_ℤ (signed entry) (signed word) then above else below

-- The comparison of the encoded word with the entry at `offset`: two words, and a third from version
-- 4 on, each read only if the ones before are the same.
unfoldable pub compare_entry : List ℕ → ℕ → M Status
compare_entry word offset m =
    (do
      entry0 ← get_word offset
      elim (compare_word (get_or word 0 0) entry0) [
        | same ↦ do
          entry1 ← get_word (offset + 2)
          elim (compare_word (get_or word 1 0) entry1) [
            | same ↦ if ltb m.h_type 4 then pure same else (do
              entry2 ← get_word (offset + 4)
              pure (compare_word (get_or word 2 0) entry2))
            | other ↦ pure other
          ]
        | other ↦ pure other
      ])
      m

-- `while ( chop )`, on a dictionary of `size` entries. A chop halves each round, so one more than
-- its value is fuel enough.
unfoldable pub binary_chop : ℕ → List ℕ → Dictionary → ℕ → ℕ → ℕ → M ℕ
binary_chop zero word d size chop word_index = λ m. out_of_fuel
binary_chop (suc fuel) word d size chop word_index =
    if chop == 0
    then pure 0
    else let half = chop / 2 in
      let at = if ltb (size - 1) word_index then size - 1 else word_index in
      let offset = d.dictionary_offset + at * d.entry_size in
      do
        status ← compare_entry word offset
        elim status [
          | same ↦ pure (offset % 0x10000)
          | above ↦
              binary_chop fuel word d size half
                (if leb size (at + half) then size - 1 else at + half)
          | below ↦ binary_chop fuel word d size half (at - half)
        ]

-- The loop over an unsorted dictionary, from `word_index` on for `n` entries.
unfoldable pub linear_search : ℕ → List ℕ → Dictionary → ℕ → M ℕ
linear_search zero word d word_index = pure 0
linear_search (suc n) word d word_index = do
  status ← compare_entry word (d.dictionary_offset + word_index * d.entry_size)
  elim status [
    | same ↦ pure ((d.dictionary_offset + word_index * d.entry_size) % 0x10000)
    | _ ↦ linear_search n word d (word_index + 1)
  ]

-- `dictionary_size` is 0, above 0 for a sorted dictionary, or below 0 for one to be searched in order.
unfoldable pub search_size : ℤ → List ℕ → Dictionary → ℕ → M ℕ
search_size (pos zero) word d chop = pure 0
search_size (pos (suc n)) word d chop = binary_chop (chop + 1) word d (suc n) chop (chop - 1)
search_size (negsuc n) word d chop = linear_search (suc n) word d 0

unfoldable pub find_word : List ℕ → Dictionary → ℕ → M ℕ
unfolding search_size
find_word token d chop m = search_size d.dictionary_size (encode_text token m) d chop m

-- `do chop *= 2; while ( word_index /= 2 );`
unfoldable pub chop_loop : ℕ → ℕ → ℕ → ℕ
chop_loop zero word_index chop = chop * 2
chop_loop (suc fuel) word_index chop =
    if word_index / 2 == 0 then chop * 2 else chop_loop fuel (word_index / 2) (chop * 2)

-- The start of the chop for a dictionary of `size` entries.
unfoldable pub start_chop : ℤ → ℕ
start_chop (pos zero) = 0
start_chop (pos (suc n)) = chop_loop (suc n) (suc n / 2) 1
start_chop (negsuc n) = 0
