-- ===== src/Input/Lookup.antt =====
-- Looking a token up in a sorted dictionary of the data area.
use native.Mathlib.Nat.{pow-suc}
use jzip.Prelude.{
  ℕ, zero, suc, ◌+◌, ◌-◌, ◌*◌, ◌/◌, ◌%◌, ◌^◌, ◌<◌, ◌≤◌, ◌≡◌, ◌≢◌, ◌∙◌, inl, inr, refl, ap, arith,
  ltb, ◌==◌, if◌then◌else◌, Bool-cases, List, get_or,
}
use jzip.Prelude.Int.{pos, signed}
use jzip.Machine.{Machine, M, and_then, ok, pure, get_word, get_word-ok}
use jzip.Text.{encode_text}
use jzip.Text.Encode.{AreWords, encode_text-AreWords}
use jzip.Input.{
  Dictionary, Status, below, same, above, compare_word, compare_entry, search_size, binary_chop,
  find_word, start_chop,
}
use jzip.Input.Chop.{
  order, IsSorted, entry_offset, Starts, chop_loop-Starts, binary_chop-finds, binary_chop-misses,
}

abbrev pub word_at : ℕ → Machine → ℕ
word_at a m = (m.datap a * 256 + m.datap (a + 1)) % 0x10000

-- A word by its place in the order of the integers that the words stand for.
abbrev pub rank : ℕ → ℕ
rank w = (w + 0x8000) % 0x10000

-- The three words of an entry as one number in the order of the dictionary; the third counts from
-- version 4 on.
abbrev pub rank3 : ℕ → ℕ → ℕ → ℕ → ℕ
rank3 h_type a b c =
    rank a * 0x100000000 + (rank b * 0x10000 + (if ltb h_type 4 then 0 else rank c))

abbrev pub word_rank : List ℕ → Machine → ℕ
word_rank word m = rank3 m.h_type (get_or word 0 0) (get_or word 1 0) (get_or word 2 0)

abbrev pub entry_rank : ℕ → Machine → ℕ
entry_rank offset m =
    rank3 m.h_type (word_at offset m) (word_at (offset + 2) m) (word_at (offset + 4) m)

compare_word-order :
    (a b : ℕ) → a < 0x10000 → b < 0x10000 → compare_word a b ≡ order (rank a) (rank b)
unfolding compare_word signed
compare_word-order a b h k = ground arith

-- The first words decide where they differ.
first_decides :
    (a b x y : ℕ)
    → x < 0x100000000
    → y < 0x100000000
    → order (a * 0x100000000 + x) (b * 0x100000000 + y) ≡ (if a == b then order x y else order a b)
first_decides a b x y h k = ground arith

second_decides :
    (a b x y : ℕ)
    → x < 0x10000
    → y < 0x10000
    → order (a * 0x10000 + x) (b * 0x10000 + y) ≡ (if a == b then order x y else order a b)
second_decides a b x y h k = ground arith

-- The switch on a status: `k` where it is the same so far, else the status.
abbrev go_on : M Status → Status → M Status
go_on k s = elim s [ same ↦ k | other ↦ pure other ]

go_on_differs :
    (k : M Status) (a b : ℕ) (m : Machine)
    → go_on k (if ltb a b then above else below) m ≡ ok (if ltb a b then above else below) m
go_on_differs k a b m = elim (Bool-cases (ltb a b)) [ inl h ↦ rw h refl | inr h ↦ rw h refl ]

third-lt : (h_type c : ℕ) → (if ltb h_type 4 then 0 else rank c) < 0x10000
third-lt h_type c = ground arith

rank3-order :
    (h_type a b c x y z : ℕ)
    → order (rank3 h_type a b c) (rank3 h_type x y z) ≡ (
        if rank a == rank x
        then (if rank b == rank y
            then order (if ltb h_type 4 then 0 else rank c) (if ltb h_type 4 then 0 else rank z)
            else order (rank b) (rank y))
        else order (rank a) (rank x))
rank3-order h_type a b c x y z =
    let p = third-lt h_type c in
    let q = third-lt h_type z in
    rw
      (
        first_decides (rank a) (rank x) (rank b * 0x10000 + (if ltb h_type 4 then 0 else rank c))
            (rank y * 0x10000 + (if ltb h_type 4 then 0 else rank z)) (omega arith) (omega arith),
        second_decides (rank b) (rank y) (if ltb h_type 4 then 0 else rank c)
            (if ltb h_type 4 then 0 else rank z) p q,
      )
      refl

bind_word :
    {A : Type 0} (a : ℕ) (k : ℕ → M A) (m : Machine)
    → a + 1 < m.data_size
    → and_then (get_word a m) k ≡ k (word_at a m) m
bind_word a k m h = rw (get_word-ok a m h) refl

compare_entry-order :
    (word : List ℕ) (offset : ℕ) (m : Machine)
    → get_or word 0 0 < 0x10000
    → get_or word 1 0 < 0x10000
    → get_or word 2 0 < 0x10000
    → offset + 5 < m.data_size
    → compare_entry word offset m ≡ ok (order (word_rank word m) (entry_rank offset m)) m
unfolding compare_entry
compare_entry-order word offset m h0 h1 h2 inside =
    let a = get_or word 0 0 in
    let b = get_or word 1 0 in
    let c = get_or word 2 0 in
    let x = word_at offset m in
    let y = word_at (offset + 2) m in
    let z = word_at (offset + 4) m in
    bind_word offset _ m (omega arith)
    ∙ rw (compare_word-order a x h0 (omega arith), rank3-order m.h_type a b c x y z)
        (elim (Bool-cases (rank a == rank x)) [
          | inr other ↦ rw other (go_on_differs _ (rank x) (rank a) m)
          | inl one ↦ rw one (
              bind_word (offset + 2) _ m (omega arith)
              ∙ rw (compare_word-order b y h1 (omega arith)) (elim (Bool-cases (rank b == rank y)) [
                | inr other ↦ rw other (go_on_differs _ (rank y) (rank b) m)
                | inl two ↦ elim (Bool-cases (ltb m.h_type 4)) [
                  | inl early ↦ rw (two, early) refl
                  | inr late ↦
                      rw (two, late)
                        (bind_word (offset + 4) _ m (omega arith)
                          ∙ rw (compare_word-order c z h2 (omega arith)) refl)
                ]
              ]))
        ])

-- A dictionary of `n` entries in the data area whose entries ascend by their words.
pub record Sorted (d : Dictionary) (n : ℕ) (m : Machine) : Type 0 where
  pub size : d.dictionary_size ≡ pos n
  pub some' : 1 ≤ n
  pub inside : (i : ℕ) → i < n → d.dictionary_offset + i * d.entry_size + 5 < m.data_size
  pub ascend :
      (i j : ℕ)
      → i < j
      → j < n
      → entry_rank (d.dictionary_offset + i * d.entry_size) m
        < entry_rank (d.dictionary_offset + j * d.entry_size) m

Sorted-IsSorted :
    (word : List ℕ) (d : Dictionary) (n : ℕ) (m : Machine)
    → AreWords word
    → Sorted d n m
    → IsSorted word
        (word_rank word m)
        (λ i. entry_rank (d.dictionary_offset + i * d.entry_size) m)
        d
        n
        m
Sorted-IsSorted word d n m w s = record {
  reads = λ i h.
      compare_entry-order word (d.dictionary_offset + i * d.entry_size) m w.0 w.1 w.2
        (s.inside i h);
  ascend = s.ascend;
}

lt-pow : (k : ℕ) → k < 2 ^ k
lt-pow zero = omega arith
lt-pow (suc k) = omega (arith, lt-pow k, pow-suc 2 k)

start_chop-Starts : (n : ℕ) → 1 ≤ n → Starts n (start_chop (pos n))
unfolding start_chop
start_chop-Starts zero h = absurd (omega arith)
start_chop-Starts (suc n) h =
    chop_loop-Starts (suc n) (suc n) (suc n / 2) 0 (omega arith) (omega arith)

-- Where the dictionary has entries, the search is the chop from half the power of two above their number.
find_word-binary_chop :
    (token : List ℕ) (d : Dictionary) (n : ℕ) (m : Machine) (s : Sorted d n m)
    (st : Starts n (start_chop (pos n)))
    → find_word token d (start_chop d.dictionary_size) m
      ≡ binary_chop
          (2 ^ st.exponent + 1)
          (encode_text token m)
          d
          n
          (2 ^ st.exponent)
          (2 ^ st.exponent - 1)
          m
unfolding find_word search_size
find_word-binary_chop token d zero m s st = absurd (omega (arith, s.some'))
find_word-binary_chop token d (suc n) m s st =
    ap (λ z. search_size z (encode_text token m) d (start_chop z) m) s.size ∙ rw st.power refl

-- On a sorted dictionary the chop search ends and gives the address of the entry whose encoded text is
-- that of the token, whichever entry it is.
pub find_word-finds :
    (token : List ℕ) (d : Dictionary) (n t : ℕ) (m : Machine)
    → Sorted d n m
    → t < n
    → entry_rank (d.dictionary_offset + t * d.entry_size) m ≡ word_rank (encode_text token m) m
    → find_word token d (start_chop d.dictionary_size) m ≡ ok (entry_offset d t) m
find_word-finds token d n t m s h e =
    let word = encode_text token m in
    let st = start_chop-Starts n s.some' in
    find_word-binary_chop token d n m s st
    ∙ binary_chop-finds st.exponent (2 ^ st.exponent + 1) word (word_rank word m)
        (λ i. entry_rank (d.dictionary_offset + i * d.entry_size) m) d n t (2 ^ st.exponent - 1) m
        (Sorted-IsSorted word d n m (encode_text-AreWords token m) s) h e
        (omega (arith, lt-pow st.exponent)) (omega (arith, st.power, st.enough))

-- On a sorted dictionary the chop search ends and gives 0 for a token whose encoded text is that of no
-- entry.
pub find_word-misses :
    (token : List ℕ) (d : Dictionary) (n : ℕ) (m : Machine)
    → Sorted d n m
    → ((i : ℕ)
        → i < n
        → entry_rank (d.dictionary_offset + i * d.entry_size) m ≢ word_rank (encode_text token m) m)
    → find_word token d (start_chop d.dictionary_size) m ≡ ok 0 m
find_word-misses token d n m s none' =
    let word = encode_text token m in
    let st = start_chop-Starts n s.some' in
    find_word-binary_chop token d n m s st
    ∙ binary_chop-misses st.exponent (2 ^ st.exponent + 1) word (word_rank word m)
        (λ i. entry_rank (d.dictionary_offset + i * d.entry_size) m) d n (2 ^ st.exponent - 1) m
        (Sorted-IsSorted word d n m (encode_text-AreWords token m) s) s.some' none'
        (omega (arith, lt-pow st.exponent))
