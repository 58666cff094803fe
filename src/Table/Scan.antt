-- ===== src/Table/Scan.antt =====
-- What the scan of a table finds.
use jzip.Prelude.{
  ℕ, zero, suc, ◌+◌, ◌-◌, ◌*◌, ◌%◌, ◌<◌, ◌≤◌, ◌≡◌, ◌≢◌, ◌⊎◌, inl, inr, refl, arith, bit_and, true,
  false, ◌==◌, Bool-cases, ==→eq, eq→==, none, some,
}
use jzip.Machine.{Machine, M, ok, ◌>>◌, read_data_word}
use jzip.Operand.{store_operand}
use jzip.Branch.{conditional_jump}
use jzip.Table.{scan_array, finish_scan, z_scan_table}
use jzip.Table.Arrays.{read_data_word-ok}

-- The word at an address.
abbrev pub word_of : Machine → ℕ → ℕ
word_of m a = (m.datap a * 256 + m.datap (a + 1)) % 0x10000

-- The scan stops at element `i`, the first that is `x`, or no element is.
pub record Hit (value : ℕ → ℕ) (n x address step i : ℕ) : Type 0 where
  pub inside : i < n
  pub here : value (address + i * step) ≡ x
  pub first : (j : ℕ) → j < i → value (address + j * step) ≢ x

abbrev pub Miss : (ℕ → ℕ) → ℕ → ℕ → ℕ → ℕ → Type 0
Miss value n x address step = (j : ℕ) → j < n → value (address + j * step) ≢ x

module _ (read : ℕ → M ℕ) (value : ℕ → ℕ) (m : Machine) (x step : ℕ) where
  abbrev Outcome : ℕ → ℕ → Type 0
  Outcome n address =
      ((i : ℕ) × (scan_array read n x address step m ≡ ok (some (address + i * step)) m)
        × Hit value n x address step i)
      ⊎ ((scan_array read n x address step m ≡ ok none m) × Miss value n x address step)

  later : (address j : ℕ) → address + (suc j) * step ≡ address + step + j * step
  later address j = omega arith

  none_before :
      (address n : ℕ)
      → (value address == x) ≡ false
      → ((j : ℕ) → j < n - 1 → value (address + step + j * step) ≢ x)
      → (j : ℕ) → j < n
      → value (address + j * step) ≢ x
  none_before address n other rest zero h e =
      let start : address + 0 * step ≡ address = omega arith in
      cc (eq→== (value address) x (rw start at e))
  none_before address n other rest (suc j) h e = rest j (omega arith) (rw (later address j) at e)

  pub scan_array-Outcome :
      (n address : ℕ)
      → ((i : ℕ) → i < n → read (address + i * step) m ≡ ok (value (address + i * step)) m)
      → Outcome n address
  unfolding scan_array
  scan_array-Outcome zero address reads = inr (refl, λ j h. absurd (omega arith))
  scan_array-Outcome (suc n) address reads =
      let start : address + 0 * step ≡ address = omega arith in
      let now : read address m ≡ ok (value address) m = rw start at (reads 0 (omega arith)) in
      elim (Bool-cases (value address == x)) [
        | inl same ↦ inl (
          0,
          rw (now, same, start) refl,
          record {
            inside = omega arith;
            here = rw start (==→eq (value address) x same);
            first = λ j h. absurd (omega arith);
          },
        )
        | inr other ↦
            elim (scan_array-Outcome n (address + step)
              (λ i h. rw (later address i) at (reads (suc i) (omega arith)))) [
                | inl (i, ends, hit) ↦ inl (
                  suc i,
                  rw (now, other, later address i) ends,
                  record {
                    inside = omega (arith, hit.inside);
                    here = rw (later address i) hit.here;
                    first = none_before address (suc i) other (λ j h. hit.first j (omega arith));
                  },
                )
                | inr (ends, miss) ↦ inr (
                  rw (now, other) ends,
                  none_before address (suc n) other (λ j h. miss j (omega arith)),
                )
              ]
      ]

-- Scanning a table of words in the data area, in steps of the form's seven low bits: the code stores
-- the address of the first element that is the target and branches on true, or, where no element
-- is, stores 0 and branches on false.
pub z_scan_table_first :
    (x table len form : ℕ) (m : Machine)
    → (bit_and form 0x80 == 0) ≡ false
    → table + len * bit_and form 0x7f + 1 < m.data_size
    → let step = bit_and form 0x7f in
      let value = word_of m in
      ((i : ℕ) × (z_scan_table 4 x table len form m
          ≡ (do store_operand ((table + i * step) % 0x10000); conditional_jump true) m)
        × Hit value len x table step i)
      ⊎ ((z_scan_table 4 x table len form m ≡ (do store_operand 0; conditional_jump false) m)
          × Miss value len x table step)
unfolding z_scan_table finish_scan
z_scan_table_first x table len form m words room =
    let step = bit_and form 0x7f in
    let value = word_of m in
    elim (scan_array-Outcome read_data_word value m x step len table
      (λ i h. read_data_word-ok (table + i * step) m (inside i step h room))) [
        | inl (i, ends, hit) ↦ inl (i, rw (words, ends) refl, hit)
        | inr (ends, miss) ↦ inr (rw (words, ends) refl, miss)
      ]
  where
    inside :
        (i step : ℕ)
        → i < len
        → table + len * step + 1 < m.data_size
        → table + i * step + 1 < m.data_size
    inside i step h k = omega (arith, below i len step h)
      where
        suc-times : (i step : ℕ) → suc i * step ≡ step + i * step
        suc-times i step = omega arith

        below : (i n step : ℕ) → i < n → i * step ≤ n * step
        below zero n step h = omega arith
        below (suc i) zero step h = absurd (omega arith)
        below (suc i) (suc n) step h =
            omega (arith, below i n step (omega arith), suc-times i step, suc-times n step)
