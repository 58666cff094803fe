-- ===== src/Quetzal/Compress.antt =====
-- The differences of two bytes that `save_quetzal` writes and `restore_quetzal` undoes.
use jzip.Prelude.{
  ℕ, ◌<◌, ◌≡◌, refl, arith, bit_xor, all_below, all_below→holds, Bool, true, not, ◌&&◌, ◌||◌, ◌==◌,
  ==→eq,
}

-- Over all pairs of bytes: the difference is 0 for equal bytes only, and gives one byte from the other.
pair_ok : ℕ → ℕ → Bool
pair_ok c d = (not (bit_xor c d == 0) || c == d) && bit_xor (bit_xor c d) c == d

pairs : all_below 256 (λ c. all_below 256 (λ d. pair_ok c d)) ≡ true
unfolding pair_ok all_below
pairs = refl

pair : (c d : ℕ) → c < 256 → d < 256 → pair_ok c d ≡ true
pair c d h k =
    all_below→holds 256 (λ d. pair_ok c d) d
      (all_below→holds 256 (λ c. all_below 256 (λ d. pair_ok c d)) c pairs h) k

pub xor_zero : (c d : ℕ) → c < 256 → d < 256 → (bit_xor c d == 0) ≡ true → c ≡ d
unfolding pair_ok
xor_zero c d h k e = ==→eq c d (ground (arith, rw e at (pair c d h k)))

pub xor_back : (c d : ℕ) → c < 256 → d < 256 → bit_xor (bit_xor c d) c ≡ d
unfolding pair_ok
xor_back c d h k = ==→eq (bit_xor (bit_xor c d) c) d (ground (arith, pair c d h k))
