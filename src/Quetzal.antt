-- ===== src/Quetzal.antt =====
-- The compressed memory of a saved game (quetzal.c): the data area against the story file, with runs of
-- equal bytes.
pub mod Compress
pub mod Stacks
pub mod Save
pub mod Words
pub mod Overflow
pub mod File
pub mod Sequence
pub mod StackReading
pub mod RoundTrip
pub mod Chunks
pub mod Memory
pub mod StackChunk
pub mod CallStack
pub mod Reading
pub mod Frames
pub mod Restore
pub mod Safety
use jzip.Prelude.{ℕ, zero, suc, ◌+◌, ◌-◌, bit_xor, ltb, ◌==◌, if◌then◌else◌, List, [], ◌∷◌, ◌++◌}

-- The loop that writes a run of `j` bytes, 256 at most in each `write_run`: a 0 and the run less 1.
-- A run of `j` bytes takes fewer than `j` rounds.
unfoldable pub write_runs : ℕ → ℕ → List ℕ
write_runs zero j = []
write_runs (suc fuel) j =
    if j == 0
    then []
    else if ltb 0x100 j
    then 0 ∷ 0xff ∷ write_runs fuel (j - 0x100)
    else 0 ∷ (j - 1) ∷ []

-- The bytes of the chunk for the story's bytes and the data area's, with a run of `j` pending. A run
-- at the end is not written.
unfoldable pub encode : ℕ → List ℕ → List ℕ → List ℕ
encode j [] data' = []
encode j (c ∷ story) [] = []
encode j (c ∷ story) (d ∷ data') =
    if bit_xor c d == 0
    then encode (j + 1) story data'
    else write_runs j j ++ (bit_xor c d ∷ encode 0 story data')

abbrev pub drop : ℕ → List ℕ → List ℕ
drop zero xs = xs
drop (suc n) [] = []
drop (suc n) (x ∷ xs) = drop n xs
