-- ===== src/Verify.antt =====
-- `z_verify` of fileio.c, but for what it prints: the sum of the story file's bytes, page by page.
pub mod Sum
use jzip.Prelude.{ℕ, zero, suc, ◌+◌, ◌-◌, ◌*◌, ◌/◌, ◌%◌, ◌==◌, if◌then◌else◌}
use jzip.Machine.{M, page_size}
use jzip.Branch.{conditional_jump}
use jzip.Quetzal.Save.{Game}
use jzip.PageCache.{File, read_page}

-- `for ( j = start; j < end; j++ )`, `count` rounds.
unfoldable pub sum_buffer : ℕ → ℕ → (ℕ → ℕ) → ℕ → ℕ
sum_buffer zero j buffer checksum = checksum
sum_buffer (suc count) j buffer checksum =
    sum_buffer count (j + 1) buffer ((checksum + buffer j) % 0x10000)

-- `for ( i = 0; i <= pages; i++ )`, with the rounds that are left.
unfoldable pub sum_pages : File → ℕ → ℕ → (ℕ → ℕ) → ℕ → ℕ
unfolding sum_buffer
sum_pages file zero i buffer checksum = checksum
sum_pages file (suc rounds) i buffer checksum =
    let read : ℕ → ℕ = read_page file i buffer in
    let start : ℕ = if i == 0 then 64 else 0 in
    let end : ℕ = if i == file.size / page_size then file.size % page_size else page_size in
    sum_pages file rounds (i + 1) read (sum_buffer (end - start) start read checksum)

-- `h_file_size` counts by the story's scaler.
unfoldable pub z_verify : Game → ℕ → M (Unit {0})
unfolding sum_pages
z_verify g h_file_size m =
    let file : File = record { size = h_file_size * m.story_scaler; byte = m.story } in
    conditional_jump (sum_pages file (file.size / page_size + 1) 0 (λ _. 0) 0 == g.h_checksum) m
