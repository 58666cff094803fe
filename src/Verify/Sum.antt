-- ===== src/Verify/Sum.antt =====
-- `z_verify` sums all bytes of the story file behind the header.
use jzip.Prelude.{
  ℕ, zero, suc, ◌+◌, ◌-◌, ◌*◌, ◌/◌, ◌%◌, ◌<◌, ◌≤◌, ◌≡◌, ◌∙◌, refl, sym, ap, arith, false, ◌==◌,
  ==→eq, Bool-cases, inl, inr, eq→==, ne→not_==,
}
use jzip.Machine.{Machine, page_size}
use jzip.Branch.{conditional_jump}
use jzip.Quetzal.Save.{Game}
use jzip.PageCache.{File, read_page}
use jzip.PageCache.Refine.{read_page-byte}
use jzip.Verify.{sum_buffer, sum_pages, z_verify}

-- The sum of `count` bytes from `a` on.
unfoldable pub byte_sum : ℕ → ℕ → (ℕ → ℕ) → ℕ
byte_sum zero a story = 0
byte_sum (suc count) a story = story a + byte_sum count (a + 1) story

byte_sum-add :
    (m n a : ℕ) (story : ℕ → ℕ)
    → byte_sum (m + n) a story ≡ byte_sum m a story + byte_sum n (a + m) story
unfolding byte_sum
byte_sum-add zero n a story =
    let e : 0 + n ≡ n = omega arith in let e' : a + 0 ≡ a = omega arith in rw (e, e') (omega arith)
byte_sum-add (suc m) n a story =
    let e : suc m + n ≡ suc (m + n) = omega arith in
    let e' : a + suc m ≡ a + 1 + m = omega arith in
    rw (e, e') (omega (arith, byte_sum-add m n (a + 1) story))

sum_buffer-byte_sum :
    (count j base checksum : ℕ) (buffer story : ℕ → ℕ)
    → ((i : ℕ) → j ≤ i → i < j + count → buffer i ≡ story (base + i))
    → sum_buffer count j buffer (checksum % 0x10000)
      ≡ (checksum + byte_sum count (base + j) story) % 0x10000
unfolding sum_buffer byte_sum
sum_buffer-byte_sum zero j base checksum buffer story same = omega arith
sum_buffer-byte_sum (suc count) j base checksum buffer story same =
    let here : buffer j ≡ story (base + j) = same j (omega arith) (omega arith) in
    let once : (checksum % 0x10000 + buffer j) % 0x10000 ≡ (checksum + buffer j) % 0x10000 =
      omega arith in
    let next : base + (j + 1) ≡ base + j + 1 = omega arith in
    rw once (
      sum_buffer-byte_sum count (j + 1) base (checksum + buffer j) buffer story
        (λ i low high. same i (omega (arith, low)) (omega (arith, high)))
      ∙ rw (here, next) (omega arith))

zero_plus : (a : ℕ) → 0 + a ≡ a
zero_plus a = omega arith

plus_assoc : (a b c : ℕ) → a + b + c ≡ a + (b + c)
plus_assoc a b c = omega arith

module _ (file : File) where
  abbrev pages : ℕ
  pages = file.size / page_size

  page-same :
      (i start count : ℕ) (buffer : ℕ → ℕ)
      → start + count ≤ page_size
      → i * page_size + (start + count) ≤ file.size
      → (j : ℕ) → start ≤ j
      → j < start + count
      → read_page file i buffer j ≡ file.byte (i * page_size + j)
  page-same i start count buffer small inside j low high =
      read_page-byte file i buffer j (omega (arith, small, high)) (omega (arith, inside, high))

  -- The pages behind the first.
  sum_pages-byte_sum :
      (rounds i checksum : ℕ) (buffer : ℕ → ℕ)
      → 0 < i
      → i + rounds ≡ pages
      → sum_pages file (suc rounds) i buffer (checksum % 0x10000)
        ≡ (checksum + byte_sum (file.size - i * page_size) (i * page_size) file.byte) % 0x10000
  unfolding sum_pages
  sum_pages-byte_sum zero i checksum buffer pos e =
      let last : i ≡ pages = omega (arith, e) in
      let first : (i == 0) ≡ false = ne→not_== i 0 (λ e. omega (arith, e, pos)) in
      let size : file.size - i * page_size ≡ file.size % page_size = omega (arith, e) in
      let all : file.size % page_size - 0 ≡ file.size % page_size = omega arith in
      let from : i * page_size + 0 ≡ i * page_size = omega arith in
      rw (first, eq→== i pages last, all, size)
        (sum_buffer-byte_sum (file.size % page_size) 0 (i * page_size) checksum
            (read_page file i buffer) file.byte
            (page-same i 0 (file.size % page_size) buffer (omega arith) (omega (arith, e)))
          ∙ rw from refl)
  sum_pages-byte_sum (suc rounds) i checksum buffer pos e =
      let later : 0 < i + 1 = omega arith in
      let rounds_left : i + 1 + rounds ≡ pages = omega (arith, e) in
      let first : (i == 0) ≡ false = ne→not_== i 0 (λ e. omega (arith, e, pos)) in
      let not_last : (i == pages) ≡ false = ne→not_== i pages (λ e'. omega (arith, e, e')) in
      let all : page_size - 0 ≡ page_size = omega arith in
      let from : i * page_size + 0 ≡ i * page_size = omega arith in
      let size : file.size - i * page_size ≡ page_size + (file.size - (i + 1) * page_size) =
        omega (arith, e) in
      let next : i * page_size + page_size ≡ (i + 1) * page_size = omega arith in
      let sum : ℕ = byte_sum page_size (i * page_size) file.byte in
      let here =
        sum_buffer-byte_sum page_size 0 (i * page_size) checksum (read_page file i buffer) file.byte
          (page-same i 0 page_size buffer (omega arith) (omega (arith, e))) in
      let once : sum_buffer page_size 0 (read_page file i buffer) (checksum % 0x10000)
          ≡ (checksum + sum) % 0x10000 =
        here ∙ ap (λ a. (checksum + byte_sum page_size a file.byte) % 0x10000) from in
      let rest =
        sum_pages-byte_sum rounds (i + 1) (checksum + sum) (read_page file i buffer) later
          rounds_left in
      let total : byte_sum (page_size + (file.size - (i + 1) * page_size)) (i * page_size) file.byte
          ≡ sum + byte_sum (file.size - (i + 1) * page_size) ((i + 1) * page_size) file.byte =
        byte_sum-add page_size (file.size - (i + 1) * page_size) (i * page_size) file.byte
        ∙ ap (λ a. sum + byte_sum (file.size - (i + 1) * page_size) a file.byte) next in
      let sums : checksum
            + sum
            + byte_sum (file.size - (i + 1) * page_size) ((i + 1) * page_size) file.byte
          ≡ checksum + byte_sum (file.size - i * page_size) (i * page_size) file.byte =
        plus_assoc checksum sum
          (byte_sum (file.size - (i + 1) * page_size) ((i + 1) * page_size) file.byte)
        ∙ ap (λ k. checksum + k)
            (sym total ∙ ap (λ k. byte_sum k (i * page_size) file.byte) (sym size)) in
      rw (first, not_last, all, once) (rest ∙ ap (λ k. k % 0x10000) sums)

  first_page :
      (rounds : ℕ)
      → (0 == pages) ≡ false
      → sum_pages file (suc rounds) 0 (λ _. 0) 0
        ≡ sum_pages file rounds 1
            (read_page file 0 (λ _. 0))
            (sum_buffer 448 64 (read_page file 0 (λ _. 0)) 0)
  unfolding sum_pages
  first_page rounds more = rw more refl

  -- All pages, the first without the header.
  all_pages :
      64 ≤ file.size
      → sum_pages file (pages + 1) 0 (λ _. 0) 0 ≡ byte_sum (file.size - 64) 64 file.byte % 0x10000
  unfolding sum_pages
  all_pages enough = elim (Bool-cases (0 == pages)) [
    | inl one ↦
        let rounds : pages + 1 ≡ 1 = omega (arith, ==→eq 0 pages one) in
        let size : file.size % page_size - 64 ≡ file.size - 64 = omega (arith, ==→eq 0 pages one) in
        let buffer : ℕ → ℕ = read_page file 0 (λ _. 0) in
        let sum = sum_buffer-byte_sum (file.size - 64) 64 0 0 buffer file.byte (
          page-same 0 64 (file.size - 64) (λ _. 0) (omega (arith, enough, ==→eq 0 pages one))
            (omega (arith, enough))) in
        ap (λ k. sum_pages file k 0 (λ _. 0) 0) rounds
        ∙ rw (one, size)
            (sum ∙ ap (λ k. k % 0x10000) (zero_plus (byte_sum (file.size - 64) 64 file.byte)))
    | inr more ↦
        let some_pages : 0 < pages = ground (arith, more) in
        let rounds : pages + 1 ≡ suc (suc (pages - 1)) = omega (arith, some_pages) in
        let rounds_left : 1 + (pages - 1) ≡ pages = omega (arith, some_pages) in
        let size : file.size - 64 ≡ 448 + (file.size - 1 * page_size) = omega (arith, some_pages) in
        let inside : 0 * page_size + (64 + 448) ≤ file.size = omega (arith, some_pages) in
        let buffer : ℕ → ℕ = read_page file 0 (λ _. 0) in
        let first : ℕ = byte_sum 448 64 file.byte in
        let rest = sum_pages-byte_sum (pages - 1) 1 (0 + first) buffer (omega arith) rounds_left in
        let sum =
          sum_buffer-byte_sum 448 64 0 0 buffer file.byte
            (page-same 0 64 448 (λ _. 0) (omega arith) inside) in
        let behind : ℕ = byte_sum (file.size - 1 * page_size) (1 * page_size) file.byte in
        let sums : 0 + first + behind ≡ byte_sum (file.size - 64) 64 file.byte =
          ap (λ k. k + behind) (zero_plus first)
          ∙ sym (byte_sum-add 448 (file.size - 1 * page_size) 64 file.byte)
          ∙ ap (λ k. byte_sum k 64 file.byte) (sym size) in
        ap (λ k. sum_pages file k 0 (λ _. 0) 0) rounds
        ∙ first_page (suc (pages - 1)) more
        ∙ ap (sum_pages file (suc (pages - 1)) 1 buffer) sum
        ∙ rest
        ∙ ap (λ k. k % 0x10000) sums
  ]

-- `z_verify` branches on whether the sum of all bytes of the story file behind its header of 64 bytes, cut to 16
-- bits, is the checksum of the header.
pub z_verify-byte_sum :
    (g : Game) (h_file_size : ℕ) (m : Machine)
    → 64 ≤ h_file_size * m.story_scaler
    → z_verify g h_file_size m
      ≡ conditional_jump
          (byte_sum (h_file_size * m.story_scaler - 64) 64 m.story % 0x10000 == g.h_checksum)
          m
unfolding z_verify
z_verify-byte_sum g h_file_size m enough =
    ap (λ k. conditional_jump (k == g.h_checksum) m)
      (all_pages (record { size = h_file_size * m.story_scaler; byte = m.story }) enough)
