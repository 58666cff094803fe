-- ===== src/PageCache/Trace.antt =====
-- Reads in a row after `load_cache` give the story file's bytes.
use jzip.Prelude.{
  ℕ, zero, suc, ◌+◌, ◌-◌, ◌*◌, ◌/◌, ◌%◌, ◌<◌, ◌≤◌, ◌≡◌, ◌∙◌, ◌⊎◌, inl, inr, refl, ap, arith, true,
  false, ltb, leb, if◌then◌else◌, ◌==◌, Bool-cases, ==→eq, Option, none, some, List, [], ◌∷◌, All,
  map,
}
use jzip.Machine.{page_size}
use jzip.PageCache.{File, Cache}
use jzip.PageCache.Refine.{IsValid, read_page-byte, code_byte-Reads, data_byte-Reads}
use jzip.PageCache.Loading.{
  Memory, Read, code, data_at, read, reads, load_cache, load_memory, calc_data_pages, load_data,
  read_data_page, first_cache, min, file_pages_of, pages_to, last_end, data_pages_of, Sizes,
}
use jzip.PageCache.First.{
  IsSettled, HasDictionary, dictionary_end, calc_data_pages-ok, first_cache-IsSettled,
  load_pages-IsSettled,
}

-- The memory is right: the resident data is the file's, at least its first page, and so is the cache.
pub record IsLoaded (file : File) (m : Memory) : Type 0 where
  pub data_of : (a : ℕ) → a < m.data_size → a < file.size → m.datap a ≡ file.byte a
  pub paged_of : IsValid file m.paged
  pub first : page_size ≤ m.data_size

-- A read in the file, of code above the first page.
abbrev pub IsInside : File → Read → Type 0
IsInside file (code pc) = (page_size ≤ pc) × (pc < file.size)
IsInside file (data_at addr) = addr < file.size

abbrev pub address : Read → ℕ
address (code pc) = pc
address (data_at addr) = addr

-- The data of a page is the file's after its turn, and stays so.
read_data_page-byte :
    (file : File) (i : ℕ) (datap : ℕ → ℕ) (a : ℕ)
    → a < file.size
    → (a / page_size ≡ i) ⊎ (datap a ≡ file.byte a)
    → read_data_page file i datap a ≡ file.byte a
unfolding read_data_page
read_data_page-byte file i datap a inside why = elim (Bool-cases (a / page_size == i)) [
  | inl here ↦
      let e = ==→eq _ _ here in
      let place : i * page_size + a % page_size ≡ a = omega arith in
      rw here (
        read_page-byte file i (λ o. datap (i * page_size + o)) (a % page_size) (omega arith)
          (omega arith)
        ∙ ap file.byte place)
  | inr other ↦ rw other (elim why [ inl e ↦ ground arith | inr e ↦ e ])
]

load_data-byte :
    (file : File) (i n : ℕ) (datap : ℕ → ℕ) (a : ℕ)
    → a < file.size
    → ((i ≤ a / page_size) × (a / page_size < i + n)) ⊎ (datap a ≡ file.byte a)
    → load_data file i n datap a ≡ file.byte a
unfolding load_data
load_data-byte file i zero datap a inside (inl between) = absurd (omega arith)
load_data-byte file i zero datap a inside (inr e) = e
load_data-byte file i (suc n) datap a inside (inr e) =
    load_data-byte file (i + 1) n _ a inside
      (inr (read_data_page-byte file i datap a inside (inr e)))
load_data-byte file i (suc n) datap a inside (inl between) =
    elim (Bool-cases (a / page_size == i)) [
      | inl here ↦
          load_data-byte file (i + 1) n _ a inside
            (inr (read_data_page-byte file i datap a inside (inl (==→eq _ _ here))))
      | inr other ↦ load_data-byte file (i + 1) n _ a inside (inl (ground arith))
    ]

pub load_memory-IsLoaded :
    (file : File) (z : Sizes) (room : ℕ) (datap : ℕ → ℕ) (data_pages : ℕ) (c : Cache)
    → 1 ≤ data_pages
    → IsSettled file c
    → IsLoaded file (load_memory file z room datap data_pages c)
unfolding load_memory
load_memory-IsLoaded file z room datap data_pages c some_page h = record {
  data_of = λ a low inside. load_data-byte file 0 data_pages datap a inside (inl (omega arith));
  paged_of =
      (load_pages-IsSettled file data_pages (min room (file_pages_of z - data_pages)) c h).valid;
  first = omega arith;
}

-- What the header's sizes promise: there is data, and the dictionary, where the data is to reach to its
-- end, is found through the cache.
pub record HasSizes (file : File) (z : Sizes) : Type 0 where
  pub some_data : 1 ≤ z.h_data_size
  pub dictionary : z.config_max_data ≡ true → HasDictionary file z.h_words_offset

abbrev higher : ℕ → ℕ → ℕ
higher a b = if leb a b then b else a

-- What has to be resident: the header's data and, with `CONFIG_MAX_DATA`, the dynamic memory and the
-- dictionary.
abbrev pub resident_end : File → Sizes → ℕ
resident_end file z =
    if z.config_max_data
    then higher (higher z.h_data_size z.h_restart_size) (dictionary_end file z.h_words_offset)
    else z.h_data_size

-- The data area is that in whole pages, and none too many.
abbrev pub Covers : ℕ → ℕ → Type 0
Covers data_size end = (end ≤ data_size) × (data_size < end + page_size)

pages_to-Covers : (end : ℕ) → Covers (pages_to end * page_size) end
unfolding pages_to
pages_to-Covers end = (omega arith, omega arith)

last_end-Covers :
    (z : Sizes) (end : ℕ)
    → Covers (last_end z end * page_size) (higher (higher z.h_data_size z.h_restart_size) end)
unfolding last_end pages_to
last_end-Covers z end = (ground arith, ground arith)

last_end-some : (z : Sizes) (end : ℕ) → 1 ≤ z.h_data_size → 1 ≤ last_end z end
unfolding last_end pages_to
last_end-some z end h = ground arith

-- The count of data pages, with the cache that is left.
load_cache-load_memory :
    (file : File) (z : Sizes) (room : ℕ) (datap : ℕ → ℕ) (heap : ℕ → ℕ → ℕ) (pages : ℕ) (c : Cache)
    → data_pages_of file z (first_cache heap) ≡ (c, some pages)
    → load_cache file z room datap heap ≡ some (load_memory file z room datap pages c)
unfolding load_cache
load_cache-load_memory file z room datap heap pages c e =
    ap
      (λ (found : Cache × Option ℕ). elim found.1 as (λ _. Option Memory) [
        | none ↦ none
        | some data_pages ↦ some (load_memory file z room datap data_pages found.0)
      ])
      e

data_pages_of-max :
    (file : File) (z : Sizes) (c : Cache)
    → z.config_max_data ≡ true
    → data_pages_of file z c ≡ calc_data_pages file z c
unfolding data_pages_of
data_pages_of-max file z c max =
    ap (λ b. if b then calc_data_pages file z c else (c, some (pages_to z.h_data_size))) max

data_pages_of-plain :
    (file : File) (z : Sizes) (c : Cache)
    → z.config_max_data ≡ false
    → data_pages_of file z c ≡ (c, some (pages_to z.h_data_size))
unfolding data_pages_of
data_pages_of-plain file z c plain =
    ap (λ b. if b then calc_data_pages file z c else (c, some (pages_to z.h_data_size))) plain

pub load_cache-IsLoaded :
    (file : File) (z : Sizes) (room : ℕ) (datap : ℕ → ℕ) (heap : ℕ → ℕ → ℕ)
    → HasSizes file z
    → (m : Memory) × (load_cache file z room datap heap ≡ some m)
      × IsLoaded file m
      × Covers m.data_size (resident_end file z)
unfolding load_memory last_end
load_cache-IsLoaded file z room datap heap h = elim (Bool-cases z.config_max_data) [
  | inl max ↦
      let end : ℕ = dictionary_end file z.h_words_offset in
      let pages : ℕ = last_end z end in
      let (c, settled, calc) =
        calc_data_pages-ok file z (first_cache heap) (h.dictionary max) refl
          (first_cache-IsSettled file heap) in
      (
        load_memory file z room datap pages c,
        load_cache-load_memory file z room datap heap pages c
            (data_pages_of-max file z (first_cache heap) max ∙ calc),
        load_memory-IsLoaded file z room datap pages c (last_end-some z end h.some_data) settled,
        rw max (last_end-Covers z end),
      )
  | inr plain ↦ (
    load_memory file z room datap (pages_to z.h_data_size) (first_cache heap),
    load_cache-load_memory file z room datap heap (pages_to z.h_data_size) (first_cache heap)
        (data_pages_of-plain file z (first_cache heap) plain),
    load_memory-IsLoaded file z room datap (pages_to z.h_data_size) (first_cache heap)
        (ground (arith, h.some_data)) (first_cache-IsSettled file heap),
    rw plain (pages_to-Covers z.h_data_size),
  )
]

-- On a memory that is right, with entries and translation buffers that hold what the file has, a read of
-- code or data inside the file gives the file's byte at its address, without `fatal`, and leaves the
-- memory right, whatever entry is reused for it.
pub read-byte :
    (file : File) (r : Read) (m : Memory)
    → IsLoaded file m
    → IsInside file r
    → IsLoaded file (read file r m).0 × ((read file r m).1 ≡ some (file.byte (address r)))
unfolding read
read-byte file (code pc) m v inside =
    let (valid, e) = code_byte-Reads file pc m.paged inside.0 inside.1 v.paged_of in
    (record { data_of = v.data_of; paged_of = valid; first = v.first }, e)
read-byte file (data_at addr) m v inside = elim (Bool-cases (ltb addr m.data_size)) [
  | inl resident ↦ rw resident (v, ap some (v.data_of addr (ground arith) inside))
  | inr paged ↦
      let (valid, e) = data_byte-Reads file addr m.paged (ground arith) inside v.paged_of in
      rw paged (record { data_of = v.data_of; paged_of = valid; first = v.first }, e)
]

reads-bytes :
    (file : File) (rs : List Read) (m : Memory)
    → IsLoaded file m
    → All (IsInside file) rs
    → reads file rs m ≡ map (λ r. some (file.byte (address r))) rs
unfolding reads
reads-bytes file [] m v inside = refl
reads-bytes file (r ∷ rest) m v inside =
    let (v', e) = read-byte file r m v inside.0 in
    rw (e, reads-bytes file rest (read file r m).0 v' inside.1) refl

-- Where `malloc` gives the first entry and the data area, `load_cache` does not call `fatal`, and after it reads of code and data in any order and number give
-- the bytes of the story file at their addresses, however few entries `malloc` gave the cache: none
-- calls `fatal`. The resident data is whole pages, as few
-- as reach to the end of the header's data and, with `CONFIG_MAX_DATA`, where `calc_data_pages`
-- reads the dictionary through the cache, also to that of the dynamic memory and of the dictionary.
-- The reads lie in the file, those of code above its first
-- page, the header's data size is not 0, and with `CONFIG_MAX_DATA` the dictionary's header lies
-- above the first page and in the file.
pub load_cache-reads :
    (file : File) (z : Sizes) (room : ℕ) (datap : ℕ → ℕ) (heap : ℕ → ℕ → ℕ) (rs : List Read)
    → HasSizes file z
    → All (IsInside file) rs
    → (m : Memory) × (load_cache file z room datap heap ≡ some m)
      × Covers m.data_size (resident_end file z)
      × (reads file rs m ≡ map (λ r. some (file.byte (address r))) rs)
load_cache-reads file z room datap heap rs sizes inside =
    let (m, e, loaded, resident) = load_cache-IsLoaded file z room datap heap sizes in
    (m, e, resident, reads-bytes file rs m loaded inside)
