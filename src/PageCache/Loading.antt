-- ===== src/PageCache/Loading.antt =====
-- `load_cache` of memory.c: the resident data and the first pages of the cache, and `read_data_byte` over
-- both. What `malloc` gives is an argument: the number of entries it still finds room for.
use jzip.Prelude.{
  ℕ, zero, suc, ◌+◌, ◌-◌, ◌*◌, ◌/◌, ◌%◌, Bool, ltb, leb, ◌==◌, if◌then◌else◌, Option, none, some,
  List, [], ◌∷◌,
}
use jzip.Machine.{update, page_size}
use jzip.PageCache.{File, Cache, read_page, data_byte, code_byte}

-- The statics of memory.c with the resident data; `pc` is the argument of the operations.
pub record Memory : Type 0 where
  pub datap : ℕ → ℕ
  pub data_size : ℕ
  pub paged : Cache

-- One page into the resident data.
unfoldable pub read_data_page : File → ℕ → (ℕ → ℕ) → ℕ → ℕ
unfolding read_page
read_data_page file i datap a =
    if a / page_size == i
    then read_page file i (λ o. datap (i * page_size + o)) (a % page_size)
    else datap a

-- The loop on the data pages, from the page `i`, `n` pages.
unfoldable pub load_data : File → ℕ → ℕ → (ℕ → ℕ) → ℕ → ℕ
load_data file i zero datap = datap
load_data file i (suc n) datap = load_data file (i + 1) n (read_data_page file i datap)

-- A new entry, `cachep`, of the page at the front of the chain.
unfoldable pub push_page : File → ℕ → ℕ → Cache → Cache
unfolding read_page
push_page file i cachep c = record c {
  cache = cachep ∷ c.cache;
  page_number = update c.page_number cachep i;
  bytes = λ p. if p == cachep then read_page file i (c.bytes cachep) else c.bytes p;
}

-- The loop on the pages from `i`, while `malloc` gives entries: `n` of them.
unfoldable pub load_pages : File → ℕ → ℕ → Cache → Cache
unfolding push_page
load_pages file i zero c = c
load_pages file i (suc n) c = load_pages file (i + 1) n (push_page file i (i + 1) c)

-- The chain with its first entry, and both translation buffers empty.
abbrev pub first_cache : (ℕ → ℕ → ℕ) → Cache
first_cache heap = record {
  cache = 0 ∷ [];
  page_number = λ p. 0;
  bytes = heap;
  current_code_page = 0;
  current_code_cachep = none;
  current_data_page = 0;
  current_data_cachep = none;
}

unfoldable pub min : ℕ → ℕ → ℕ
min a b = if leb a b then a else b

-- The fields of the header that `load_cache` and `calc_data_pages` read, and the size of the file.
pub record Sizes : Type 0 where
  pub config_max_data : Bool
  pub h_data_size : ℕ
  pub h_restart_size : ℕ
  pub h_words_offset : ℕ
  pub file_size : ℕ

-- `read_data_byte` while `data_size` is 0, and what is done with the byte: none where `fatal` is called.
unfoldable pub then_byte : File → ℕ → (ℕ → Cache → Cache × Option ℕ) → Cache → Cache × Option ℕ
then_byte file addr next c =
    let found = data_byte file addr c in
    elim found.1 [ none ↦ (found.0, none) | some value ↦ next value found.0 ]

unfoldable pub pages_to : ℕ → ℕ
pages_to end = (end + 511) / page_size

-- The end of the dynamic memory, or that of the dictionary where it is higher, in pages.
unfoldable pub last_end : Sizes → ℕ → ℕ
unfolding pages_to
last_end z dictionary_end =
    let data_end : ℕ =
      if ltb z.h_restart_size z.h_data_size then z.h_data_size else z.h_restart_size in
    if ltb data_end dictionary_end then pages_to dictionary_end else pages_to data_end

-- The dictionary's separators, the size of its entries and their number are read through the cache.
unfoldable pub calc_data_pages : File → Sizes → Cache → Cache × Option ℕ
unfolding then_byte last_end
calc_data_pages file z = then_byte file z.h_words_offset (λ separator_count.
    let offset : ℕ = z.h_words_offset + 1 + separator_count in
    then_byte file offset (λ word_size. then_byte file (offset + 1) (λ hi.
      then_byte file (offset + 2)
        (λ lo c. (c, some (last_end z (offset + 3 + word_size * ((hi * 256 + lo) % 0x10000))))))))

unfoldable pub data_pages_of : File → Sizes → Cache → Cache × Option ℕ
unfolding calc_data_pages pages_to
data_pages_of file z c =
    if z.config_max_data then calc_data_pages file z c else (c, some (pages_to z.h_data_size))

unfoldable pub file_pages_of : Sizes → ℕ
file_pages_of z = (z.file_size + 511) / page_size

-- The data pages, and the entries behind them.
unfoldable pub load_memory : File → Sizes → ℕ → (ℕ → ℕ) → ℕ → Cache → Memory
unfolding load_data load_pages min file_pages_of
load_memory file z room datap data_pages c = record {
  datap = load_data file 0 data_pages datap;
  data_size = data_pages * page_size;
  paged = load_pages file data_pages (min room (file_pages_of z - data_pages)) c;
}

-- `load_cache`, with the room in memory; what the memory holds before is `datap` and `heap`. It is none
-- where `fatal` is called for the dictionary. `malloc` gives the first entry and the data area.
unfoldable pub load_cache : File → Sizes → ℕ → (ℕ → ℕ) → (ℕ → ℕ → ℕ) → Option Memory
unfolding load_memory data_pages_of
load_cache file z room datap heap =
    let found = data_pages_of file z (first_cache heap) in
    elim found.1 [
      | none ↦ none
      | some data_pages ↦ some (load_memory file z room datap data_pages found.0)
    ]

-- A read of the code or of the data, at an address.
pub data Read : Type 0 where
  code : ℕ → Read
  data_at : ℕ → Read

-- `read_code_byte` and `read_data_byte`; none where they call `fatal`.
unfoldable pub read : File → Read → Memory → Memory × Option ℕ
unfolding data_byte code_byte
read file (code pc) m =
    let found = code_byte file pc m.paged in (record m { paged = found.0 }, found.1)
read file (data_at addr) m =
    if ltb addr m.data_size
    then (m, some (m.datap addr))
    else let found = data_byte file addr m.paged in (record m { paged = found.0 }, found.1)

-- The bytes of reads in a row.
unfoldable pub reads : File → List Read → Memory → List (Option ℕ)
reads file [] m = []
reads file (r ∷ rest) m = let found = read file r m in found.1 ∷ reads file rest found.0
