-- ===== src/PageCache.antt =====
-- The page cache (memory.c) over the story file (`read_page` of fileio.c): a chain of entries, kept
-- about in the order of their last use, and the two translation buffers.
pub mod Refine
pub mod Loading
pub mod First
pub mod Trace
use jzip.Prelude.{
  ℕ, zero, suc, ◌+◌, ◌-◌, ◌*◌, ◌/◌, ◌%◌, Bool, true, false, not, ◌&&◌, ◌||◌, ltb, leb, ◌==◌,
  if◌then◌else◌, Option, none, some, List, [], ◌∷◌, ◌++◌, length,
}
use jzip.Machine.{update, page_size}

-- The story file, of the size that its header gives.
pub record File : Type 0 where
  pub size : ℕ
  pub byte : ℕ → ℕ

-- The statics of memory.c. An entry is a pointer: `page_number` and `bytes` are the fields of the
-- entries by pointer, and `cache` is the chain along `flink`. A null pointer is `none`.
pub record Cache : Type 0 where
  pub cache : List ℕ
  pub page_number : ℕ → ℕ
  pub bytes : ℕ → ℕ → ℕ
  pub current_code_page : ℕ
  pub current_code_cachep : Option ℕ
  pub current_data_page : ℕ
  pub current_data_cachep : Option ℕ

-- The buffer after a page is read: what lies behind the end of the file stays as it was.
unfoldable pub read_page : File → ℕ → (ℕ → ℕ) → ℕ → ℕ
read_page file page buffer i =
    if ltb i page_size && ltb (page * page_size + i) file.size
    then file.byte (page * page_size + i)
    else buffer i

-- Where the search of the chain stops: the entries before, the entry and those behind it.
pub record Stop : Type 0 where
  pub before : List ℕ
  pub cachep : ℕ
  pub behind : List ℕ

-- The search ends at the last entry, at one of page 0, and at the page.
unfoldable pub search_chain : Cache → ℕ → List ℕ → ℕ → List ℕ → Stop
search_chain c page before cachep [] = record { before = before; cachep = cachep; behind = [] }
search_chain c page before cachep (next ∷ rest) =
    if c.page_number cachep == 0 || c.page_number cachep == page
    then record { before = before; cachep = cachep; behind = next ∷ rest }
    else search_chain c page (before ++ (cachep ∷ [])) next rest

-- A translation buffer that holds the page of the last entry is made invalid where that entry is
-- reused.
unfoldable pub invalidate : Bool → ℕ → ℕ → ℕ
invalidate reused page current = if reused && current == page then 0 else current

-- The page is read into the entry, if it is not there.
unfoldable pub load_page : File → ℕ → Stop → Cache → Cache
load_page file page s c =
    if c.page_number s.cachep == page
    then c
    else let reused = length s.behind == 0 && not (c.page_number s.cachep == 0) in
      record c {
        current_code_page = invalidate reused (c.page_number s.cachep) c.current_code_page;
        current_data_page = invalidate reused (c.page_number s.cachep) c.current_data_page;
        page_number = update c.page_number s.cachep page;
        bytes = λ p. if p == s.cachep then read_page file page (c.bytes s.cachep) else c.bytes p;
      }

-- `lastp` is the entry before, and the first where there is none: the entry moves to the front unless
-- it is the first or the second.
unfoldable pub move_to_front : Stop → Cache → Cache
move_to_front s c =
    if leb 2 (length s.before) then record c { cache = s.cachep ∷ (s.before ++ s.behind) } else c

-- `update_cache` on a chain, with the pointer that it returns; none where the chain is empty, which the
-- code does not expect.
unfoldable pub find_page : File → ℕ → Cache → List ℕ → Cache × Option ℕ
unfolding search_chain load_page move_to_front invalidate
find_page file page c [] = (c, none)
find_page file page c (cachep ∷ rest) =
    let s = search_chain c page [] cachep rest in
    (move_to_front s (load_page file page s c), some s.cachep)

unfoldable pub update_cache : File → ℕ → Cache → Cache × Option ℕ
unfolding find_page
update_cache file page c = find_page file page c c.cache

-- The code page of `pc` in the translation buffer.
unfoldable pub load_code_page : File → ℕ → Cache → Cache
unfolding update_cache
load_code_page file page c =
    if page == c.current_code_page
    then c
    else let found = update_cache file page c in
      record found.0 { current_code_cachep = found.1; current_code_page = page }

unfoldable pub load_data_page : File → ℕ → Cache → Cache
unfolding update_cache
load_data_page file page c =
    if page == c.current_data_page
    then c
    else let found = update_cache file page c in
      record found.0 { current_data_cachep = found.1; current_data_page = page }

-- The byte at an offset of the page of a pointer; none for the null pointer, where the code calls
-- `fatal`.
unfoldable pub byte_of : Option ℕ → ℕ → Cache → Option ℕ
byte_of none offset c = none
byte_of (some p) offset c = some (c.bytes p offset)

-- `read_code_byte` at `pc`, and the paged part of `read_data_byte` at an address.
unfoldable pub code_byte : File → ℕ → Cache → Cache × Option ℕ
unfolding load_code_page byte_of
code_byte file pc c =
    let c' = load_code_page file (pc / page_size) c in
    (c', byte_of c'.current_code_cachep (pc % page_size) c')

unfoldable pub data_byte : File → ℕ → Cache → Cache × Option ℕ
unfolding load_data_page byte_of
data_byte file addr c =
    let c' = load_data_page file (addr / page_size) c in
    (c', byte_of c'.current_data_cachep (addr % page_size) c')
