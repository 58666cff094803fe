-- ===== src/PageCache/First.antt =====
-- `load_cache` while the chain has its first entry only, as `calc_data_pages` reads the dictionary.
use jzip.Prelude.{
  ℕ, zero, suc, ◌/◌, ◌+◌, ◌*◌, ◌%◌, ◌<◌, ◌≤◌, ◌≡◌, ◌≢◌, ◌∙◌, inl, inr, refl, sym, ap, arith, ◌==◌,
  Bool-cases, Bool, some, Option, ◌&&◌, ne→not_==, [], ◌∷◌,
}
use jzip.Machine.{update, page_size}
use jzip.PageCache.{
  File, Cache, Stop, invalidate, load_page, find_page, update_cache, load_data_page, data_byte,
}
use jzip.PageCache.Refine.{IsValid, Points, Held-load, data_byte-Reads}
use jzip.PageCache.Loading.{
  Sizes, then_byte, last_end, calc_data_pages, push_page, load_pages, first_cache,
}

-- No code was read, and the data translation buffer points to the first entry if it has a page.
pub record IsSettled (file : File) (c : Cache) : Type 0 where
  pub valid : IsValid file c
  pub no_code : c.current_code_page ≡ 0
  pub at_first : c.current_data_page ≢ 0 → c.current_data_cachep ≡ some 0

load_page-cache :
    (file : File) (page : ℕ) (s : Stop) (c : Cache) → (load_page file page s c).cache ≡ c.cache
unfolding load_page
load_page-cache file page s c = elim (Bool-cases (c.page_number s.cachep == page)) [
  | inl same ↦ rw same refl
  | inr other ↦ rw other refl
]

invalidate-zero : (reused : Bool) (page : ℕ) → invalidate reused page 0 ≡ 0
unfolding invalidate
invalidate-zero reused page = elim (Bool-cases (reused && 0 == page)) [
  | inl is ↦ rw is refl
  | inr is_not ↦ rw is_not refl
]

load_page-no_code :
    (file : File) (page : ℕ) (s : Stop) (c : Cache)
    → c.current_code_page ≡ 0
    → (load_page file page s c).current_code_page ≡ 0
unfolding load_page
load_page-no_code file page s c no_code = elim (Bool-cases (c.page_number s.cachep == page)) [
  | inl same ↦ rw same no_code
  | inr other ↦ rw (other, no_code, invalidate-zero _ _) refl
]

update_cache-first :
    (file : File) (page : ℕ) (c : Cache)
    → c.cache ≡ 0 ∷ []
    → update_cache file page c
      ≡ (load_page file page (record { before = []; cachep = 0; behind = [] }) c, some 0)
unfolding update_cache find_page jzip.PageCache.search_chain jzip.PageCache.move_to_front
update_cache-first file page c only = ap (find_page file page c) only

-- A read of data leaves the one entry.
pub load_data_page-first :
    (file : File) (page : ℕ) (c : Cache)
    → c.cache ≡ 0 ∷ []
    → c.current_code_page ≡ 0
    → (c.current_data_page ≢ 0 → c.current_data_cachep ≡ some 0)
    → let c' = load_data_page file page c in
      (c'.cache ≡ 0 ∷ [])
      × (c'.current_code_page ≡ 0)
      × (c'.current_data_page ≢ 0 → c'.current_data_cachep ≡ some 0)
unfolding load_data_page
load_data_page-first file page c only no_code at_first =
    elim (Bool-cases (page == c.current_data_page)) [
      | inl same ↦ rw same (only, no_code, at_first)
      | inr other ↦
          rw (other, update_cache-first file page c only)
            (
              load_page-cache file page (record { before = []; cachep = 0; behind = [] }) c ∙ only,
              load_page-no_code file page (record { before = []; cachep = 0; behind = [] }) c
                  no_code,
              λ _. refl,
            )
    ]

data_byte-IsSettled :
    (file : File) (addr : ℕ) (c : Cache)
    → page_size ≤ addr
    → addr < file.size
    → c.cache ≡ 0 ∷ []
    → IsSettled file c
    → ((data_byte file addr c).0.cache ≡ 0 ∷ [])
      × IsSettled file (data_byte file addr c).0
      × ((data_byte file addr c).1 ≡ some (file.byte addr))
unfolding data_byte
data_byte-IsSettled file addr c low high only h =
    let (valid, value) = data_byte-Reads file addr c low high h.valid in
    let (only', no_code, at_first) =
      load_data_page-first file (addr / page_size) c only h.no_code h.at_first in
    (only', record { valid = valid; no_code = no_code; at_first = at_first }, value)

then_byte-ok :
    (file : File) (addr : ℕ) (c : Cache)
    → page_size ≤ addr
    → addr < file.size
    → c.cache ≡ 0 ∷ []
    → IsSettled file c
    → (c' : Cache) × (c'.cache ≡ 0 ∷ [])
      × IsSettled file c'
      × ((next : ℕ → Cache → Cache × Option ℕ)
          → then_byte file addr next c ≡ next (file.byte addr) c')
unfolding then_byte
then_byte-ok file addr c low high only h =
    let (only', h', value) = data_byte-IsSettled file addr c low high only h in
    ((data_byte file addr c).0, only', h', λ next. rw (value, then_byte) refl)

-- The end of the dictionary in the story file: the word separators, the size of an entry, the number
-- of entries and the entries.
abbrev pub entry_size_at : File → ℕ → ℕ
entry_size_at file words = words + 1 + file.byte words

abbrev pub dictionary_end : File → ℕ → ℕ
dictionary_end file words =
    let at = entry_size_at file words in
    at + 3 + file.byte at * ((file.byte (at + 1) * 256 + file.byte (at + 2)) % 0x10000)

-- The dictionary's header lies behind the first page and in the file.
pub record HasDictionary (file : File) (words : ℕ) : Type 0 where
  pub behind_first : page_size ≤ words
  pub in_file : entry_size_at file words + 2 < file.size

pub calc_data_pages-ok :
    (file : File) (z : Sizes) (c : Cache)
    → HasDictionary file z.h_words_offset
    → c.cache ≡ 0 ∷ []
    → IsSettled file c
    → (c' : Cache) × IsSettled file c'
      × (calc_data_pages file z c ≡ (c', some (last_end z (dictionary_end file z.h_words_offset))))
unfolding calc_data_pages
calc_data_pages-ok file z c d only h =
    let words : ℕ = z.h_words_offset in
    let at : ℕ = entry_size_at file words in
    let finish : ℕ → ℕ → ℕ → Cache → Cache × Option ℕ =
      λ size hi lo c. (c, some (last_end z (at + 3 + size * ((hi * 256 + lo) % 0x10000)))) in
    let (c1, o1, h1, e1) =
      then_byte-ok file words c d.behind_first (omega (arith, d.in_file)) only h in
    let (c2, o2, h2, e2) =
      then_byte-ok file at c1 (omega (arith, d.behind_first)) (omega (arith, d.in_file)) o1 h1 in
    let (c3, o3, h3, e3) =
      then_byte-ok file (at + 1) c2 (omega (arith, d.behind_first)) (omega (arith, d.in_file)) o2
        h2 in
    let (c4, o4, h4, e4) =
      then_byte-ok file (at + 2) c3 (omega (arith, d.behind_first)) d.in_file o3 h3 in
    let size : ℕ = file.byte at in
    (
      c4,
      h4,
      e1 (λ count. then_byte file (words + 1 + count) (λ size.
            then_byte file (words + 1 + count + 1) (λ hi.
              then_byte file (words + 1 + count + 2) (λ lo c. (
                c,
                some (last_end z (words + 1 + count + 3 + size * ((hi * 256 + lo) % 0x10000))),
              )))))
          ∙ (e2 (λ size. then_byte file (at + 1) (λ hi. then_byte file (at + 2) (finish size hi)))
              ∙ (e3 (λ hi. then_byte file (at + 2) (finish size hi))
                  ∙ e4 (finish size (file.byte (at + 1))))),
    )

pub first_cache-IsSettled : (file : File) (heap : ℕ → ℕ → ℕ) → IsSettled file (first_cache heap)
first_cache-IsSettled file heap = record {
  valid = record {
    held = λ p i nz. absurd (nz refl);
    chain = omega arith;
    code = λ nz. absurd (nz refl);
    data' = λ nz. absurd (nz refl);
  };
  no_code = refl;
  at_first = λ nz. absurd (nz refl);
}

-- A new entry is not the one that the data translation buffer points to.
Points-push :
    (page_number : ℕ → ℕ) (current cachep i : ℕ) (pointer : Option ℕ)
    → (current ≢ 0 → pointer ≡ some 0)
    → Points page_number current pointer
    → Points (update page_number (suc cachep) i) current pointer
Points-push page_number current cachep i pointer at_first points nz =
    let (p, here, holds) = points nz in
    let same : some p ≡ some 0 = sym here ∙ at_first nz in
    let first : p ≡ 0 = cc in
    (0, at_first nz, rw (ne→not_== 0 (suc cachep) (omega arith), ← first) holds)

push_page-IsSettled :
    (file : File) (i cachep : ℕ) (c : Cache)
    → IsSettled file c
    → IsSettled file (push_page file i (suc cachep) c)
unfolding push_page
push_page-IsSettled file i cachep c h = record {
  valid = record {
    held = Held-load file i (suc cachep) c.page_number c.bytes h.valid.held;
    chain = omega arith;
    code = λ nz. absurd (nz h.no_code);
    data' = Points-push c.page_number _ cachep i _ h.at_first h.valid.data';
  };
  no_code = h.no_code;
  at_first = h.at_first;
}

pub load_pages-IsSettled :
    (file : File) (i n : ℕ) (c : Cache) → IsSettled file c → IsSettled file (load_pages file i n c)
unfolding load_pages
load_pages-IsSettled file i zero c h = h
load_pages-IsSettled file i (suc n) c h =
    load_pages-IsSettled file (i + 1) n (push_page file i (i + 1) c)
      (rw next at (push_page-IsSettled file i i c h))
  where
    next : suc i ≡ i + 1
    next = omega arith
