-- ===== src/PageCache/Refine.antt =====
-- The page cache gives the bytes of the story file.
use jzip.Prelude.{
  ℕ, ◌+◌, ◌*◌, ◌/◌, ◌%◌, ◌<◌, ◌≤◌, ◌≡◌, ◌≢◌, ◌∙◌, ◌⊎◌, inl, inr, refl, sym, ap, arith, Bool, false,
  not, ◌&&◌, leb, ◌==◌, if◌then◌else◌, Bool-cases, ==→eq, ne→not_==, eq→==, Option, some, List, [],
  ◌∷◌, ◌++◌, length,
}
use jzip.Machine.{update, page_size}
use jzip.PageCache.{
  File, Cache, Stop, read_page, search_chain, invalidate, load_page, move_to_front, update_cache,
  find_page, load_code_page, load_data_page, byte_of, code_byte, data_byte,
}

-- A translation buffer with a page has a pointer to an entry of that page.
abbrev pub Points : (ℕ → ℕ) → ℕ → Option ℕ → Type 0
Points page_number current cachep =
    current ≢ 0 → (p : ℕ) × (cachep ≡ some p) × (page_number p ≡ current)

-- Each entry with a page holds the file's bytes.
abbrev pub Held : File → (ℕ → ℕ) → (ℕ → ℕ → ℕ) → Type 0
Held file page_number bytes =
    (p i : ℕ)
    → page_number p ≢ 0
    → i < page_size
    → page_number p * page_size + i < file.size
    → bytes p i ≡ file.byte (page_number p * page_size + i)

-- The entries hold the file's bytes, and the translation buffers are right.
pub record IsValid (file : File) (c : Cache) : Type 0 where
  pub held : Held file c.page_number c.bytes
  pub chain : 1 ≤ length c.cache
  pub code : Points c.page_number c.current_code_page c.current_code_cachep
  pub data' : Points c.page_number c.current_data_page c.current_data_cachep

-- Why the search stopped.
abbrev Reason : Cache → ℕ → Stop → Type 0
Reason c page s =
    (length s.behind ≡ 0) ⊎ ((c.page_number s.cachep ≡ 0) ⊎ (c.page_number s.cachep ≡ page))

search_chain-Reason :
    (c : Cache) (page : ℕ) (before : List ℕ) (cachep : ℕ) (rest : List ℕ)
    → Reason c page (search_chain c page before cachep rest)
unfolding search_chain
search_chain-Reason c page before cachep [] = inl refl
search_chain-Reason c page before cachep (next ∷ rest) =
    elim (Bool-cases (c.page_number cachep == 0)) [
      | inl z ↦ rw z (inr (inl (==→eq _ _ z)))
      | inr nz ↦ elim (Bool-cases (c.page_number cachep == page)) [
        | inl e ↦ rw (nz, e) (inr (inr (==→eq _ _ e)))
        | inr ne ↦ rw (nz, ne) (search_chain-Reason c page (before ++ (cachep ∷ [])) next rest)
      ]
    ]

-- Where the entry is not the last one in use, no translation buffer with a page points to it.
entry_lem :
    (c : Cache) (page : ℕ) (s : Stop) (current : ℕ)
    → Reason c page s
    → (c.page_number s.cachep == page) ≡ false
    → invalidate
        (length s.behind == 0 && not (c.page_number s.cachep == 0))
        (c.page_number s.cachep)
        current
      ≢ 0
    → (current ≢ 0) × (c.page_number s.cachep ≢ current)
unfolding invalidate
entry_lem c page s current (inl end) other nz = ground arith
entry_lem c page s current (inr (inl empty)) other nz = ground arith
entry_lem c page s current (inr (inr same)) other nz = ground arith

invalidate-same :
    (reused : Bool) (page current : ℕ)
    → invalidate reused page current ≢ 0
    → invalidate reused page current ≡ current
unfolding invalidate
invalidate-same reused page current nz = elim (Bool-cases (reused && current == page)) [
  | inl is ↦ absurd (nz (rw is refl))
  | inr is_not ↦ rw is_not refl
]

update-other : (f : ℕ → ℕ) (p q x : ℕ) → q ≢ p → update f p x q ≡ f q
update-other f p q x ne = rw (ne→not_== _ _ ne) refl

update-same : (f : ℕ → ℕ) (p x : ℕ) → update f p x p ≡ x
update-same f p x = rw (eq→== p p refl) refl

-- A translation buffer stays right when an entry is loaded with another page.
Points-load :
    (c : Cache) (page : ℕ) (s : Stop) (current : ℕ) (cachep : Option ℕ)
    → Reason c page s
    → (c.page_number s.cachep == page) ≡ false
    → Points c.page_number current cachep
    → Points
        (update c.page_number s.cachep page)
        (invalidate
          (length s.behind == 0 && not (c.page_number s.cachep == 0))
          (c.page_number s.cachep)
          current)
        cachep
Points-load c page s current cachep why other points nz =
    let lem = entry_lem c page s current why other nz in
    let found = points lem.0 in
    (
      found.0,
      found.1,
      update-other c.page_number s.cachep found.0 page
            (λ e. lem.1 (ap c.page_number (sym e) ∙ found.2))
          ∙ (found.2 ∙ sym (invalidate-same _ _ current nz)),
    )

pub read_page-byte :
    (file : File) (page : ℕ) (buffer : ℕ → ℕ) (i : ℕ)
    → i < page_size
    → page * page_size + i < file.size
    → read_page file page buffer i ≡ file.byte (page * page_size + i)
unfolding read_page
read_page-byte file page buffer i small inside = ground arith

pub Held-load :
    (file : File) (page q : ℕ) (page_number : ℕ → ℕ) (bytes : ℕ → ℕ → ℕ)
    → Held file page_number bytes
    → Held file
        (update page_number q page)
        (λ p. if p == q then read_page file page (bytes q) else bytes p)
Held-load file page q page_number bytes held p i = elim (Bool-cases (p == q)) [
  | inl it ↦ rw it (λ nz small inside. read_page-byte file page (bytes q) i small inside)
  | inr other ↦ rw other (held p i)
]

load_page-IsValid :
    (file : File) (page : ℕ) (s : Stop) (c : Cache)
    → Reason c page s
    → IsValid file c
    → IsValid file (load_page file page s c)
unfolding load_page
load_page-IsValid file page s c why v = elim (Bool-cases (c.page_number s.cachep == page)) [
  | inl same ↦ rw same v
  | inr other ↦ rw other (record {
    held = Held-load file page s.cachep c.page_number c.bytes v.held;
    chain = v.chain;
    code = Points-load c page s _ _ why other v.code;
    data' = Points-load c page s _ _ why other v.data';
  })
]

load_page-page :
    (file : File) (page : ℕ) (s : Stop) (c : Cache)
    → (load_page file page s c).page_number s.cachep ≡ page
unfolding load_page
load_page-page file page s c = elim (Bool-cases (c.page_number s.cachep == page)) [
  | inl same ↦ rw same (==→eq _ _ same)
  | inr other ↦ rw other (update-same c.page_number s.cachep page)
]

move_to_front-IsValid :
    (file : File) (s : Stop) (c : Cache) → IsValid file c → IsValid file (move_to_front s c)
unfolding move_to_front
move_to_front-IsValid file s c v = elim (Bool-cases (leb 2 (length s.before))) [
  | inl far ↦ rw far (record { held = v.held; chain = omega arith; code = v.code; data' = v.data' })
  | inr near ↦ rw near v
]

-- What a cached page promises: the caches is right and the pointer's entry holds the page.
abbrev pub Finds : File → ℕ → Cache × Option ℕ → Type 0
Finds file page found =
    IsValid file found.0 × ((p : ℕ) × (found.1 ≡ some p) × (found.0.page_number p ≡ page))

move_to_front-page : (s : Stop) (c : Cache) → (move_to_front s c).page_number ≡ c.page_number
unfolding move_to_front
move_to_front-page s c = elim (Bool-cases (leb 2 (length s.before))) [
  | inl far ↦ rw far refl
  | inr near ↦ rw near refl
]

stop-Finds :
    (file : File) (page : ℕ) (s : Stop) (c : Cache)
    → Reason c page s
    → IsValid file c
    → Finds file page (move_to_front s (load_page file page s c), some s.cachep)
stop-Finds file page s c why v = (
  move_to_front-IsValid file s _ (load_page-IsValid file page s c why v),
  (
    s.cachep,
    refl,
    ap (λ f. f s.cachep) (move_to_front-page s (load_page file page s c))
        ∙ load_page-page file page s c,
  ),
)

find_page-Finds :
    (file : File) (page : ℕ) (c : Cache) (chain : List ℕ)
    → 1 ≤ length chain
    → IsValid file c
    → Finds file page (find_page file page c chain)
unfolding find_page
find_page-Finds file page c [] full v = absurd (omega arith)
find_page-Finds file page c (cachep ∷ rest) full v =
    stop-Finds file page (search_chain c page [] cachep rest) c
      (search_chain-Reason c page [] cachep rest) v

-- The entry that is returned holds the page, and the buffers stay right.
update_cache-Finds :
    (file : File) (page : ℕ) (c : Cache)
    → IsValid file c
    → Finds file page (update_cache file page c)
unfolding update_cache
update_cache-Finds file page c v = find_page-Finds file page c c.cache v.chain v

-- What a read of a page's byte gives.
abbrev pub Reads : File → ℕ → Cache × Option ℕ → Type 0
Reads file addr r = IsValid file r.0 × (r.1 ≡ some (file.byte addr))

byte_of-Points :
    (file : File) (addr : ℕ) (c : Cache) (current : ℕ) (cachep : Option ℕ)
    → page_size ≤ addr
    → addr < file.size
    → Held file c.page_number c.bytes
    → current ≡ addr / page_size
    → Points c.page_number current cachep
    → byte_of cachep (addr % page_size) c ≡ some (file.byte addr)
unfolding byte_of
byte_of-Points file addr c current cachep low high held e points =
    let (p, at, holds) = points (omega arith) in
    let place : c.page_number p * page_size + addr % page_size ≡ addr = omega arith in
    rw at (
      ap some
        (held p (addr % page_size) (omega arith) (omega arith) (omega arith) ∙ ap file.byte place))

load_code_page-IsValid :
    (file : File) (page : ℕ) (c : Cache)
    → IsValid file c
    → IsValid file (load_code_page file page c)
      × ((load_code_page file page c).current_code_page ≡ page)
unfolding load_code_page
load_code_page-IsValid file page c v = elim (Bool-cases (page == c.current_code_page)) [
  | inl same ↦ rw same (v, sym (==→eq _ _ same))
  | inr other ↦
      let found = update_cache-Finds file page c v in
      rw other (
        record {
          held = found.0.held;
          chain = found.0.chain;
          code = λ _. found.1;
          data' = found.0.data';
        },
        refl,
      )
]

load_data_page-IsValid :
    (file : File) (page : ℕ) (c : Cache)
    → IsValid file c
    → IsValid file (load_data_page file page c)
      × ((load_data_page file page c).current_data_page ≡ page)
unfolding load_data_page
load_data_page-IsValid file page c v = elim (Bool-cases (page == c.current_data_page)) [
  | inl same ↦ rw same (v, sym (==→eq _ _ same))
  | inr other ↦
      let found = update_cache-Finds file page c v in
      rw other (
        record {
          held = found.0.held;
          chain = found.0.chain;
          code = found.0.code;
          data' = λ _. found.1;
        },
        refl,
      )
]

-- The translation buffer and the chain give the file's byte at any address above the first page, and
-- stay right: the code's fatal error of a page that is not there does not occur.
pub code_byte-Reads :
    (file : File) (pc : ℕ) (c : Cache)
    → page_size ≤ pc
    → pc < file.size
    → IsValid file c
    → Reads file pc (code_byte file pc c)
unfolding code_byte
code_byte-Reads file pc c low high v =
    let (valid, at) = load_code_page-IsValid file (pc / page_size) c v in
    (valid, byte_of-Points file pc _ _ _ low high valid.held at valid.code)

pub data_byte-Reads :
    (file : File) (addr : ℕ) (c : Cache)
    → page_size ≤ addr
    → addr < file.size
    → IsValid file c
    → Reads file addr (data_byte file addr c)
unfolding data_byte
data_byte-Reads file addr c low high v =
    let (valid, at) = load_data_page-IsValid file (addr / page_size) c v in
    (valid, byte_of-Points file addr _ _ _ low high valid.held at valid.data')
