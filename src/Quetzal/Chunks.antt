-- ===== src/Quetzal/Chunks.antt =====
-- The header chunk and the two kinds of memory chunk of a saved game, written and read.
use jzip.Prelude.{
  ℕ, zero, suc, ◌+◌, ◌-◌, ◌*◌, ◌/◌, ◌%◌, ◌<◌, ◌≤◌, ◌≡◌, ◌∙◌, refl, ap, arith, Bool, true, false,
  not, ◌&&◌, ltb, ◌==◌, if◌then◌else◌, Bool-cases, inl, inr, Option, none, some, List, [], ◌∷◌,
  ◌++◌, length, length-append, eq→==, ne→not_==, lt→ltb, ltb→lt, bit_xor, le→not_ltb,
}
use jzip.Machine.{Machine, M, ok, pure, update, get_byte}
use jzip.Quetzal.{encode, write_runs, drop}
use jzip.Quetzal.Stacks.{read_word, get_c, try}
use jzip.Quetzal.Save.{
  Game, write_word, write_long, get_bytes, file_bytes, write_memory, id_umem, id_cmem,
}
use jzip.Quetzal.Restore.{
  Progress, Loaded, match_release, skip_header, set_pc, restore_pc, restore_header, read_area,
  read_element, restore_umem, restore_chunk,
}
use jzip.Quetzal.Words.{read_word-write_word}
use jzip.Quetzal.Memory.{HasStory, UpTo, encode-ok, set-ok, UpTo-update}

if_then : {A : Type 0} (b : Bool) (x y : A) → b ≡ true → (if b then x else y) ≡ x
if_then b x y h = rw h refl

pub get_bytes-ok :
    (k a : ℕ) (m : Machine) → a + k ≤ m.data_size → get_bytes k a m ≡ ok (file_bytes k a m.datap) m
unfolding get_bytes file_bytes get_byte
get_bytes-ok zero a m h = refl
get_bytes-ok (suc k) a m h =
    rw (lt→ltb a m.data_size (omega (arith, h)), get_bytes-ok k (a + 1) m (omega (arith, h))) refl

length-file_bytes : (k a : ℕ) (t : ℕ → ℕ) → length (file_bytes k a t) ≡ k
unfolding file_bytes
length-file_bytes zero a t = refl
length-file_bytes (suc k) a t = omega (arith, length-file_bytes k (a + 1) t)

abbrev pub memory_bytes : Game → (ℕ → ℕ) → (ℕ → ℕ) → List ℕ
memory_bytes g story datap =
    let area : List ℕ = file_bytes g.h_restart_size 0 datap in
    if g.quetzal_use_umem then area else encode 0 (file_bytes g.h_restart_size 0 story) area

length-write_runs : (fuel j : ℕ) → length (write_runs fuel j) ≤ j * 2
unfolding write_runs
length-write_runs zero j = omega arith
length-write_runs (suc fuel) j = elim (Bool-cases (j == 0)) [
  | inl empty ↦ rw empty (omega arith)
  | inr some_left ↦ elim (Bool-cases (ltb 0x100 j)) [
    | inl long ↦
        rw (some_left, long)
          (omega (arith, length-write_runs fuel (j - 0x100), ltb→lt 0x100 j long))
    | inr short ↦ rw (some_left, short) (ground arith)
  ]
]

length-encode : (j : ℕ) (cs ds : List ℕ) → length (encode j cs ds) ≤ (j + length ds) * 2
unfolding encode
length-encode j [] ds = omega arith
length-encode j (c ∷ cs) [] = omega arith
length-encode j (c ∷ cs) (d ∷ ds) = elim (Bool-cases (bit_xor c d == 0)) [
  | inl equal ↦ rw equal (omega (arith, length-encode (j + 1) cs ds))
  | inr differ ↦ rw differ (
      omega (
        arith,
        length-append (write_runs j j) (bit_xor c d ∷ encode 0 cs ds),
        length-write_runs j j,
        length-encode 0 cs ds,
      ))
]

pub length-memory_bytes :
    (g : Game) (story datap : ℕ → ℕ) → length (memory_bytes g story datap) ≤ g.h_restart_size * 2
length-memory_bytes g story datap =
    let area : List ℕ = file_bytes g.h_restart_size 0 datap in
    let size = length-file_bytes g.h_restart_size 0 datap in
    elim (Bool-cases g.quetzal_use_umem) [
      | inl umem ↦ rw umem (omega (arith, size))
      | inr cmem ↦
          rw cmem (omega (arith, length-encode 0 (file_bytes g.h_restart_size 0 story) area, size))
    ]

pub write_memory-ok :
    (g : Game) (m : Machine)
    → HasStory g m
    → write_memory g m ≡ ok (some (memory_bytes g m.story m.datap)) m
unfolding write_memory
write_memory-ok g m s =
    rw
      (
        get_bytes-ok g.h_restart_size 0 m (omega (arith, s.in_area)),
        le→not_ltb g.story_size g.h_restart_size s.in_story,
      )
      (elim (Bool-cases g.quetzal_use_umem) [ inl umem ↦ rw umem refl | inr cmem ↦ rw cmem refl ])

-- A read of some bytes is that of the element.
read_area-element :
    (n i : ℕ) (bytes : List ℕ) (next : Bool → List ℕ → M (Option Loaded))
    → 1 ≤ n
    → read_area n i bytes next ≡ read_element n i bytes next
unfolding read_area
read_area-element n i bytes next h = rw (ne→not_== n 0 (omega arith)) refl

module _ {g : Game} {n : Machine} {t : ℕ → ℕ} (s : HasStory g n) (bytes : (a : ℕ) → t a < 256) where
  read_element-ok :
      (k i : ℕ) (rest : List ℕ) (next : Bool → List ℕ → M (Option Loaded)) (d : ℕ → ℕ)
      → i + k ≡ g.h_restart_size
      → UpTo t n.datap i d
      → (d' : ℕ → ℕ) × UpTo t n.datap g.h_restart_size d'
        × (read_element k i (file_bytes k i t ++ rest) next (record n { datap = d })
            ≡ next true rest (record n { datap = d' }))
  unfolding read_element file_bytes
  read_element-ok zero i rest next d e u =
      let e' : i ≡ g.h_restart_size = omega (arith, e) in (d, rw⁻¹ e' u, refl)
  read_element-ok (suc k) i rest next d e u =
      let (d', u', runs) =
        read_element-ok k (i + 1) rest next (update d i (t i)) (omega (arith, e))
          (UpTo-update t n.datap i (t i) d refl u) in
      (d', u', rw (set-ok s bytes i (t i) d refl (omega (arith, e))) runs)

  -- The memory chunk of either kind gives the data area below the restart size.
  pub restore_memory-ok :
      (progress : Progress) (rest : List ℕ)
      → progress.got_memory ≡ false
      → 1 ≤ g.h_restart_size
      → (d : ℕ → ℕ) × UpTo t n.datap g.h_restart_size d
        × (restore_chunk g progress
              (if g.quetzal_use_umem then id_umem else id_cmem)
              (length (memory_bytes g n.story t))
              (memory_bytes g n.story t ++ rest)
              n
            ≡ ok
                (some (record { progress = record progress { got_memory = true }; behind = rest }))
                (record n { datap = d }))
  unfolding restore_chunk restore_umem
  restore_memory-ok progress rest first some_memory =
      let start : UpTo t n.datap 0 n.datap = record {
        done = λ a h. absurd (omega (arith, h));
        still = λ a h. refl;
      } in
      let size : ℕ = g.h_restart_size in
      elim (Bool-cases g.quetzal_use_umem) [
        | inl umem ↦
            let area : List ℕ = file_bytes size 0 t in
            let (d, u, runs) =
              read_element-ok size 0 rest
                (λ whole rest'. pure (
                  some (record {
                    progress = if whole then record progress { got_memory = true } else progress;
                    behind = if whole then rest' else drop size rest';
                  })))
                n.datap (omega arith) start in
            let go : (not progress.got_memory && (size == size)) ≡ true =
              rw (first, eq→== size size refl) refl in
            let chunk : memory_bytes g n.story t ≡ area = rw umem refl in
            let name : (if g.quetzal_use_umem then id_umem else id_cmem) ≡ id_umem = rw umem refl in
            (
              d,
              u,
              ap
                    (λ k.
                      restore_chunk g progress k (length (memory_bytes g n.story t))
                        (memory_bytes g n.story t ++ rest) n)
                    name
                  ∙ ap (λ b. restore_chunk g progress id_umem (length b) (b ++ rest) n) chunk
                  ∙ ap (λ k. restore_chunk g progress id_umem k (area ++ rest) n)
                      (length-file_bytes size 0 t)
                  ∙ ap (λ (run : M (Option Loaded)). run n) (if_then _ _ _ go)
                  ∙ ap (λ (run : M (Option Loaded)). run n)
                      (read_area-element size 0 (area ++ rest) _ some_memory)
                  ∙ runs,
            )
        | inr cmem ↦
            let body : List ℕ = encode 0 (file_bytes size 0 n.story) (file_bytes size 0 t) in
            let (d, u, runs) =
              encode-ok s bytes size 0 0 0 progress rest n.datap (omega arith) (omega arith)
                (λ a low high. absurd (omega (arith, high))) start in
            let go : not progress.got_memory ≡ true = rw first refl in
            let chunk : memory_bytes g n.story t ≡ body = rw cmem refl in
            let name : (if g.quetzal_use_umem then id_umem else id_cmem) ≡ id_cmem = rw cmem refl in
            (
              d,
              u,
              ap
                    (λ k.
                      restore_chunk g progress k (length (memory_bytes g n.story t))
                        (memory_bytes g n.story t ++ rest) n)
                    name
                  ∙ ap (λ b. restore_chunk g progress id_cmem (length b) (b ++ rest) n) chunk
                  ∙ ap (λ (run : M (Option Loaded)). run n) (if_then _ _ _ go)
                  ∙ runs,
            )
      ]

-- The release number and the serial number of the same story.
match_release-ok :
    (k i : ℕ) (rest : List ℕ) (next : Bool → List ℕ → M (Option Loaded)) (m n : Machine)
    → i + k ≤ n.data_size
    → ((a : ℕ) → i ≤ a → a < i + k → n.datap a ≡ m.datap a)
    → match_release k i true (file_bytes k i m.datap ++ rest) next n ≡ next true rest n
unfolding match_release file_bytes get_byte
match_release-ok zero i rest next m n fits same = refl
match_release-ok (suc k) i rest next m n fits same =
    let here : n.datap i ≡ m.datap i = same i (omega arith) (omega arith) in
    rw (lt→ltb i n.data_size (omega (arith, fits)), here, eq→== (m.datap i) (m.datap i) refl)
      (match_release-ok k (i + 1) rest next m n (omega (arith, fits))
        (λ a low high. same a (omega (arith, low)) (omega (arith, high))))

restore_pc-ok :
    (progress : Progress) (rest : List ℕ) (m n : Machine)
    → m.pc < 0x1000000
    → restore_pc progress 13 (write_long (m.pc * 0x100) ++ rest) n
      ≡ ok
          (some (record { progress = record progress { got_header = true }; behind = 0 ∷ rest }))
          (record n { pc = m.pc })
unfolding restore_pc write_long skip_header set_pc try get_c
restore_pc-ok progress rest m n pc =
    let value : m.pc * 0x100 / 0x1000000 % 0x100 * 0x10000
          + m.pc * 0x100 / 0x10000 % 0x100 * 0x100
          + m.pc * 0x100 / 0x100 % 0x100
        ≡ m.pc =
      omega (arith, pc) in
    let pad : m.pc * 0x100 % 0x100 ≡ 0 = omega arith in rw (value, pad) refl

-- The header chunk of the same story gives the program counter; the pad byte is left.
pub restore_header-ok :
    (g : Game) (progress : Progress) (rest : List ℕ) (m n : Machine)
    → progress.got_header ≡ false
    → g.h_version < 0x10000
    → g.h_checksum < 0x10000
    → m.pc < 0x1000000
    → 24 ≤ n.data_size
    → ((a : ℕ) → 18 ≤ a → a < 24 → n.datap a ≡ m.datap a)
    → restore_header g progress 13
        (write_word g.h_version
          ++ (file_bytes 6 18 m.datap
              ++ (write_word g.h_checksum ++ (write_long (m.pc * 0x100) ++ rest))))
        n
      ≡ ok
          (some (record { progress = record progress { got_header = true }; behind = 0 ∷ rest }))
          (record n { pc = m.pc })
unfolding restore_header restore_pc skip_header set_pc try get_c
restore_header-ok g progress rest m n first version checksum pc fits same =
    let next : Bool → List ℕ → M (Option Loaded) = λ good rest'.
      try (read_word rest') (λ checksum rest''.
        if good && (checksum == g.h_checksum) then restore_pc progress 13 rest'' else pure none) in
    rw
      (
        first,
        read_word-write_word g.h_version
            (file_bytes 6 18 m.datap
              ++ (write_word g.h_checksum ++ (write_long (m.pc * 0x100) ++ rest)))
            version,
        eq→== g.h_version g.h_version refl,
        match_release-ok 6 18 (write_word g.h_checksum ++ (write_long (m.pc * 0x100) ++ rest)) next
            m n fits (λ a low high. same a low high),
        read_word-write_word g.h_checksum (write_long (m.pc * 0x100) ++ rest) checksum,
        eq→== g.h_checksum g.h_checksum refl,
      )
      (restore_pc-ok progress rest m n pc)
