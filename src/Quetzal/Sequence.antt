-- ===== src/Quetzal/Sequence.antt =====
-- The chunks of a saved game, read one after another by `restore_quetzal`.
use jzip.Prelude.{
  ℕ, zero, suc, ◌+◌, ◌-◌, ◌%◌, ◌<◌, ◌≤◌, ◌≡◌, ◌∙◌, refl, ap, arith, false, ltb, ◌==◌, if◌then◌else◌,
  Bool-cases, inl, inr, Option, some, List, [], ◌∷◌, ◌++◌, ne→not_==, ==→eq, le→not_ltb,
}
use jzip.Machine.{Machine, M, ok, pure}
use jzip.Quetzal.{drop}
use jzip.Quetzal.Save.{Game, write_long, write_chnk}
use jzip.Quetzal.Restore.{Progress, Loaded, restore_chunk, next_chunk, restore_chunks}
use jzip.Quetzal.Words.{read_long-write_long}
use jzip.Quetzal.File.{write_chnk-apart}

-- A chunk that is read, its pad byte behind it.
pub next_chunk-ok :
    (g : Game) (ifzslen name currlen : ℕ) (progress progress' : Progress) (body padded : List ℕ)
    (next : ℕ → Loaded → M (Option Loaded)) (n n' : Machine)
    → name < 0x100000000
    → currlen < 0x100000000
    → 8 + currlen + currlen % 2 ≤ ifzslen
    → restore_chunk g progress name currlen body n
      ≡ ok (some (record { progress = progress'; behind = padded })) n'
    → next_chunk g ifzslen
        (record { progress = progress; behind = write_chnk name currlen ++ body })
        next
        n
      ≡ next
          (ifzslen - 8 - currlen - currlen % 2)
          (record { progress = progress'; behind = drop (currlen % 2) padded })
          n'
unfolding next_chunk
next_chunk-ok g ifzslen name currlen progress progress' body padded next n n' small small' room
      runs =
    let enough : ltb ifzslen 8 ≡ false = le→not_ltb ifzslen 8 (omega (arith, room)) in
    let inside : ltb (ifzslen - 8) currlen ≡ false =
      le→not_ltb (ifzslen - 8) currlen (omega (arith, room)) in
    let pad_inside : ltb (ifzslen - 8 - currlen) (currlen % 2) ≡ false =
      le→not_ltb (ifzslen - 8 - currlen) (currlen % 2) (omega (arith, room)) in
    ap (λ b. next_chunk g ifzslen (record { progress = progress; behind = b }) next n)
      (write_chnk-apart name currlen body)
    ∙ rw
        (
          enough,
          read_long-write_long name (write_long currlen ++ body) small,
          read_long-write_long currlen body small',
          inside,
          pad_inside,
          runs,
        )
        refl

pub restore_chunks-next :
    (g : Game) (fuel ifzslen : ℕ) (l : Loaded)
    → 0 < ifzslen
    → restore_chunks g (suc fuel) ifzslen l ≡ next_chunk g ifzslen l (restore_chunks g fuel)
unfolding restore_chunks
restore_chunks-next g fuel ifzslen l h = rw (ne→not_== ifzslen 0 (λ e. omega (arith, e, h))) refl

pub restore_chunks-end :
    (g : Game) (fuel : ℕ) (l : Loaded) → restore_chunks g (suc fuel) 0 l ≡ pure (some l)
unfolding restore_chunks
restore_chunks-end g fuel l = refl

pub drop_nil : (k : ℕ) → drop k [] ≡ []
drop_nil zero = refl
drop_nil (suc k) = refl

pub drop_pad :
    (k : ℕ) (rest : List ℕ) → drop (k % 2) ((if k % 2 == 1 then 0 ∷ [] else []) ++ rest) ≡ rest
drop_pad k rest = elim (Bool-cases (k % 2 == 1)) [
  | inl odd ↦ let e : k % 2 ≡ 1 = ==→eq (k % 2) 1 odd in rw e refl
  | inr even ↦ let e : k % 2 ≡ 0 = ground arith in rw e refl
]
