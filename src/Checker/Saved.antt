-- ===== src/Checker/Saved.antt =====
-- `main` of ckifzs.c on the file that `save_quetzal` writes.
use jzip.Prelude.{
  ℕ, suc, ◌+◌, ◌-◌, ◌*◌, ◌%◌, ◌<◌, ◌≤◌, ◌≡◌, ◌∙◌, refl, sym, ap, arith, Bool, true, false, ltb,
  ◌==◌, if◌then◌else◌, Bool-cases, inl, inr, some, List, [], ◌∷◌, ◌++◌, length, ne→not_==, ==→eq,
  le→not_ltb,
}
use jzip.Machine.{Machine, ok}
use jzip.Quetzal.Save.{
  Game, write_word, write_long, write_chnk, file_bytes, save_quetzal, id_form, id_ifzs, id_ifhd,
  id_umem, id_cmem, id_stks,
}
use jzip.Quetzal.Words.{read_long-write_long}
use jzip.Quetzal.Memory.{HasStory}
use jzip.Quetzal.Chunks.{memory_bytes, length-memory_bytes}
use jzip.Quetzal.StackChunk.{HasCalls, stack_chunk, length-stack_chunk}
use jzip.Quetzal.File.{
  HasHeader, save_quetzal-writes, file_of, stacks_part, memory_part, header_part, padded_size,
  form_size_of, file_of-parts, write_chnk-apart, name_fits,
}
use jzip.Checker.{
  Check, running, must, read_bytes, Report, no_report, count_error_if, Scan, read_fields,
  check_header, check_memory, check_stks, check_chunk, is_legal_id, end_chunk, check_chunks,
  check_file, is_success,
}
use jzip.Checker.Accepts.{read_bytes-append, check_stack_chunk}

-- A chunk that fits into the file.
check_chunks-next :
    (fuel filelen name cklen : ℕ) (body : List ℕ) (r : Report) (s : Scan)
    → name < 0x100000000
    → is_legal_id name ≡ true
    → cklen < 0x100000000
    → 8 + cklen + cklen % 2 ≤ filelen
    → check_chunk name (record { bytes = body; cklen = cklen; filelen = filelen; report = r })
      ≡ running s
    → check_chunks (suc fuel) filelen (write_chnk name cklen ++ body) r
      ≡ end_chunk (cklen % 2) s (check_chunks fuel)
unfolding check_chunks must
check_chunks-next fuel filelen name cklen body r s small legal small' room runs =
    let some_left : (filelen == 0) ≡ false = ne→not_== filelen 0 (λ e. omega (arith, e, room)) in
    let enough : ltb filelen 8 ≡ false = le→not_ltb filelen 8 (omega (arith, room)) in
    let inside : ltb (filelen - 8) cklen ≡ false =
      le→not_ltb (filelen - 8) cklen (omega (arith, room)) in
    let pad_inside : ltb (filelen - 8 - cklen) (cklen % 2) ≡ false =
      le→not_ltb (filelen - 8 - cklen) (cklen % 2) (omega (arith, room)) in
    ap (λ b. check_chunks (suc fuel) filelen b r) (write_chnk-apart name cklen body)
    ∙ rw
        (
          some_left,
          enough,
          read_long-write_long name (write_long cklen ++ body) small,
          legal,
          read_long-write_long cklen body small',
          inside,
          pad_inside,
          runs,
        )
        refl

-- What is left of the chunk, and its pad byte.
end_chunk-ok :
    (left odd_byte filelen : ℕ) (xs pad rest : List ℕ) (r : Report)
    (next : ℕ → List ℕ → Report → Check Report)
    → length xs ≡ left
    → length pad ≡ odd_byte
    → 8 + left + odd_byte ≤ filelen
    → end_chunk odd_byte
        (record { bytes = xs ++ (pad ++ rest); cklen = left; filelen = filelen; report = r })
        next
      ≡ next (filelen - 8 - left - odd_byte) rest r
unfolding end_chunk
end_chunk-ok left odd_byte filelen xs pad rest r next e e' room =
    let inside : ltb (filelen - 8) left ≡ false =
      le→not_ltb (filelen - 8) left (omega (arith, room)) in
    let pad_inside : ltb (filelen - 8 - left) odd_byte ≡ false =
      le→not_ltb (filelen - 8 - left) odd_byte (omega (arith, room)) in
    rw
      (
        inside,
        pad_inside,
        read_bytes-append xs (pad ++ rest) left e,
        read_bytes-append pad rest odd_byte e',
      )
      refl

abbrev found : Bool → Bool → Bool → Report
found a b c = record { got_header = a; got_memory = b; got_stacks = c; errors = 0; warnings = 0 }

name_legal : (umem : Bool) → is_legal_id (if umem then id_umem else id_cmem) ≡ true
unfolding is_legal_id
name_legal true = refl
name_legal false = refl

length-pad : (k : ℕ) → length {A = ℕ} (if k % 2 == 1 then 0 ∷ [] else []) ≡ k % 2
length-pad k = elim (Bool-cases (k % 2 == 1)) [
  | inl odd ↦ rw odd (sym (==→eq (k % 2) 1 odd))
  | inr even ↦ rw even (ground arith)
]

-- A memory chunk of either kind, the first.
memory_chunk-read :
    (umem : Bool) (s : Scan)
    → s.report.got_memory ≡ false
    → check_chunk (if umem then id_umem else id_cmem) s
      ≡ running (record s { report = record s.report { got_memory = true } })
unfolding check_chunk check_memory
memory_chunk-read true s first = rw first refl
memory_chunk-read false s first = rw first refl

module _ {g : Game} {m : Machine} {frames : List ℕ} (h : HasCalls m frames) (s : HasStory g m) where
  abbrev memory : List ℕ
  memory = memory_bytes g m.story m.datap

  abbrev stacks_size : ℕ
  stacks_size = length (stack_chunk h)

  stacks-accepted :
      (fuel : ℕ)
      → check_chunks (suc (suc fuel)) (8 + stacks_size) (stacks_part g m h) (found true true false)
        ≡ running (found true true true)
  unfolding check_chunk check_stks is_legal_id check_chunks
  stacks-accepted fuel =
      let (even, short) = length-stack_chunk h in
      let read : check_chunk id_stks (record {
        bytes = stack_chunk h;
        cklen = stacks_size;
        filelen = 8 + stacks_size;
        report = found true true false;
      })
          ≡ running (record {
            bytes = [];
            cklen = 0;
            filelen = 8 + stacks_size - stacks_size;
            report = found true true true;
          }) =
        rw (check_stack_chunk h) refl in
      let left : 8 + stacks_size - stacks_size ≡ 8 = omega arith in
      check_chunks-next (suc fuel) (8 + stacks_size) id_stks stacks_size (stack_chunk h)
        (found true true false) _ (omega arith) refl (omega (arith, short)) (omega (arith, even))
        read
      ∙ ap
          (λ odd_byte.
            end_chunk odd_byte
              (record {
                bytes = [];
                cklen = 0;
                filelen = 8 + stacks_size - stacks_size;
                report = found true true true;
              })
              (check_chunks (suc fuel)))
          even
      ∙ ap
          (λ filelen.
            end_chunk 0
              (record { bytes = []; cklen = 0; filelen = filelen; report = found true true true })
              (check_chunks (suc fuel)))
          left
      ∙ end_chunk-ok 0 0 8 [] [] [] (found true true true) (check_chunks (suc fuel)) refl refl
          (omega arith)

  memory-accepted :
      (fuel : ℕ)
      → check_chunks
          (suc (suc (suc fuel)))
          (8 + padded_size g m + (8 + stacks_size))
          (memory_part g m h)
          (found true false false)
        ≡ running (found true true true)
  unfolding check_chunk check_memory
  memory-accepted fuel =
      let size : ℕ = length memory in
      let name : ℕ = if g.quetzal_use_umem then id_umem else id_cmem in
      let small : size ≤ g.h_restart_size * 2 = length-memory_bytes g m.story m.datap in
      let pad : List ℕ = if size % 2 == 1 then 0 ∷ [] else [] in
      let total : ℕ = 8 + padded_size g m + (8 + stacks_size) in
      let after : Scan = record {
        bytes = memory ++ (pad ++ stacks_part g m h);
        cklen = size;
        filelen = total;
        report = found true true false;
      } in
      let read : check_chunk name (record {
        bytes = memory ++ (pad ++ stacks_part g m h);
        cklen = size;
        filelen = total;
        report = found true false false;
      })
          ≡ running after =
        memory_chunk-read g.quetzal_use_umem _ refl in
      let left : total - 8 - size - size % 2 ≡ 8 + stacks_size = omega arith in
      check_chunks-next (suc (suc fuel)) total name size (memory ++ (pad ++ stacks_part g m h))
        (found true false false) after (name_fits g.quetzal_use_umem)
        (name_legal g.quetzal_use_umem) (omega (arith, small, s.small)) (omega arith) read
      ∙ end_chunk-ok size (size % 2) total memory pad (stacks_part g m h) (found true true false)
          (check_chunks (suc (suc fuel))) refl (length-pad size) (omega arith)
      ∙ ap (λ k. check_chunks (suc (suc fuel)) k (stacks_part g m h) (found true true false)) left
      ∙ stacks-accepted fuel

  header-accepted :
      (fuel : ℕ)
      → check_chunks
          (suc (suc (suc (suc fuel))))
          (22 + (8 + padded_size g m + (8 + stacks_size)))
          (header_part g m h)
          no_report
        ≡ running (found true true true)
  unfolding check_chunk check_header read_fields count_error_if read_bytes write_word write_long
      file_bytes is_legal_id
  header-accepted fuel =
      let rest : ℕ = 8 + padded_size g m + (8 + stacks_size) in
      let left : 22 + rest - 2 - 6 - 2 - 3 - 8 - 0 - 1 ≡ rest = omega arith in
      check_chunks-next (suc (suc (suc fuel))) (22 + rest) id_ifhd 13 _ no_report
        (record {
          bytes = (m.pc * 0x100 % 0x100) ∷ memory_part g m h;
          cklen = 0;
          filelen = 22 + rest - 2 - 6 - 2 - 3;
          report = found true false false;
        })
        (omega arith) refl (omega arith) (omega arith) refl
      ∙ end_chunk-ok 0 1 (22 + rest - 2 - 6 - 2 - 3) [] ((m.pc * 0x100 % 0x100) ∷ [])
          (memory_part g m h) (found true false false) (check_chunks (suc (suc (suc fuel)))) refl
          refl (omega arith)
      ∙ ap (λ k. check_chunks (suc (suc (suc fuel))) k (memory_part g m h) (found true false false))
          left
      ∙ memory-accepted fuel

  file-accepted : check_file (file_of g m h) ≡ running (found true true true)
  unfolding check_file must count_error_if
  file-accepted =
      let (even, short) = length-stack_chunk h in
      let small : length memory ≤ g.h_restart_size * 2 = length-memory_bytes g m.story m.datap in
      let rest : ℕ = 8 + padded_size g m + (8 + stacks_size) in
      let size : ℕ = form_size_of g m h in
      let fuel : size + 1 ≡ suc (suc (suc (suc (rest + 23)))) = omega arith in
      let left : size - 4 ≡ 22 + rest = omega arith in
      let full : (size - 4) % 2 ≡ 0 = omega (arith, even) in
      let long : ltb size 4 ≡ false = le→not_ltb size 4 (omega arith) in
      let runs : check_chunks (size + 1) (size - 4) (header_part g m h) no_report
          ≡ running (found true true true) =
        ap (λ k. check_chunks k (size - 4) (header_part g m h) no_report) fuel
        ∙ ap (λ k. check_chunks (suc (suc (suc (suc (rest + 23))))) k (header_part g m h) no_report)
            left
        ∙ header-accepted (rest + 23) in
      ap check_file (file_of-parts g m h)
      ∙ rw
          (
            read_long-write_long id_form
                (write_long size ++ (write_long id_ifzs ++ header_part g m h)) (omega arith),
            read_long-write_long size (write_long id_ifzs ++ header_part g m h)
                (omega (arith, short, small, s.small)),
            read_long-write_long id_ifzs (header_part g m h) (omega arith),
            full,
            long,
          )
          runs

-- The checker finds no fault in a file that `save_quetzal` writes: with at most 256 calls on the stack, whose
-- frames are as `z_call` makes them, it finds all three chunks, counts no error and no warning, and succeeds.
pub check_file-save_quetzal :
    (g : Game) (m : Machine) {frames : List ℕ}
    → HasCalls m frames
    → HasStory g m
    → HasHeader g m
    → (file : List ℕ) × (r : Report) × (save_quetzal g m ≡ ok (some file) m)
      × (check_file file ≡ running r)
      × (r.warnings ≡ 0)
      × (is_success r ≡ true)
unfolding is_success
check_file-save_quetzal g m h s f = (
  file_of g m h,
  found true true true,
  save_quetzal-writes g m h s f.header_in_area,
  file-accepted h s,
  refl,
  refl,
)
