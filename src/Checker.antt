-- ===== src/Checker.antt =====
-- The checker of saved games, ckifzs.c, built without its dumps: `check_stacks` and `main` on the bytes of a
-- file that is open, but for what is printed. `exit_failure` is a call of `exit( EXIT_FAILURE )` before the
-- end.
pub mod Ends
pub mod Accepts
pub mod Saved
use jzip.Prelude.{
  ℕ, zero, suc, ◌+◌, ◌-◌, ◌*◌, ◌/◌, ◌%◌, Bool, true, false, not, ◌&&◌, ◌||◌, ltb, leb, ◌==◌,
  if◌then◌else◌, Option, none, some, List, [], ◌∷◌, length,
}
use jzip.Quetzal.Stacks.{read_word, read_long, get_c}
use jzip.Quetzal.Save.{id_form, id_ifzs, id_ifhd, id_umem, id_cmem, id_stks}

pub data Check (A : Type 0) : Type 0 where
  running : A → Check A
  exit_failure : Check A
  out_of_fuel : Check A

module _ {A B : Type 0} where
  infixl 5 ◌>>=◌
  abbrev pub ◌>>=◌ : Check A → (A → Check B) → Check B
  running a >>= k = k a
  exit_failure >>= k = exit_failure
  out_of_fuel >>= k = out_of_fuel

-- `read_byte` and the loops over it end the program where the file ends.
unfoldable pub must : {A : Type 0} → Option A → Check A
must none = exit_failure
must (some a) = running a

-- `count` calls of `read_byte`.
unfoldable pub read_bytes : ℕ → List ℕ → Check (List ℕ)
read_bytes zero bytes = running bytes
read_bytes (suc count) [] = exit_failure
read_bytes (suc count) (x ∷ rest) = read_bytes count rest

-- What was found: the bits of `status`, and the two 16-bit counts.
pub record Report : Type 0 where
  pub got_header : Bool
  pub got_memory : Bool
  pub got_stacks : Bool
  pub errors : ℕ
  pub warnings : ℕ

abbrev pub no_report : Report
no_report = record {
  got_header = false;
  got_memory = false;
  got_stacks = false;
  errors = 0;
  warnings = 0;
}

-- `++errors` and `++warnings`, where the condition holds.
unfoldable pub count_error_if : Bool → Report → Report
count_error_if b r = if b then record r { errors = (r.errors + 1) % 0x10000 } else r

unfoldable pub count_warning : Report → Report
count_warning r = record r { warnings = (r.warnings + 1) % 0x10000 }

-- The body of the loop of `check_stacks` behind the check of eight bytes: the address and the flags are
-- read as one long, then the result variable, the arguments and the number of words.
unfoldable pub check_frame :
    ℕ → List ℕ → (ℕ → List ℕ → Check (Bool × List ℕ)) → Check (Bool × List ℕ)
unfolding must read_bytes read_word read_long
check_frame remaining bytes next = do
  (flags, rest) ← must (read_long bytes)
  rest' ← read_bytes 2 rest
  (stack_words, rest'') ← must (read_word rest')
  let words : ℕ = flags % 16 + stack_words
  if ltb ((remaining - 8) / 2) words
      then (do left ← read_bytes (remaining - 8) rest''; running (false, left))
      else (do left ← read_bytes (words * 2) rest''; next (remaining - 8 - words * 2) left)

-- `check_stacks`: whether the frames fill the chunk, and the bytes behind it. A frame has eight bytes, so the
-- length is fuel enough.
unfoldable pub check_stacks : ℕ → ℕ → List ℕ → Check (Bool × List ℕ)
unfolding check_frame
check_stacks zero remaining bytes = out_of_fuel
check_stacks (suc fuel) remaining bytes =
    if remaining == 0
    then running (true, bytes)
    else if ltb remaining 8
    then (do left ← read_bytes remaining bytes; running (false, left))
    else check_frame remaining bytes (check_stacks fuel)

-- The loop of `main` within a chunk: the lengths that are left of the chunk and of the file.
pub record Scan : Type 0 where
  pub bytes : List ℕ
  pub cklen : ℕ
  pub filelen : ℕ
  pub report : Report

-- Fields of so many bytes, each read where the chunk has as many left, else the rest are not.
unfoldable pub read_fields : List ℕ → Scan → Check Scan
unfolding read_bytes
read_fields [] s = running s
read_fields (size ∷ sizes) s =
    if leb size s.cklen
    then (do
      rest ← read_bytes size s.bytes
      read_fields sizes
          (record s { bytes = rest; cklen = s.cklen - size; filelen = s.filelen - size }))
    else running s

-- The contents of a chunk that are printed.
unfoldable pub read_contents : Scan → Check Scan
unfolding read_bytes
read_contents s = do
  rest ← read_bytes s.cklen s.bytes
  running (record s { bytes = rest; cklen = 0; filelen = s.filelen - s.cklen })

-- `IFhd`: the release number, the serial number, the checksum and the program counter.
unfoldable pub check_header : Scan → Check Scan
unfolding read_fields count_error_if count_warning
check_header s =
    let r : Report = s.report in
    if r.got_header
    then running (record s { report = count_warning r })
    else let ordered : Report = count_error_if (r.got_stacks || r.got_memory) r in
      read_fields (2 ∷ 6 ∷ 2 ∷ 3 ∷ []) (record s {
        report = count_error_if (ltb s.cklen 13) (record ordered { got_header = true });
      })

-- `CMem` and `UMem`
unfoldable pub check_memory : Scan → Check Scan
unfolding count_warning
check_memory s =
    if s.report.got_memory
    then running (record s { report = count_warning s.report })
    else running (record s { report = record s.report { got_memory = true } })

-- `Stks`
unfoldable pub check_stks : Scan → Check Scan
unfolding check_stacks count_error_if count_warning
check_stks s =
    if s.report.got_stacks then running (record s { report = count_warning s.report }) else (do
      (whole, rest) ← check_stacks (s.cklen + 1) s.cklen s.bytes
      running (record {
        bytes = rest;
        cklen = 0;
        filelen = s.filelen - s.cklen;
        report = record (count_error_if (not whole) s.report) { got_stacks = true };
      }))

-- The chunks by name: `IntD`, whose fields are read; `ANNO`, `AUTH`, `NAME` and `(c) `, which are printed;
-- the others are skipped.
unfoldable pub check_chunk : ℕ → Scan → Check Scan
unfolding check_header check_memory check_stks read_fields read_contents
check_chunk name s =
    if name == id_ifhd
    then check_header s
    else if (name == id_cmem) || (name == id_umem)
    then check_memory s
    else if name == id_stks
    then check_stks s
    else if name == 0x496e7444
    then read_fields (4 ∷ 1 ∷ 1 ∷ 6 ∷ []) s
    else if (name == 0x414e4e4f)
        || ((name == 0x41555448) || ((name == 0x4e414d45) || (name == 0x28632920)))
    then read_contents s
    else running s

-- `id[i] < 0x20 || id[i] > 0x7E` for one of the four characters
abbrev is_printed : ℕ → Bool
is_printed c = not (ltb c 0x20 || ltb 0x7e c)

unfoldable pub is_legal_id : ℕ → Bool
is_legal_id name =
    is_printed (name / 0x1000000)
    && (is_printed (name / 0x10000 % 0x100)
        && (is_printed (name / 0x100 % 0x100) && is_printed (name % 0x100)))

-- What follows a chunk: the rest of it and the pad byte are skipped.
unfoldable pub end_chunk : ℕ → Scan → (ℕ → List ℕ → Report → Check Report) → Check Report
unfolding read_bytes
end_chunk odd_byte s next =
    let filelen : ℕ = s.filelen - 8 in
    if ltb filelen s.cklen || ltb (filelen - s.cklen) odd_byte then exit_failure else (do
      rest ← read_bytes s.cklen s.bytes
      rest' ← read_bytes odd_byte rest
      next (filelen - s.cklen - odd_byte) rest' s.report)

-- `while ( filelen > 0 )`: each round takes eight from the length that is left.
unfoldable pub check_chunks : ℕ → ℕ → List ℕ → Report → Check Report
unfolding must read_long is_legal_id check_chunk end_chunk
check_chunks zero filelen bytes r = out_of_fuel
check_chunks (suc fuel) filelen bytes r =
    if filelen == 0
    then running (if length bytes == 0 then r else count_warning r)
    else if ltb filelen 8
    then exit_failure
    else (do
      (name, rest) ← must (read_long bytes)
      if not (is_legal_id name) then exit_failure else (do
        (cklen, rest') ← must (read_long rest)
        let odd_byte : ℕ = cklen % 2
        if ltb (filelen - 8) cklen || ltb (filelen - 8 - cklen) odd_byte then exit_failure else (do
          s ←
              check_chunk name
                (record { bytes = rest'; cklen = cklen; filelen = filelen; report = r })
          end_chunk odd_byte s (check_chunks fuel))))

-- `main` up to the trailing data, which gives a warning.
unfoldable pub check_file : List ℕ → Check Report
unfolding must read_long check_chunks count_error_if
check_file file = do
  (form, rest) ← must (read_long file)
  (filelen, rest') ← must (if form == id_form then read_long rest else none)
  (type, rest'') ← must (read_long rest')
  if not (type == id_ifzs)
      then exit_failure
      else if ltb filelen 4
      then exit_failure
      else check_chunks (filelen + 1) (filelen - 4) rest''
          (count_error_if ((filelen - 4) % 2 == 1) no_report)

-- The end of `main`: whether it returns `EXIT_SUCCESS`, and whether it says that the file is valid.
unfoldable pub is_success : Report → Bool
is_success r = (r.got_header && (r.got_memory && r.got_stacks)) && (r.errors == 0)

unfoldable pub says_valid : Report → Bool
says_valid r = r.errors == 0
