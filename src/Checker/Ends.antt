-- ===== src/Checker/Ends.antt =====
-- The checker ends for every file.
use jzip.Prelude.{
  ℕ, zero, suc, ◌+◌, ◌-◌, ◌*◌, ◌/◌, ◌%◌, ◌<◌, ◌≤◌, ◌≡◌, ◌⊎◌, refl, arith, Bool, true, false, not,
  ◌||◌, ltb, leb, ◌==◌, if◌then◌else◌, inl, inr, Option, none, some, List, [], ◌∷◌,
}
use jzip.Quetzal.Stacks.{read_word, read_long}
use jzip.Quetzal.Save.{id_form, id_ifzs, id_ifhd, id_umem, id_cmem, id_stks}
use jzip.Checker.{
  Check, running, exit_failure, out_of_fuel, ◌>>=◌, must, read_bytes, Report, count_error_if,
  check_frame, check_stacks, Scan, read_fields, read_contents, check_header, check_memory,
  check_stks, check_chunk, is_legal_id, end_chunk, check_chunks, check_file,
}

-- The program ends, early or with a result of which `P` holds.
unfoldable EndsWith : {A : Type 0} → (A → Type 0) → Check A → Type 0
EndsWith P (running a) = P a
EndsWith P exit_failure = Unit
EndsWith P out_of_fuel = ⊥

abbrev Any : {A : Type 0} → A → Type 0
Any a = Unit

bind-EndsWith :
    {A B : Type 0} (P : A → Type 0) (Q : B → Type 0) (c : Check A) (k : A → Check B)
    → EndsWith P c
    → ((a : A) → P a → EndsWith Q (k a))
    → EndsWith Q (c >>= k)
unfolding EndsWith
bind-EndsWith P Q (running a) k h each = each a h
bind-EndsWith P Q exit_failure k h each = tt
bind-EndsWith P Q out_of_fuel k h each = absurd h

if-EndsWith :
    {A : Type 0} (P : A → Type 0) (b : Bool) (c d : Check A)
    → (b ≡ true → EndsWith P c)
    → (b ≡ false → EndsWith P d)
    → EndsWith P (if b then c else d)
if-EndsWith P true c d h k = h refl
if-EndsWith P false c d h k = k refl

must-EndsWith : {A : Type 0} (o : Option A) → EndsWith Any (must o)
unfolding EndsWith must
must-EndsWith none = tt
must-EndsWith (some a) = tt

read_bytes-EndsWith : (k : ℕ) (bytes : List ℕ) → EndsWith Any (read_bytes k bytes)
unfolding EndsWith read_bytes
read_bytes-EndsWith zero bytes = tt
read_bytes-EndsWith (suc k) [] = tt
read_bytes-EndsWith (suc k) (x ∷ rest) = read_bytes-EndsWith k rest

check_stacks-EndsWith :
    (fuel remaining : ℕ) (bytes : List ℕ)
    → remaining < fuel
    → EndsWith Any (check_stacks fuel remaining bytes)
unfolding check_stacks check_frame EndsWith
check_stacks-EndsWith zero remaining bytes h = absurd (omega (arith, h))
check_stacks-EndsWith (suc fuel) remaining bytes h =
    if-EndsWith Any (remaining == 0) _ _ (λ _. tt)
      (λ some_left.
        if-EndsWith Any (ltb remaining 8) _ _
          (λ _. bind-EndsWith Any Any _ _ (read_bytes-EndsWith remaining bytes) (λ _ _. tt))
          (λ enough. bind-EndsWith Any Any _ _ (must-EndsWith (read_long bytes)) (λ (flags, rest) _.
            bind-EndsWith Any Any _ _ (read_bytes-EndsWith 2 rest) (λ rest' _.
              bind-EndsWith Any Any _ _ (must-EndsWith (read_word rest'))
                (λ (stack_words, rest'') _.
                  if-EndsWith Any (ltb ((remaining - 8) / 2) (flags % 16 + stack_words)) _ _
                    (λ _.
                      bind-EndsWith Any Any _ _ (read_bytes-EndsWith (remaining - 8) rest'')
                        (λ _ _. tt))
                    (λ _.
                      bind-EndsWith Any Any _ _
                        (read_bytes-EndsWith ((flags % 16 + stack_words) * 2) rest'')
                        (λ left _.
                          check_stacks-EndsWith fuel
                            (remaining - 8 - (flags % 16 + stack_words) * 2) left
                            (ground arith))))))))

-- A scan that has not gained length.
abbrev IsWithin : ℕ → Scan → Type 0
IsWithin filelen s = s.filelen ≤ filelen

read_fields-EndsWith :
    (sizes : List ℕ) (s : Scan) (most : ℕ)
    → s.filelen ≤ most
    → EndsWith (IsWithin most) (read_fields sizes s)
unfolding read_fields EndsWith
read_fields-EndsWith [] s most h = h
read_fields-EndsWith (size ∷ sizes) s most h =
    if-EndsWith (IsWithin most) (leb size s.cklen) _ _
      (λ _.
        bind-EndsWith Any (IsWithin most) _ _ (read_bytes-EndsWith size s.bytes)
          (λ rest _. read_fields-EndsWith sizes _ most (omega (arith, h))))
      (λ _. h)

check_chunk-EndsWith : (name : ℕ) (s : Scan) → EndsWith (IsWithin s.filelen) (check_chunk name s)
unfolding check_chunk check_header check_memory check_stks read_contents EndsWith
check_chunk-EndsWith name s =
    let P : Scan → Type 0 = IsWithin s.filelen in
    let same : s.filelen ≤ s.filelen = omega arith in
    let r : Report = s.report in
    let header : Scan = record s {
      report =
          count_error_if (ltb s.cklen 13)
            (record (count_error_if (r.got_stacks || r.got_memory) r) { got_header = true });
    } in
    let less : s.filelen - s.cklen ≤ s.filelen = omega arith in
    if-EndsWith P (name == id_ifhd) _ _
      (λ _.
        if-EndsWith P s.report.got_header _ _ (λ _. same)
          (λ _. read_fields-EndsWith (2 ∷ 6 ∷ 2 ∷ 3 ∷ []) header s.filelen same))
      (λ _.
        if-EndsWith P ((name == id_cmem) || (name == id_umem)) _ _
          (λ _. if-EndsWith P s.report.got_memory _ _ (λ _. same) (λ _. same))
          (λ _.
            if-EndsWith P (name == id_stks) _ _
              (λ _.
                if-EndsWith P s.report.got_stacks _ _ (λ _. same)
                  (λ _.
                    bind-EndsWith Any P _ _
                      (check_stacks-EndsWith (s.cklen + 1) s.cklen s.bytes (omega arith))
                      (λ (whole, rest) _. less)))
              (λ _.
                if-EndsWith P (name == 0x496e7444) _ _
                  (λ _. read_fields-EndsWith (4 ∷ 1 ∷ 1 ∷ 6 ∷ []) s s.filelen same)
                  (λ _.
                    if-EndsWith P
                      ((name == 0x414e4e4f)
                        || ((name == 0x41555448) || ((name == 0x4e414d45) || (name == 0x28632920))))
                      _ _
                      (λ _.
                        bind-EndsWith Any P _ _ (read_bytes-EndsWith s.cklen s.bytes)
                          (λ rest _. less))
                      (λ _. same)))))

end_chunk-EndsWith :
    (odd_byte most : ℕ) (s : Scan) (next : ℕ → List ℕ → Report → Check Report)
    → s.filelen ≤ most
    → ((filelen : ℕ) (bytes : List ℕ) (r : Report)
        → filelen ≤ most - 8
        → EndsWith Any (next filelen bytes r))
    → EndsWith Any (end_chunk odd_byte s next)
unfolding end_chunk EndsWith
end_chunk-EndsWith odd_byte most s next h each =
    if-EndsWith Any (ltb (s.filelen - 8) s.cklen || ltb (s.filelen - 8 - s.cklen) odd_byte) _ _
      (λ _. tt)
      (λ _. bind-EndsWith Any Any _ _ (read_bytes-EndsWith s.cklen s.bytes) (λ rest _.
        bind-EndsWith Any Any _ _ (read_bytes-EndsWith odd_byte rest)
          (λ rest' _. each (s.filelen - 8 - s.cklen - odd_byte) rest' s.report (omega (arith, h)))))

check_chunks-EndsWith :
    (fuel filelen : ℕ) (bytes : List ℕ) (r : Report)
    → filelen < fuel
    → EndsWith Any (check_chunks fuel filelen bytes r)
unfolding check_chunks EndsWith
check_chunks-EndsWith zero filelen bytes r h = absurd (omega (arith, h))
check_chunks-EndsWith (suc fuel) filelen bytes r h =
    if-EndsWith Any (filelen == 0) _ _ (λ _. tt)
      (λ some_left.
        if-EndsWith Any (ltb filelen 8) _ _ (λ _. tt)
          (λ enough. bind-EndsWith Any Any _ _ (must-EndsWith (read_long bytes)) (λ (name, rest) _.
            if-EndsWith Any (not (is_legal_id name)) _ _ (λ _. tt)
              (λ _. bind-EndsWith Any Any _ _ (must-EndsWith (read_long rest)) (λ (cklen, rest') _.
                if-EndsWith Any (ltb (filelen - 8) cklen || ltb (filelen - 8 - cklen) (cklen % 2)) _
                  _ (λ _. tt)
                  (λ _.
                    bind-EndsWith (IsWithin filelen) Any _ _
                      (check_chunk-EndsWith name
                        (record { bytes = rest'; cklen = cklen; filelen = filelen; report = r }))
                      (λ s within.
                        end_chunk-EndsWith (cklen % 2) filelen s (check_chunks fuel) within
                          (λ filelen' bytes' r' less.
                            check_chunks-EndsWith fuel filelen' bytes' r' (ground arith)))))))))

check_file-EndsWith : (file : List ℕ) → EndsWith (λ _. Unit) (check_file file)
unfolding check_file EndsWith
check_file-EndsWith file =
    bind-EndsWith Any Any _ _ (must-EndsWith (read_long file)) (λ (form, rest) _.
      bind-EndsWith Any Any _ _ (must-EndsWith (if form == id_form then read_long rest else none))
        (λ (filelen, rest') _.
          bind-EndsWith Any Any _ _ (must-EndsWith (read_long rest')) (λ (type, rest'') _.
            if-EndsWith Any (not (type == id_ifzs)) _ _ (λ _. tt)
              (λ _.
                if-EndsWith Any (ltb filelen 4) _ _ (λ _. tt)
                  (λ _.
                    check_chunks-EndsWith (filelen + 1) (filelen - 4) rest'' _ (omega arith))))))

ends : (c : Check Report) → EndsWith Any c → (c ≡ exit_failure) ⊎ ((r : Report) × (c ≡ running r))
unfolding EndsWith
ends (running r) h = inr (r, refl)
ends exit_failure h = inl refl
ends out_of_fuel h = absurd h

-- The checker ends for every file: it exits early with a failure, or comes to its report.
pub check_file-ends :
    (file : List ℕ)
    → (check_file file ≡ exit_failure) ⊎ ((r : Report) × (check_file file ≡ running r))
check_file-ends file = ends (check_file file) (check_file-EndsWith file)
