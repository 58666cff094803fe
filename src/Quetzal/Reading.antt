-- ===== src/Quetzal/Reading.antt =====
-- The frames that `save_quetzal` writes, read by `restore_quetzal`.
use jzip.Prelude.{
  ℕ, suc, ◌+◌, ◌-◌, ◌*◌, ◌/◌, ◌%◌, ◌^◌, ◌<◌, ◌≤◌, ◌≡◌, ◌∙◌, ◌⊎◌, refl, sym, ap, arith, true, false,
  ltb, leb, ◌==◌, if◌then◌else◌, Bool-cases, Option, some, List, ◌∷◌, ◌++◌, inl, inr, ne→not_==,
  eq→==, ltb→lt, le→not_ltb, append_assoc,
}
use jzip.Machine.{Machine, M, Run, ok, pure, stack_size, page_size, read_data_byte}
use jzip.Return.{call_function, call_procedure}
use jzip.Quetzal.Stacks.{Left, read_locals, read_frame_body, read_frame}
use jzip.Quetzal.Save.{write_word, write_long}
use jzip.Quetzal.Words.{
  read_word-write_word, read_long-write_long, cells_of, Restores, push-Restores, at_same,
  read_cells-cells_of,
}
use jzip.Quetzal.Frames.{
  IsFrame, bitmap, bitmap-counted, data_at, read_data_byte-ok, address, bytes_of,
}

fp-Restores :
    (m n : Machine) (low fp : ℕ) → Restores 0 m low n → Restores 0 m low (record n { fp = fp })
fp-Restores m n low fp r = record {
  sp_is = r.sp_is;
  cells_are = r.cells_are;
  data_size_is = r.data_size_is;
  datap_is = r.datap_is;
  story_is = r.story_is;
  count_is = r.count_is;
  pc_is = r.pc_is;
}

-- What a frame is read to: the stack down to `low`, and the frame's pointer.
abbrev IsRead : Machine → ℕ → ℕ → ℕ → List ℕ → Run (Option Left) → Type 0
IsRead m low tmp_fp currlen rest r =
    (n : Machine) × Restores 0 m low n
    × (n.fp ≡ tmp_fp)
    × (r ≡ ok (some (record { bytes = rest; currlen = currlen - (tmp_fp + 1 - low) * 2 })) n)

read_locals-IsRead :
    (y w low tmp_fp currlen : ℕ) (rest : List ℕ) (m n : Machine)
    → ((i : ℕ) → m.stack i < 0x10000)
    → w + y ≡ tmp_fp + 1 - low
    → 0 < low
    → low ≤ tmp_fp + 1
    → tmp_fp + 1 < stack_size
    → (tmp_fp + 1 - low) * 2 ≤ currlen
    → Restores 0 m (tmp_fp + 2) n
    → IsRead m low tmp_fp currlen rest (
        read_locals y
          (m.stack (tmp_fp + 1))
          currlen
          (write_word w ++ (cells_of (tmp_fp + 1 - low) tmp_fp m.stack ++ rest))
          n)
unfolding read_locals
read_locals-IsRead y w low tmp_fp currlen rest m n words e pos fits inside long r =
    let cells : ℕ = tmp_fp + 1 - low in
    let (n1, r1, pushed, f1) =
      push-Restores (m.stack (tmp_fp + 1)) (tmp_fp + 1) m n
        (at_same (tmp_fp + 2) (suc (tmp_fp + 1)) m n (omega arith) r) (omega (arith, inside)) refl
        (words (tmp_fp + 1)) in
    let k : Machine = record n1 { fp = (n1.sp + 0xffff) % 0x10000 } in
    let left : List ℕ → M (Option Left) =
      λ rest. pure (some (record { bytes = rest; currlen = currlen - cells * 2 })) in
    let (n2, r2, f2, runs) =
      read_cells-cells_of cells low tmp_fp rest left m k words (omega (arith, fits)) pos
        (omega (arith, inside)) (fp-Restores m n1 (tmp_fp + 1) ((n1.sp + 0xffff) % 0x10000) r1) in
    let total : (w + y) % 0x10000 ≡ cells = omega (arith, e, inside) in
    let room : leb n1.sp cells ≡ false = ground (arith, r1.sp_is, pos) in
    let enough : ltb currlen (cells * 2) ≡ false = le→not_ltb currlen (cells * 2) long in
    (
      n2,
      r2,
      f2 ∙ omega (arith, r1.sp_is),
      rw
          (
            pushed,
            read_word-write_word w (cells_of cells tmp_fp m.stack ++ rest)
                (omega (arith, e, inside)),
            total,
            room,
            enough,
          )
          runs,
    )

read_frame_body-IsRead :
    (y kind args low tmp_fp return_pc currlen : ℕ) (rest : List ℕ) (m n : Machine)
    → ((i : ℕ) → m.stack i < 0x10000)
    → m.stack (tmp_fp + 1) ≡ y * 256 + kind + args
    → args < 8
    → return_pc / page_size ≡ m.stack (tmp_fp + 4)
    → return_pc % page_size ≡ m.stack (tmp_fp + 3)
    → 0 < low
    → low + y ≤ tmp_fp + 1
    → tmp_fp + 4 < stack_size
    → (tmp_fp + 1 - low) * 2 ≤ currlen
    → n.fp ≡ m.stack (tmp_fp + 2)
    → Restores 0 m (tmp_fp + 5) n
    → IsRead m low tmp_fp currlen rest (
        read_frame_body y kind return_pc currlen
          (bitmap args
            ∷ (write_word (tmp_fp + 1 - low - y)
                ++ (cells_of (tmp_fp + 1 - low) tmp_fp m.stack ++ rest)))
          n)
unfolding read_frame_body
read_frame_body-IsRead y kind args low tmp_fp return_pc currlen rest m n words flags few page offset
      pos fits inside long fp r =
    let (n1, r1, pushed1, f1) =
      push-Restores (return_pc / page_size) (tmp_fp + 4) m n
        (at_same (tmp_fp + 5) (suc (tmp_fp + 4)) m n (omega arith) r) inside page
        (omega (arith, page, words (tmp_fp + 4))) in
    let (n2, r2, pushed2, f2) =
      push-Restores (return_pc % page_size) (tmp_fp + 3) m n1
        (at_same (tmp_fp + 4) (suc (tmp_fp + 3)) m n1 (omega arith) r1) (omega (arith, inside))
        offset (omega arith) in
    let fp' : n2.fp ≡ m.stack (tmp_fp + 2) = f2 ∙ f1 ∙ fp in
    let (n3, r3, pushed3, f3) =
      push-Restores n2.fp (tmp_fp + 2) m n2
        (at_same (tmp_fp + 3) (suc (tmp_fp + 2)) m n2 (omega arith) r2) (omega (arith, inside)) fp'
        (omega (arith, fp', words (tmp_fp + 2))) in
    let (k, rk, fk, runs) =
      read_locals-IsRead y (tmp_fp + 1 - low - y) low tmp_fp currlen rest m n3 words
        (omega (arith, fits)) pos (omega (arith, fits)) (omega (arith, inside)) long r3 in
    let (bit, whole) = bitmap-counted args few in
    (
      k,
      rk,
      fk,
      rw (pushed1, pushed2, pushed3, bit, eq→== (bitmap args + 1) (2 ^ args) whole, sym flags) runs,
    )

-- Both machines read the same bytes.
read_same :
    (a low : ℕ) (m n : Machine)
    → page_size ≤ m.data_size
    → Restores 0 m low n
    → read_data_byte a n ≡ ok (data_at m a) n
read_same a low m n paged r =
    read_data_byte-ok a n (rw r.data_size_is paged)
    ∙ ap (λ b. ok b n) (same (Bool-cases (ltb a m.data_size)))
  where
    same : (ltb a m.data_size ≡ true) ⊎ (ltb a m.data_size ≡ false) → data_at n a ≡ data_at m a
    same (inl h) = rw (r.data_size_is, h) (r.datap_is a (ltb→lt a m.data_size h))
    same (inr h) = rw (r.data_size_is, h) (ap (λ f. f a) r.story_is)

-- A frame that was written is read back.
pub read_frame-IsRead :
    (low tmp_fp currlen : ℕ) (rest : List ℕ) (m n : Machine)
    → ((i : ℕ) → m.stack i < 0x10000)
    → page_size ≤ m.data_size
    → (f : IsFrame m low tmp_fp) → (tmp_fp + 1 - low) * 2 + 8 ≤ currlen
    → n.fp ≡ m.stack (tmp_fp + 2)
    → Restores 0 m (tmp_fp + 5) n
    → IsRead m low tmp_fp currlen rest (read_frame currlen (bytes_of m low tmp_fp f ++ rest) n)
unfolding read_frame
read_frame-IsRead low tmp_fp currlen rest m n words paged f long fp r =
    let room : ltb n.sp 4 ≡ false = ground (arith, r.sp_is) in
    let enough : ltb currlen 8 ≡ false = le→not_ltb currlen 8 (omega (arith, long)) in
    let body_of : List ℕ =
      write_word (tmp_fp + 1 - low - f.nvars) ++ cells_of (tmp_fp + 1 - low) tmp_fp m.stack in
    let tail : List ℕ = bitmap f.args ∷ (body_of ++ rest) in
    let body : (kind : ℕ)
        → m.stack (tmp_fp + 1) ≡ f.nvars * 256 + kind + f.args
        → IsRead m low tmp_fp currlen rest
            (read_frame_body f.nvars kind (address m tmp_fp) currlen tail n) =
      λ kind flags.
        rw
          (append_assoc (write_word (tmp_fp + 1 - low - f.nvars))
            (cells_of (tmp_fp + 1 - low) tmp_fp m.stack) rest)
          (read_frame_body-IsRead f.nvars kind f.args low tmp_fp (address m tmp_fp) currlen rest m n
            words flags f.few_args (omega (arith, f.offset_fits)) (omega (arith, f.offset_fits))
            f.some_cells f.cells_fit f.inside (omega (arith, long)) fp r) in
    elim (Bool-cases f.procedure) [
      | inl p ↦
          let tmpl : ℕ = address m tmp_fp * 0x100 + 0x10 + f.nvars in
          let vars : tmpl % 16 ≡ f.nvars = omega (arith, f.few_vars) in
          let back : tmpl / 256 ≡ address m tmp_fp = omega (arith, f.few_vars) in
          let marked : tmpl / 16 % 2 ≡ 1 = omega (arith, f.few_vars) in
          let (k, rk, fk, runs) = body call_procedure (
            f.flags_are
            ∙ ap (λ b. f.nvars * 0x100 + (if b then call_procedure else call_function) + f.args)
                p) in
          let written : bytes_of m low tmp_fp f ++ rest ≡ write_long tmpl ++ (0 ∷ tail) =
            rw p (append_assoc (write_long tmpl) (0 ∷ bitmap f.args ∷ body_of) rest) in
          (
            k,
            rk,
            fk,
            ap (λ bytes. read_frame currlen bytes n) written
                ∙ rw
                    (
                      enough,
                      room,
                      read_long-write_long tmpl (0 ∷ tail)
                          (omega (arith, f.few_vars, f.address_fits)),
                      marked,
                      vars,
                      back,
                    )
                    runs,
          )
      | inr p ↦
          let tmpl : ℕ = (address m tmp_fp + 1) * 0x100 + f.nvars in
          let vars : tmpl % 16 ≡ f.nvars = omega (arith, f.few_vars) in
          let back : tmpl / 256 ≡ address m tmp_fp + 1 = omega (arith, f.few_vars) in
          let marked : (tmpl / 16 % 2 == 1) ≡ false =
            ne→not_== (tmpl / 16 % 2) 1 (λ e. omega (arith, e, f.few_vars)) in
          let called : (address m tmp_fp + 1 == 0) ≡ false =
            ne→not_== (address m tmp_fp + 1) 0 (λ e. omega (arith, e)) in
          let before : address m tmp_fp + 1 - 1 ≡ address m tmp_fp = omega arith in
          let (k, rk, fk, runs) = body call_function (
            f.flags_are
            ∙ ap (λ b. f.nvars * 0x100 + (if b then call_procedure else call_function) + f.args)
                p) in
          let written : bytes_of m low tmp_fp f ++ rest
              ≡ write_long tmpl ++ (data_at m (address m tmp_fp) ∷ tail) =
            rw p (
              append_assoc (write_long tmpl)
                (data_at m (address m tmp_fp) ∷ bitmap f.args ∷ body_of) rest) in
          (
            k,
            rk,
            fk,
            ap (λ bytes. read_frame currlen bytes n) written
                ∙ rw
                    (
                      enough,
                      room,
                      read_long-write_long tmpl (data_at m (address m tmp_fp) ∷ tail)
                          (omega (arith, f.few_vars, f.address_fits)),
                      marked,
                      vars,
                      back,
                      called,
                      before,
                      read_same (address m tmp_fp) (tmp_fp + 5) m n paged r,
                      eq→== (data_at m (address m tmp_fp)) (data_at m (address m tmp_fp)) refl,
                    )
                    runs,
          )
    ]
