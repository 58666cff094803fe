-- ===== src/Table/Copy.antt =====
-- What copying a table makes of the data area.
use jzip.Prelude.{
  ℕ, zero, suc, ◌+◌, ◌-◌, ◌%◌, ◌<◌, ◌≤◌, ◌≡◌, ◌∙◌, ◌⊎◌, inl, inr, refl, arith, true, false, ◌&&◌,
  ◌||◌, ltb, leb, ◌==◌, if◌then◌else◌, Bool-cases, ne→not_==,
}
use jzip.Machine.{Machine, ok, update, read_data_byte, set_byte-ok}
use jzip.Table.{z_storeb, copy_forward, copy_backward, z_copy_table}

-- The cells from `dst` on hold what `n` cells from `src` on held; the others are as before.
abbrev pub copied : ℕ → ℕ → ℕ → (ℕ → ℕ) → ℕ → ℕ
copied n src dst d a = if leb dst a && ltb a (dst + n) then d (src + (a - dst)) else d a

forward : ℕ → ℕ → ℕ → (ℕ → ℕ) → ℕ → ℕ
forward zero src dst d = d
forward (suc n) src dst d = forward n (src + 1) (dst + 1) (update d dst (d src % 256))

backward : ℕ → ℕ → ℕ → (ℕ → ℕ) → ℕ → ℕ
backward zero src dst d = d
backward (suc n) src dst d = backward n src dst (update d (dst + n) (d (src + n) % 256))

forward-copied :
    (n src dst : ℕ) (d : ℕ → ℕ) (a : ℕ)
    → ((a : ℕ) → d a < 256)
    → (dst ≤ src) ⊎ (src + n ≤ dst)
    → forward n src dst d a ≡ copied n src dst d a
unfolding forward
forward-copied zero src dst d a bytes apart = ground arith
forward-copied (suc n) src dst d a bytes apart =
    forward-copied n (src + 1) (dst + 1) (update d dst (d src % 256)) a
      (λ b. ground (arith, bytes b))
      (elim apart [ inl h ↦ inl (omega arith) | inr h ↦ inr (omega arith) ])
    ∙ elim apart [ inl h ↦ ground (arith, bytes src) | inr h ↦ ground (arith, bytes src) ]

backward-copied :
    (n src dst : ℕ) (d : ℕ → ℕ) (a : ℕ)
    → ((a : ℕ) → d a < 256)
    → (src ≤ dst) ⊎ (dst + n ≤ src)
    → backward n src dst d a ≡ copied n src dst d a
unfolding backward
backward-copied zero src dst d a bytes apart = ground arith
backward-copied (suc n) src dst d a bytes apart =
    backward-copied n src dst (update d (dst + n) (d (src + n) % 256)) a
      (λ b. ground (arith, bytes b))
      (elim apart [ inl h ↦ inl (omega arith) | inr h ↦ inr (omega arith) ])
    ∙ elim apart [
      | inl h ↦ ground (arith, bytes (src + n))
      | inr h ↦ ground (arith, bytes (src + n))
    ]

with_data : (ℕ → ℕ) → Machine → Machine
with_data d m = record m { datap = d }

pub read_data_byte-ok :
    (a : ℕ) (m : Machine) → a < m.data_size → read_data_byte a m ≡ ok (m.datap a) m
unfolding read_data_byte
read_data_byte-ok a m h = ground arith

z_storeb-ok :
    (a v : ℕ) (m : Machine)
    → a < m.data_size
    → a < 0x10000
    → z_storeb a 0 v m ≡ ok tt (with_data (update m.datap a (v % 256)) m)
unfolding z_storeb with_data
z_storeb-ok a v m h h' =
    let at : (a + 0) % 0x10000 ≡ a = omega arith in
    let inside : ltb m.data_size a ≡ false = ground arith in rw (at, inside) (set_byte-ok a v m h)

wrap : (a : ℕ) → a < 0x10000 → a % 0x10000 ≡ a
wrap a h = omega arith

copy_forward-forward :
    (n src dst : ℕ) (m : Machine)
    → src + n ≤ m.data_size
    → dst + n ≤ m.data_size
    → dst + n < 0x10000
    → copy_forward n src dst m ≡ ok tt (with_data (forward n src dst m.datap) m)
unfolding copy_forward forward with_data
copy_forward-forward zero src dst m h k l = refl
copy_forward-forward (suc n) src dst m h k l =
    rw
      (
        read_data_byte-ok src m (omega arith),
        z_storeb-ok dst (m.datap src) m (omega arith) (omega arith),
        wrap (dst + 1) (omega arith),
      )
      (copy_forward-forward n (src + 1) (dst + 1)
        (with_data (update m.datap dst (m.datap src % 256)) m) (omega arith) (omega arith)
        (omega arith))

copy_backward-backward :
    (n src dst : ℕ) (m : Machine)
    → src + n ≤ m.data_size
    → dst + n ≤ m.data_size
    → dst + n < 0x10000
    → copy_backward n (src + n) (dst + n) m ≡ ok tt (with_data (backward n src dst m.datap) m)
unfolding copy_backward backward with_data
copy_backward-backward zero src dst m h k l = refl
copy_backward-backward (suc n) src dst m h k l =
    let last : src + suc n - 1 ≡ src + n = omega arith in
    let place : (dst + suc n + 0xffff) % 0x10000 ≡ dst + n = omega arith in
    rw
      (
        last,
        place,
        read_data_byte-ok (src + n) m (omega arith),
        z_storeb-ok (dst + n) (m.datap (src + n)) m (omega arith) (omega arith),
      )
      (copy_backward-backward n src dst
        (with_data (update m.datap (dst + n) (m.datap (src + n) % 256)) m) (omega arith)
        (omega arith) (omega arith))

-- Copying a table with a positive count, to a place from its own first cell on or wholly below it, both
-- within the data area: the code ends, the destination holds what the source held, overlapped or
-- not, and no other cell changes.
pub z_copy_table-copied :
    (src dst count : ℕ) (m : Machine)
    → ((a : ℕ) → m.datap a < 256)
    → 1 ≤ dst
    → count < 0x8000
    → src + count ≤ m.data_size
    → dst + count ≤ m.data_size
    → dst + count < 0x10000
    → (src ≤ dst) ⊎ (dst + count ≤ src)
    → (d : ℕ → ℕ) × (z_copy_table src dst count m ≡ ok tt (record m { datap = d }))
      × ((a : ℕ) → d a ≡ copied count src dst m.datap a)
unfolding z_copy_table with_data
z_copy_table-copied src dst count m bytes nz few h k l apart =
    elim (Bool-cases (src == dst || count == 0)) [
      | inl none' ↦ (m.datap, rw none' refl, λ a. nothing none' a)
      | inr some' ↦ (
        backward count src dst m.datap,
        rw (some', ne→not_== dst 0 (omega arith), small, wrap (dst + count) l)
            (copy_backward-backward count src dst m h k l),
        λ a. backward-copied count src dst m.datap a bytes apart,
      )
    ]
  where
    nothing :
        (src == dst || count == 0) ≡ true → (a : ℕ) → m.datap a ≡ copied count src dst m.datap a
    nothing e a = ground arith

    small : leb 0x8000 count ≡ false
    small = ground arith

-- Copying with a negative count, from the front: the same for a place up to the source's first cell or
-- wholly above it.
pub z_copy_table-copied_forward :
    (src dst count : ℕ) (m : Machine)
    → ((a : ℕ) → m.datap a < 256)
    → 1 ≤ dst
    → 1 ≤ count
    → count ≤ 0x8000
    → src + count ≤ m.data_size
    → dst + count ≤ m.data_size
    → dst + count < 0x10000
    → (dst ≤ src) ⊎ (src + count ≤ dst)
    → (d : ℕ → ℕ) × (z_copy_table src dst (0x10000 - count) m ≡ ok tt (record m { datap = d }))
      × ((a : ℕ) → d a ≡ copied count src dst m.datap a)
unfolding z_copy_table with_data
z_copy_table-copied_forward src dst count m bytes nz some'' few h k l apart =
    elim (Bool-cases (src == dst)) [
      | inl none' ↦ (m.datap, rw none' refl, λ a. nothing none' a)
      | inr some' ↦ (
        forward count src dst m.datap,
        rw (some', ne→not_== dst 0 (omega arith), nonzero, large, back)
            (copy_forward-forward count src dst m h k l),
        λ a. forward-copied count src dst m.datap a bytes apart,
      )
    ]
  where
    nothing : (src == dst) ≡ true → (a : ℕ) → m.datap a ≡ copied count src dst m.datap a
    nothing e a = ground arith

    nonzero : (0x10000 - count == 0) ≡ false
    nonzero = ground arith

    large : leb 0x8000 (0x10000 - count) ≡ true
    large = ground arith

    back : 0x10000 - (0x10000 - count) ≡ count
    back = omega arith
