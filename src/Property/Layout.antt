-- ===== src/Property/Layout.antt =====
-- A property list as the story file lays it out, and the scan of it.
use jzip.Prelude.{
  ℕ, zero, suc, ◌+◌, ◌/◌, ◌%◌, ◌<◌, ◌≤◌, ◌≡◌, ◌≢◌, ◌∙◌, ◌⊎◌, inl, inr, refl, ap, arith, bit_and,
  Bool, not, ◌&&◌, ltb, leb, ◌==◌, if◌then◌else◌, Bool-cases, ==→eq, ne→not_==, Option, none, some,
  List, [], ◌∷◌, length,
}
use jzip.Machine.{Machine, ok, get_byte-ok}
use jzip.Property.{property_id, long_size, property_length, get_next_property, scan}

-- The property whose header begins at `addr` has a header of two bytes.
abbrev pub is_long : ℕ → Machine → Bool
is_long addr m = not (ltb m.h_type 4) && not (bit_and (m.datap addr) 0x80 == 0)

-- Where its data begins, how many bytes of data it has, and where the next property begins.
abbrev pub data_of : ℕ → Machine → ℕ
data_of addr m = if is_long addr m then addr + 2 else addr + 1

abbrev pub size_at : ℕ → Machine → ℕ
size_at addr m =
    if ltb m.h_type 4
    then m.datap addr / 32 + 1
    else if bit_and (m.datap addr) 0x80 == 0
    then m.datap addr / 64 + 1
    else long_size (m.datap (addr + 1)) m

abbrev pub next_property : ℕ → Machine → ℕ
next_property addr m = data_of addr m + size_at addr m

abbrev pub id_at : ℕ → Machine → ℕ
id_at addr m = property_id (m.datap addr) m

-- Every number of the list is below `p`.
abbrev pub Below : ℕ → List ℕ → Type 0
Below p [] = Unit
Below p (q ∷ ps) = (q < p) × Below p ps

-- From `addr` lie the properties `ps`, in descending order, and then a number 0.
abbrev pub Listed : ℕ → List ℕ → Machine → Type 0
Listed addr [] m = (addr + 1 < m.data_size) × (id_at addr m ≡ 0)
Listed addr (p ∷ ps) m =
    (addr + 1 < m.data_size)
    × (id_at addr m ≡ p)
    × (1 ≤ p)
    × Below p ps
    × Listed (next_property addr m) ps m

-- The header of property `prop` in the list.
unfoldable pub entry : ℕ → ℕ → List ℕ → Machine → Option ℕ
entry prop addr [] m = none
entry prop addr (p ∷ ps) m = if p == prop then some addr else entry prop (next_property addr m) ps m

Below-entry :
    (prop addr : ℕ) (ps : List ℕ) (m : Machine) → Below prop ps → entry prop addr ps m ≡ none
unfolding entry
Below-entry prop addr [] m b = refl
Below-entry prop addr (p ∷ ps) m (h, b) =
    rw (ne→not_== p prop (omega arith)) (Below-entry prop (next_property addr m) ps m b)

Below-trans : (p q : ℕ) (ps : List ℕ) → p ≤ q → Below p ps → Below q ps
Below-trans p q [] h b = tt
Below-trans p q (x ∷ ps) h (b, bs) = (omega arith, Below-trans p q ps h bs)

pub Listed-inside :
    (addr : ℕ) (ps : List ℕ) (m : Machine) → Listed addr ps m → addr + 1 < m.data_size
Listed-inside addr [] m l = l.0
Listed-inside addr (p ∷ ps) m l = l.0

pub get_next_property-next_property :
    (addr : ℕ) (m : Machine)
    → m.data_size ≤ 0x10000
    → addr + 1 < m.data_size
    → next_property addr m < m.data_size
    → get_next_property addr m ≡ ok (next_property addr m) m
unfolding get_next_property property_length
get_next_property-next_property addr m room h k = elim (Bool-cases (ltb m.h_type 4)) [
  | inl old ↦
      rw (get_byte-ok addr m (omega arith), old)
        (same_step _ _ (omega (arith, rw old at k)) (omega arith))
  | inr new ↦ elim (Bool-cases (bit_and (m.datap addr) 0x80 == 0)) [
    | inl short ↦
        rw (get_byte-ok addr m (omega arith), new, short)
          (same_step _ _ (omega (arith, rw (new, short) at k)) (omega arith))
    | inr long ↦
        rw
          (
            get_byte-ok addr m (omega arith),
            new,
            long,
            small (addr + 1) (omega arith),
            get_byte-ok (addr + 1) m h,
          )
          (same_step _ _ (omega (arith, rw (new, long) at k)) (omega arith))
  ]
]
  where
    small : (a : ℕ) → a < 0x10000 → a % 0x10000 ≡ a
    small a h = omega arith

    same_step : (a b : ℕ) → b < 0x10000 → a ≡ b → ok (a % 0x10000) m ≡ ok b m
    same_step a b h e = ap (λ c. ok c m) (omega arith)

-- What the scan for `prop` comes to: the property, if the list has it.
pub record Scanned (fuel prop addr : ℕ) (ps : List ℕ) (m : Machine) : Type 0 where
  pub stop : ℕ
  pub ends : scan fuel prop addr m ≡ ok (stop, m.datap stop) m
  pub inside : stop + 1 < m.data_size
  pub result :
      ((entry prop addr ps m ≡ some stop)
        × (id_at stop m ≡ prop)
        × (next_property stop m + 1 < m.data_size))
      ⊎ ((entry prop addr ps m ≡ none) × (id_at stop m ≢ prop))

pub scan-entry :
    (fuel prop addr : ℕ) (ps : List ℕ) (m : Machine)
    → m.data_size ≤ 0x10000
    → 1 ≤ prop
    → length ps < fuel
    → Listed addr ps m
    → Scanned fuel prop addr ps m
unfolding entry scan
scan-entry zero prop addr ps m room nz few l = absurd (omega arith)
scan-entry (suc fuel) prop addr [] m room nz few (inside, last) = record {
  stop = addr;
  ends = rw (get_byte-ok addr m (omega arith), last) (ground arith);
  inside = inside;
  result = inr (refl, λ e. absurd (omega arith));
}
scan-entry (suc fuel) prop addr (p ∷ ps) m room nz few (inside, at, pos', below, rest) =
    elim (Bool-cases (leb p prop)) [
      | inl low ↦ record {
        stop = addr;
        ends = rw (get_byte-ok addr m (omega arith), at, low) refl;
        inside = inside;
        result = elim (Bool-cases (p == prop)) [
          | inl same ↦
              inl (
                rw same refl,
                at ∙ ==→eq p prop same,
                Listed-inside (next_property addr m) ps m rest,
              )
          | inr other ↦ inr (
            rw other (
                Below-entry prop (next_property addr m) ps m
                  (Below-trans p prop ps (ground arith) below)),
            λ e. absurd (ground arith),
          )
        ];
      }
      | inr high ↦
          let rec = scan-entry fuel prop (next_property addr m) ps m room nz (omega arith) rest in
          let step =
            get_next_property-next_property addr m room inside
              (omega (arith, Listed-inside (next_property addr m) ps m rest)) in
          record {
            stop = rec.stop;
            ends = rw (get_byte-ok addr m (omega arith), at, high, step) rec.ends;
            inside = rec.inside;
            result = rw (ne→not_== p prop (ground arith)) rec.result;
          }
    ]
