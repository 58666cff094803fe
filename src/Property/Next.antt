-- ===== src/Property/Next.antt =====
-- Walking a property list with `z_get_next_prop`.
use jzip.Prelude.{
  ℕ, zero, suc, ◌+◌, ◌%◌, ◌<◌, ◌≤◌, ◌≡◌, ◌∙◌, refl, arith, inl, inr, Bool, true, false, ◌||◌, leb,
  ◌==◌, if◌then◌else◌, Bool-cases, ==→eq, eq→==, ne→not_==, List, [], ◌∷◌, length,
}
use jzip.Machine.{Machine, ok, get_byte-ok}
use jzip.Operand.{store_operand}
use jzip.Property.{property_id, scan_past, scan_fuel, next_of, z_get_next_prop}
use jzip.Property.Layout.{
  next_property, id_at, Below, Listed, Listed-inside, get_next_property-next_property,
}
use jzip.Property.Lookup.{first_property, HasProperties, get_property_addr-first_property}

abbrev pub lists : ℕ → List ℕ → Bool
lists prop [] = false
lists prop (p ∷ ps) = p == prop || lists prop ps

-- The number that begins a list, or the 0 behind it.
abbrev pub head_number : List ℕ → ℕ
head_number [] = 0
head_number (p ∷ ps) = p

-- The number after `prop` in a list, or 0 after the last.
abbrev pub following : ℕ → List ℕ → ℕ
following prop [] = 0
following prop (p ∷ ps) = if p == prop then head_number ps else following prop ps

Listed-head :
    (addr : ℕ) (ps : List ℕ) (m : Machine) → Listed addr ps m → id_at addr m ≡ head_number ps
Listed-head addr [] m l = l.1
Listed-head addr (p ∷ ps) m l = l.1

Below-lists : (p prop : ℕ) (ps : List ℕ) → Below p ps → lists prop ps ≡ true → prop < p
Below-lists p prop [] b h = cc
Below-lists p prop (q ∷ ps) (b, bs) h = elim (Bool-cases (q == prop)) [
  | inl same ↦ omega (arith, ==→eq q prop same)
  | inr other ↦ Below-lists p prop ps bs (ground arith)
]

-- Where the loop ends on a listed property: at the next one.
record Passed (fuel prop addr : ℕ) (ps : List ℕ) (m : Machine) : Type 0 where
  stop : ℕ
  value : ℕ
  ends : scan_past fuel prop addr m ≡ ok (stop, value) m
  same : property_id value m ≡ prop
  after : id_at stop m ≡ following prop ps
  inside : stop + 1 < m.data_size

scan_past-Passed :
    (fuel prop addr : ℕ) (ps : List ℕ) (m : Machine)
    → m.data_size ≤ 0x10000
    → length ps ≤ fuel
    → Listed addr ps m
    → lists prop ps ≡ true
    → Passed fuel prop addr ps m
unfolding scan_past
scan_past-Passed fuel prop addr [] m room few l h = cc
scan_past-Passed zero prop addr (p ∷ ps) m room few l h = absurd (omega arith)
scan_past-Passed (suc fuel) prop addr (p ∷ ps) m room few (inside, at, nz, below, rest) h =
    let step =
      get_next_property-next_property addr m room inside
        (omega (arith, Listed-inside (next_property addr m) ps m rest)) in
    elim (Bool-cases (p == prop)) [
      | inl here ↦
          let reached : leb p prop ≡ true = ground (arith, ==→eq p prop here) in
          record {
            stop = next_property addr m;
            value = m.datap addr;
            ends = rw (get_byte-ok addr m (omega arith), step, at, reached) refl;
            same = at ∙ ==→eq p prop here;
            after = rw here (Listed-head (next_property addr m) ps m rest);
            inside = Listed-inside (next_property addr m) ps m rest;
          }
      | inr off ↦
          let inner : lists prop ps ≡ true = rw off at h in
          let low = Below-lists p prop ps below inner in
          let passed : leb p prop ≡ false = ground (arith, low) in
          let rec =
            scan_past-Passed fuel prop (next_property addr m) ps m room (omega arith) rest inner in
          record {
            stop = rec.stop;
            value = rec.value;
            ends = rw (get_byte-ok addr m (omega arith), step, at, passed) rec.ends;
            same = rec.same;
            after = rw off rec.after;
            inside = rec.inside;
          }
    ]

-- On an object with a property list, `z_get_next_prop` stores the number after `prop` in the list, which
-- has `prop`, and 0 after the last.
pub z_get_next_prop-following :
    (obj prop : ℕ) (ps : List ℕ) (m : Machine)
    → HasProperties obj ps m
    → 1 ≤ prop
    → prop < 256
    → lists prop ps ≡ true
    → z_get_next_prop obj prop m ≡ store_operand (following prop ps) m
unfolding z_get_next_prop next_of
z_get_next_prop-following obj prop ps m c nz h listed =
    let passed =
      scan_past-Passed scan_fuel prop (first_property obj m) ps m c.room (omega (arith, c.few))
        c.listed listed in
    let cast : prop % 256 ≡ prop = omega arith in
    rw
      (
        ne→not_== obj 0 (omega (arith, c.in_table.number)),
        get_property_addr-first_property obj ps m c,
        ne→not_== prop 0 (omega arith),
        cast,
        passed.ends,
        eq→== (property_id passed.value m) prop passed.same,
        get_byte-ok passed.stop m (omega (arith, passed.inside)),
        passed.after,
      )
      refl
