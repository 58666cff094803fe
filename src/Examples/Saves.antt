-- ===== src/Examples/Saves.antt =====
-- The theorem on reading frames at one stack frame, and the memory chunk of a short data area.
use jzip.Prelude.{◌≡◌, refl, arith, [], ◌∷◌}
use jzip.Quetzal.{encode}
use jzip.Quetzal.Stacks.{Left, read_frames}
use jzip.Quetzal.Safety.{Ends, read_frames-Ends}
use jzip.Examples.{start}

chunk : encode 0 (1 ∷ 2 ∷ 3 ∷ 4 ∷ []) (1 ∷ 2 ∷ 7 ∷ 4 ∷ []) ≡ 0 ∷ 1 ∷ 4 ∷ []
unfolding encode jzip.Quetzal.write_runs
chunk = refl

-- A procedure's frame without locals, which returns to 600.
abbrev one_frame : Left
one_frame = record { bytes = 0 ∷ 2 ∷ 0x58 ∷ 0x10 ∷ 0 ∷ 0 ∷ 0 ∷ 0 ∷ []; currlen = 8 }

read_frames-Ends_example : Ends 2 (read_frames 9 one_frame start)
read_frames-Ends_example =
    read_frames-Ends 9 one_frame start (omega arith) (omega arith) (omega arith)
