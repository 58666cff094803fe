-- ===== src/Machine/Defs.antt =====
-- The globals that the opcodes read and write, and the outcomes of a run of C code over them.
use jzip.Prelude.{ℕ, Bool, List, ◌==◌, if◌then◌else◌}

-- `report_strictz_error` prints never, once, always, or ends the program.
pub data ReportMode : Type 0 where
  report_never report_once report_always report_fatal : ReportMode

-- The globals of extern.c by the names that they have there, and `halt` of interpre.c. `running` is
-- whether `interpreter_state` is `RUN`. `story` gives the bytes of the story
-- file by address, `datap` and `stack` are the two arrays, of `data_size` and 1024 elements.
-- `warnings` collects the numbers of the strict errors that were printed, the latest first.
pub record Machine : Type 0 where
  pub h_type : ℕ
  pub h_objects_offset : ℕ
  pub h_globals_offset : ℕ
  pub h_words_offset : ℕ
  pub h_synonyms_offset : ℕ
  pub lookup_table : ℕ → ℕ → ℕ
  pub story_scaler : ℕ
  pub property_mask : ℕ
  pub property_size_mask : ℕ
  pub story : ℕ → ℕ
  pub data_size : ℕ
  pub datap : ℕ → ℕ
  pub stack : ℕ → ℕ
  pub sp : ℕ
  pub fp : ℕ
  pub frame_count : ℕ
  pub pc : ℕ
  pub running : Bool
  pub interpreter_status : ℕ
  pub halt : Bool
  pub strictz_report_mode : ReportMode
  pub strictz_error_count : ℕ → ℕ
  pub warnings : List ℕ

-- The messages of the calls of `fatal` in the modelled code.
pub data Message : Type 0 where
  strictz_error no_such_property write_outside_data_area nonexistent_frame illegal_instruction :
      Message
  wrong_game_or_version : Message

-- `fatal` ends the program with a message. `fault` is what C leaves undefined: an access outside an
-- array, a division by zero, a shift by too much. `out_of_fuel` is no outcome of the program: a loop
-- of the model ran out of rounds.
pub data Run (A : Type 0) : Type 0 where
  ok : A → Machine → Run A
  fatal : Message → Run A
  fault : Run A
  out_of_fuel : Run A

abbrev pub M : Type 0 → Type 0
M A = Machine → Run A

abbrev pub pure : {A : Type 0} → A → M A
pure = ok

module _ {A B : Type 0} where
  abbrev pub and_then : Run A → (A → M B) → Run B
  and_then (ok a m) k = k a m
  and_then (fatal e) k = fatal e
  and_then fault k = fault
  and_then out_of_fuel k = out_of_fuel

  infixl 5 ◌>>=◌ ◌>>◌
  abbrev pub ◌>>=◌ : M A → (A → M B) → M B
  c >>= k = λ m. and_then (c m) k

  abbrev pub ◌>>◌ : M A → M B → M B
  c >> d = c >>= λ _. d

-- A test in C that guards a call: `if ( b ) c;`
abbrev pub when : Bool → M (Unit {0}) → M (Unit {0})
when b c = if b then c else pure tt

abbrev pub update : (ℕ → ℕ) → ℕ → ℕ → ℕ → ℕ
update f a v i = if i == a then v else f i

abbrev pub stack_size : ℕ
stack_size = 1024

abbrev pub page_size : ℕ
page_size = 512
