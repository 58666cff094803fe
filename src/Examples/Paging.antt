-- ===== src/Examples/Paging.antt =====
-- The page cache on a story of four pages, with room for one page beside the first entry.
use jzip.Prelude.{true, ◌%◌, ◌≡◌, ◌==◌, if◌then◌else◌, refl, arith, List, [], ◌∷◌, some, map}
use jzip.PageCache.{File}
use jzip.PageCache.Loading.{
  Memory, Read, Sizes, code, data_at, read, reads, load_cache, load_memory, first_cache,
}
use jzip.PageCache.First.{first_cache-IsSettled}
use jzip.PageCache.Trace.{
  IsLoaded, HasSizes, Covers, resident_end, address, load_memory-IsLoaded, read-byte,
  load_cache-reads,
}

-- The dictionary is at 600, with two separators and ten entries of four bytes.
abbrev four_pages : File
four_pages = record {
  size = 2000;
  byte = λ a.
      if a == 600
      then 2
      else if a == 603
      then 4
      else if a == 604
      then 0
      else if a == 605
      then 10
      else a % 251;
}

abbrev max_data : Sizes
max_data = record {
  config_max_data = true;
  h_data_size = 500;
  h_restart_size = 400;
  h_words_offset = 600;
  file_size = 2000;
}

-- Reads that reuse the entries in turn.
abbrev in_turn : List Read
in_turn = code 600 ∷ data_at 1100 ∷ code 1600 ∷ data_at 10 ∷ code 601 ∷ data_at 1101 ∷ []

sizes : HasSizes four_pages max_data
sizes = record {
  some_data = omega arith;
  dictionary = λ max. record { behind_first = omega arith; in_file = omega arith };
}

load_cache-reads_example :
    (m : Memory) × (load_cache four_pages max_data 1 (λ a. 0) (λ p i. 0) ≡ some m)
    × Covers m.data_size (resident_end four_pages max_data)
    × (reads four_pages in_turn m ≡ map (λ r. some (four_pages.byte (address r))) in_turn)
load_cache-reads_example =
    load_cache-reads four_pages max_data 1 (λ a. 0) (λ p i. 0) in_turn sizes
      (
        (omega arith, omega arith),
        (
          omega arith,
          (
            (omega arith, omega arith),
            (omega arith, ((omega arith, omega arith), (omega arith, tt))),
          ),
        ),
      )

-- The dictionary ends at 646, so two pages are resident.
dictionary_resident : resident_end four_pages max_data ≡ 646
dictionary_resident = refl

abbrev loaded : Memory
loaded = load_memory four_pages max_data 1 (λ a. 0) 1 (first_cache (λ p i. 0))

read-byte_example :
    IsLoaded four_pages (read four_pages (code 1600) loaded).0
    × ((read four_pages (code 1600) loaded).1 ≡ some (four_pages.byte 1600))
read-byte_example =
    read-byte four_pages (code 1600) loaded
      (load_memory-IsLoaded four_pages max_data 1 (λ a. 0) 1 (first_cache (λ p i. 0)) (omega arith)
        (first_cache-IsSettled four_pages (λ p i. 0)))
      (omega arith, omega arith)
