-- ===== src/Tests/FatNamesRuns.antt =====
-- src/formats/fat.rs on a directory with a long name.
use isomage.Prelude.{ℕ, zero, suc, ◌≡◌, refl, false, List, [], ◌∷◌, ◌++◌, arith, replicate}
use isomage.Text.{codes, str_eq}
use isomage.Text.Utf8.{from_utf16_lossy}
use isomage.Fat.Dir.{raw_entry, parse_dir_entries}
use isomage.Fat.LongNames.{IsUnits, concat, long_entries, parse_dir_entries-long_entries}

-- The name `ab`, which a 0 ends, and padding.
abbrev letters : ℕ → ℕ
letters zero = 97
letters (suc zero) = 98
letters (suc (suc zero)) = 0
letters (suc (suc (suc i))) = 0xffff

letters-IsUnits : IsUnits letters
letters-IsUnits zero = omega arith
letters-IsUnits (suc zero) = omega arith
letters-IsUnits (suc (suc zero)) = omega arith
letters-IsUnits (suc (suc (suc i))) = omega arith

abbrev short : List ℕ
short = 65 ∷ replicate 10 32 ++ (32 ∷ replicate 20 0)

abbrev directory : List ℕ
directory = concat (long_entries 64 (letters ∷ [])) ++ (short ++ [])

not_dots :
    (str_eq (from_utf16_lossy (97 ∷ 98 ∷ [])) (codes ".") ≡ false)
    × (str_eq (from_utf16_lossy (97 ∷ 98 ∷ [])) (codes "..") ≡ false)
unfolding str_eq from_utf16_lossy
not_dots = (refl, refl)

parse_dir_entries-long_entries_example :
    parse_dir_entries directory
    ≡ raw_entry (from_utf16_lossy (97 ∷ 98 ∷ [])) short ∷ parse_dir_entries []
parse_dir_entries-long_entries_example =
    parse_dir_entries-long_entries (letters ∷ []) (97 ∷ 98 ∷ []) (0 ∷ replicate 10 0xffff) short []
      (omega arith) (omega arith) (letters-IsUnits, tt) refl
      ((omega arith, omega arith), ((omega arith, omega arith), tt)) refl
      (refl, omega arith, omega arith, refl) not_dots.0 not_dots.1
