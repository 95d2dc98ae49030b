-- ===== src/Tests/Iso9660Runs.antt =====
-- src/iso9660.rs on single records, and on an image in which a directory holds itself.
use isomage.Prelude.{
  inl, ℕ, ◌+◌, ◌≡◌, ◌≢◌, refl, false, List, [], ◌∷◌, ◌++◌, some, ok, err, arith, replicate,
}
use isomage.Text.{codes, str_eq}
use isomage.Text.Utf8.{from_utf16_lossy}
use isomage.Bytes.{slice, byte}
use isomage.Tree.{new_directory}
use isomage.Iso9660.Record.{
  panic, no_fuel, primary, joliet, decode_name, extract_rock_ridge_name, parse_directory_record,
}
use isomage.Iso9660.Directory.{rename, parse_directory}
use isomage.Iso9660.{scan_descriptors}
use isomage.Iso9660.Names.{Stored}
use isomage.Iso9660.RockRidge.{
  HasFlags, no_entry, entry, extract_rock_ridge_name_total, extract_rock_ridge_name-panic,
}
use isomage.Iso9660.Scan.{scan_descriptors_fuel}
use isomage.Iso9660.Cycle.{directory_at, HoldsItself, parse_directory-HoldsItself}

drops_version : decode_name primary (codes "A.;1") ≡ codes "A"
unfolding decode_name isomage.Iso9660.Record.without_version isomage.Text.split_once
    isomage.Text.trim_end_char isomage.Text.is_empty isomage.Text.Utf8.from_utf8_lossy
drops_version = refl

-- The record of a file `A.B`, version 1, at sector 20, with a byte of padding behind it.
abbrev file_record : Stored
file_record = record {
  record_length = 38;
  attribute_length = 0;
  extent_location = 20;
  data_length = 300;
  date = λ i. 100 + i;
  flags = 0;
  unit_size = 0;
  gap_size = 0;
  volume = 1;
  name = codes "A.B";
  version = codes ";1";
}

-- A record of 34 bytes with the name `A` for a directory at sector 0 that is as long as itself.
abbrev self_record : List ℕ
self_record =
    34
    ∷ 0
    ∷ 0
    ∷ 0
    ∷ 0
    ∷ 0
    ∷ 0
    ∷ 0
    ∷ 0
    ∷ 0
    ∷ 34
    ∷ 0
    ∷ 0
    ∷ 0
    ∷ (replicate 11 0 ++ (2 ∷ 0 ∷ 0 ∷ 0 ∷ 0 ∷ 0 ∷ 0 ∷ 1 ∷ codes "A"))

-- The same record with a system use area that ends in a name entry of four bytes, and one byte more.
abbrev bad_record : List ℕ
bad_record = self_record ++ (codes "NM" ++ (4 ∷ 1 ∷ 0 ∷ []))

-- The same with a name entry of seven bytes, whose name looks like an entry.
abbrev good_record : List ℕ
good_record = self_record ++ (codes "NM" ++ (7 ∷ 1 ∷ 0 ∷ codes "NM"))

reads_name : extract_rock_ridge_name good_record 41 1 ≡ ok (some (codes "NM"))
unfolding extract_rock_ridge_name isomage.Iso9660.Record.su_loop isomage.Iso9660.Record.entry_part
    isomage.Iso9660.Record.nm_part isomage.Iso9660.Record.name_of_parts
    isomage.Text.Utf8.from_utf8_lossy isomage.Text.str_eq slice
reads_name = refl

extract_rock_ridge_name-panic_example : extract_rock_ridge_name bad_record 39 1 ≡ err panic
unfolding slice
extract_rock_ridge_name-panic_example =
    extract_rock_ridge_name-panic bad_record 39 1 (omega arith)
      (omega arith, refl, refl, omega arith)

-- The area of `good_record`: one entry, whose name is `NM`, and nothing behind it.
good_area-HasFlags : HasFlags (slice good_record 34 41) 0
unfolding slice
good_area-HasFlags =
    entry (omega arith) (omega arith) (λ marked. omega arith) (no_entry (inl (omega arith)))

extract_rock_ridge_name_total_example : extract_rock_ridge_name good_record 41 1 ≢ err panic
extract_rock_ridge_name_total_example =
    extract_rock_ridge_name_total good_record 41 1 panic good_area-HasFlags

scan_descriptors_fuel_example :
    (scan_descriptors (record { image = self_record; pos = 0 })).0 ≢ err no_fuel
scan_descriptors_fuel_example = scan_descriptors_fuel (record { image = self_record; pos = 0 })

self_record-HoldsItself : HoldsItself self_record primary false 0 34
unfolding directory_at parse_directory_record rename slice isomage.Bytes.le32
    isomage.Iso9660.Record.record_name decode_name isomage.Iso9660.Record.without_version
    isomage.Text.split_once isomage.Text.trim_end_char isomage.Text.is_empty
    isomage.Text.Utf8.from_utf8_lossy isomage.Text.str_eq
self_record-HoldsItself = record {
  near = omega arith;
  within = omega arith;
  entry = directory_at 0 34 (codes "A");
  name = codes "A";
  long_enough = omega arith;
  fits = omega arith;
  parses = refl;
  renames = refl;
  named = refl;
}

parse_directory-HoldsItself_example :
    (parse_directory 100 primary false
      (directory_at 0 34 (codes "/"))
      (new_directory (codes "/"))
      (record { image = self_record; pos = 0 })).0
    ≡ err no_fuel
parse_directory-HoldsItself_example =
    parse_directory-HoldsItself 100 primary false 0 34 (codes "/") (new_directory (codes "/"))
      (record { image = self_record; pos = 0 }) self_record-HoldsItself
