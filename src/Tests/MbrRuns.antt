-- ===== src/Tests/MbrRuns.antt =====
-- src/formats/mbr.rs on a sector with one Linux partition, and on one with a slot that has a
-- length and no type.
use isomage.Prelude.{
  ltb, length, if◌then◌else◌, not, ◌==◌, ◌||◌, ℕ, ◌≡◌, refl, List, [], ◌∷◌, ◌++◌, ok, err,
  replicate,
}
use isomage.Bytes.{byte}
use isomage.Mbr.{sector_size, too_short, bad_signature, Partition, parse_sector, protective_mbr}
use isomage.Mbr.Table.{slots, is_protective, parse_sector-slots}

abbrev sector_with : List ℕ → List ℕ
sector_with entry = replicate 446 0 ++ (entry ++ (replicate 48 0 ++ 0x55 ∷ 0xaa ∷ []))

-- Status 0x80, type `t`, first sector 2048 and 16 sectors.
abbrev entry_of : ℕ → List ℕ
entry_of t = 0x80 ∷ 0 ∷ 0 ∷ 0 ∷ t ∷ 0 ∷ 0 ∷ 0 ∷ 0 ∷ 8 ∷ 0 ∷ 0 ∷ 16 ∷ 0 ∷ 0 ∷ 0 ∷ []

abbrev partition_of : ℕ → Partition
partition_of t = record { index = 0; status = 0x80; type_code = t; start = 1048576; len = 8192 }

one_linux : parse_sector (sector_with (entry_of 0x83)) ≡ ok (partition_of 0x83 ∷ [])
unfolding parse_sector
one_linux = refl

one_gpt : parse_sector (sector_with (entry_of 0xee)) ≡ err protective_mbr
unfolding parse_sector
one_gpt = refl

-- The documentation of `parse` calls a slot empty if either field is 0; this one is returned.
one_typeless : parse_sector (sector_with (entry_of 0)) ≡ ok (partition_of 0 ∷ [])
unfolding parse_sector
one_typeless = refl

parse_sector-slots_example : parse_sector (sector_with (entry_of 0x83)) ≡ (
    if ltb (length (sector_with (entry_of 0x83))) sector_size
    then err too_short
    else if not (byte (sector_with (entry_of 0x83)) 0x1fe == 0x55)
        || not (byte (sector_with (entry_of 0x83)) 0x1ff == 0xaa)
    then err bad_signature
    else if is_protective (slots (sector_with (entry_of 0x83)) 4 0)
    then err protective_mbr
    else ok (slots (sector_with (entry_of 0x83)) 4 0))
parse_sector-slots_example = parse_sector-slots (sector_with (entry_of 0x83))
