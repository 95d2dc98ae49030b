-- ===== src/Tests/GptRuns.antt =====
-- src/formats/gpt.rs on an image with two partitions, one of them labelled with a slash.
use isomage.Prelude.{
  ℕ, ◌+◌, ◌*◌, length, ◌≤◌, ◌≡◌, refl, List, [], ◌∷◌, ◌++◌, some, ok, replicate, arith,
}
use isomage.Text.{codes, str_eq}
use isomage.Reader.{read_at}
use isomage.Tree.{find_node}
use isomage.Gpt.{
  Partition, Header, sector_size, parse_header_sector, read_entries, scan_entries, entry_partition,
  partition_name, partition_node, to_tree, decode_utf16le,
}
use isomage.Gpt.Array.{AreSlots, read_entries-AreSlots}
use isomage.Gpt.Names.{find_node-to_tree}

-- An entry of 128 bytes: type, unique GUID, first and last sector, and the label `a/`.
abbrev entry : List ℕ
entry =
    replicate 16 7
    ++ (replicate 16 9
        ++ ((40 ∷ 0 ∷ 0 ∷ 0 ∷ 0 ∷ 0 ∷ 0 ∷ 0 ∷ 41 ∷ 0 ∷ 0 ∷ 0 ∷ 0 ∷ 0 ∷ 0 ∷ 0 ∷ [])
            ++ (replicate 8 0 ++ ((b'a' ∷ 0 ∷ b'/' ∷ 0 ∷ []) ++ replicate 68 0))))

abbrev header : Header
header = record { entries_lba = 0; num_entries = 2; entry_size = 128 }

abbrev header_sector : List ℕ
header_sector =
    codes "EFI PART"
    ++ (replicate 64 0
        ++ ((0 ∷ 0 ∷ 0 ∷ 0 ∷ 0 ∷ 0 ∷ 0 ∷ 0 ∷ 2 ∷ 0 ∷ 0 ∷ 0 ∷ 128 ∷ 0 ∷ 0 ∷ 0 ∷ [])
            ++ replicate 424 0))

-- A first slot that is empty, and the entry.
abbrev image : List ℕ
image = replicate 128 0 ++ entry

abbrev found : Partition
found = record {
  index = 1;
  type_guid = replicate 16 7;
  unique_guid = replicate 16 9;
  start = 20480;
  len = 1024;
  name = codes "a/";
}

reads_header : parse_header_sector header_sector ≡ ok header
unfolding parse_header_sector
reads_header = refl

reads_entries :
    read_entries header (record { image = image; pos = 7 })
    ≡ (ok (found ∷ []), record { image = image; pos = 256 })
unfolding read_entries read_at scan_entries
reads_entries = refl

read_entries-AreSlots_example :
    (2 * 128 ≤ 1024 * 1024)
    × (0 * 512 + 2 * 128 ≤ length image)
    × AreSlots image (0 * 512) 128 0 2 (found ∷ [])
read_entries-AreSlots_example =
    read_entries-AreSlots header_sector header (record { image = image; pos = 7 })
      (record { image = image; pos = 256 }) reads_header (omega arith) reads_entries

found_name : partition_name found ≡ codes "a_-1"
unfolding partition_name isomage.Gpt.sanitize isomage.Text.is_empty isomage.Text.Decimal.decimal
    isomage.Text.is_ascii_alphanumeric
found_name = refl

find_node-to_tree_example :
    find_node (to_tree (found ∷ [])) (partition_name found) ≡ some (partition_node found)
find_node-to_tree_example = find_node-to_tree 0 2 [] found [] (omega arith) (omega arith)
