-- ===== src/Tests/FatRuns.antt =====
-- src/formats/fat.rs on a table of three clusters with a cycle, and on a boot sector.
use isomage.Prelude.{
  ℕ, ◌+◌, ◌*◌, ◌≤◌, ◌<◌, ◌≡◌, refl, List, [], ◌∷◌, ◌++◌, All, some, false, ok, replicate, take,
  length, arith,
}
use isomage.Text.{codes}
use isomage.Bytes.{slice, le16, le32}
use isomage.Reader.{Reader, read_at}
use isomage.Tree.{file_location, new_file, new_file_with_location}
use isomage.Fat.Bpb.{
  Context, fat12, fat16, is_eoc, is_bad_cluster, read_fields, parse_bpb, is_plausible,
  is_sector_size, is_power_of_two, cluster_count, choose_fat_type, choose_root_cluster, geometry,
}
use isomage.Fat.Chain.{
  cluster_abs, cluster_chain, chain_loop, is_stop, fat_entry, entry_offset, entry_width,
  decode_entry,
}
use isomage.Fat.Dir.{RawEntry, read_clusters}
use isomage.Fat.Build.{file_node, is_contiguous}
use isomage.Fat.Walk.{IsData, cluster_chain_fuel, cluster_chain-IsData}
use isomage.Fat.Extent.{file_node-location}
use isomage.Fat.Geometry.{cluster_abs_inside}

-- Entries 2, 3 and 4 of a FAT16 table point at 3, 4 and 2.
abbrev table : List ℕ
table = 0 ∷ 0 ∷ 0 ∷ 0 ∷ 3 ∷ 0 ∷ 4 ∷ 0 ∷ 2 ∷ 0 ∷ []

abbrev ctx : Context
ctx = record {
  base_offset = 0;
  fat_type = fat16;
  bytes_per_cluster = 2;
  fat_start_rel = 0;
  root_dir_rel = 10;
  root_dir_size_bytes = 0;
  data_start_rel = 10;
  root_cluster = 0;
  total_clusters = 3;
}

abbrev image : List ℕ
image = table ++ codes "abcdef"

abbrev reader : Reader
reader = record { image = image; pos = 0 }

cycle_ends :
    cluster_chain ctx 2 reader ≡ (ok (2 ∷ 3 ∷ 4 ∷ 2 ∷ []), record { image = image; pos = 10 })
unfolding cluster_chain chain_loop is_stop is_eoc is_bad_cluster fat_entry entry_offset entry_width
    decode_entry le16 read_at
cycle_ends = refl

cluster_chain_fuel_example : chain_loop (3 + 1 + 9) ctx [] 2 reader ≡ cluster_chain ctx 2 reader
cluster_chain_fuel_example = cluster_chain_fuel 9 ctx 2 reader

cluster_chain-IsData_example :
    All (IsData ctx) (2 ∷ 3 ∷ 4 ∷ 2 ∷ []) × (length {A = ℕ} (2 ∷ 3 ∷ 4 ∷ 2 ∷ []) ≤ 4)
cluster_chain-IsData_example =
    cluster_chain-IsData ctx 2 reader (record { image = image; pos = 10 }) cycle_ends

abbrev small_file : RawEntry
small_file = record { name = codes "F"; is_dir = false; file_size = 3; start_cluster = 2 }

reads_two :
    read_clusters ctx [] (2 ∷ 3 ∷ []) reader
    ≡ (ok (codes "abcd"), record { image = image; pos = 14 })
unfolding read_clusters cluster_abs read_at
reads_two = refl

at_ten : file_location (file_node ctx small_file (2 ∷ 3 ∷ [])) ≡ some 10
unfolding file_node new_file new_file_with_location is_contiguous cluster_abs
at_ten = refl

file_node-location_example : take 3 (codes "abcd") ≡ slice image 10 13
file_node-location_example =
    file_node-location ctx small_file (2 ∷ 3 ∷ []) reader (record { image = image; pos = 14 })
      (omega arith) (omega arith) at_ten reads_two

-- 512-byte sectors, one per cluster, 1 reserved, one table of one sector, 16 root entries and
-- 100 sectors.
abbrev boot : List ℕ
boot =
    replicate 11 0
    ++ ((0 ∷ 2 ∷ 1 ∷ 1 ∷ 0 ∷ 1 ∷ 16 ∷ 0 ∷ 100 ∷ 0 ∷ 0 ∷ 1 ∷ 0 ∷ [])
        ++ (replicate 486 0 ++ 0x55 ∷ 0xaa ∷ []))

abbrev boot_ctx : Context
boot_ctx = record {
  base_offset = 0;
  fat_type = fat12;
  bytes_per_cluster = 512;
  fat_start_rel = 512;
  root_dir_rel = 1024;
  root_dir_size_bytes = 512;
  data_start_rel = 1536;
  root_cluster = 0;
  total_clusters = 97;
}

boots : parse_bpb 0 boot ≡ ok boot_ctx
unfolding parse_bpb read_fields is_plausible is_sector_size is_power_of_two cluster_count
    choose_fat_type choose_root_cluster geometry le32
boots = refl

cluster_abs_inside_example :
    (0 < 512)
    × (0 ≤ cluster_abs boot_ctx 98)
    × (cluster_abs boot_ctx 98 + 512
        ≤ 0 + (read_fields boot).total_sectors * (read_fields boot).bytes_per_sector)
cluster_abs_inside_example = cluster_abs_inside 0 boot 98 boots (omega arith)
