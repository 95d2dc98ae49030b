-- ===== src/Gpt.antt =====
-- src/formats/gpt.rs: the header and the partition entries of a GUID partition table.
pub mod Entries
pub mod Array
pub mod Names
use isomage.Prelude.{
  ℕ, zero, suc, ◌+◌, ◌-◌, ◌*◌, ◌%◌, ◌^◌, Bool, true, false, ◌||◌, not, List, [], ◌∷◌, ◌++◌, map,
  ltb, ◌==◌, if◌then◌else◌, length, Result, ok, err,
}
use isomage.Text.{Str, codes, str_eq, is_empty, is_ascii_alphanumeric}
use isomage.Text.Decimal.{decimal}
use isomage.Text.Utf8.{from_utf16_lossy}
use isomage.Word.{mul64, saturating_add, saturating_mul}
use isomage.Bytes.{byte, slice, le16, le32, le64, all_zero}
use isomage.Reader.{M, IoError, ◌>>=◌, ◌>>◌, lift, fail, map_error, seek_start, read, read_at}
use isomage.Tree.{
  TreeNode, new_file, new_file_with_location, new_directory, add_child, calculate_directory_size,
}

abbrev pub sector_size : ℕ
sector_size = 512

abbrev pub signature : List ℕ
signature = codes "EFI PART"

pub record Partition : Type 0 where
  pub index : ℕ
  pub type_guid : List ℕ
  pub unique_guid : List ℕ
  pub start : ℕ
  pub len : ℕ
  pub name : Str

pub data Error : Type 0 where
  too_short bad_signature : Error
  unsupported_entry_size : ℕ → Error
  io : IoError → Error

pub record Header : Type 0 where
  pub entries_lba : ℕ
  pub num_entries : ℕ
  pub entry_size : ℕ

unfoldable pub parse_header_sector : List ℕ → Result Error Header
unfolding slice str_eq le64 le32
parse_header_sector sector =
    let entry_size = le32 sector 84 in
    if ltb (length sector) sector_size
    then err too_short
    else if not (str_eq (slice sector 0 8) signature)
    then err bad_signature
    else if ltb entry_size 128
    then err (unsupported_entry_size entry_size)
    else ok (record {
      entries_lba = le64 sector 72;
      num_entries = le32 sector 80;
      entry_size = entry_size;
    })

unfoldable pub read_header : M Error Header
read_header = do
  map_error io (seek_start sector_size)
  sector ← map_error io (read sector_size)
  if ltb (length sector) sector_size then fail too_short else lift (parse_header_sector sector)

-- `chunks_exact(2)` up to the first NUL unit.
unfoldable pub utf16_units : List ℕ → List ℕ
utf16_units [] = []
utf16_units (lo ∷ []) = []
utf16_units (lo ∷ hi ∷ bs) =
    let rest = utf16_units bs in let unit = lo + 256 * hi in if unit == 0 then [] else unit ∷ rest

unfoldable pub decode_utf16le : List ℕ → Str
unfolding utf16_units from_utf16_lossy
decode_utf16le bytes = from_utf16_lossy (utf16_units bytes)

-- The partition of an entry in slot `i`, as the loop pushes it.
unfoldable pub entry_partition : ℕ → List ℕ → Partition
unfolding slice le64 decode_utf16le
entry_partition i entry =
    let first_lba = le64 entry 32 in
    let last_lba = le64 entry 40 in
    record {
      index = i;
      type_guid = slice entry 0 16;
      unique_guid = slice entry 16 32;
      start = mul64 first_lba sector_size;
      len = saturating_mul (saturating_add last_lba 1 - first_lba) sector_size;
      name = decode_utf16le (slice entry 56 (56 + 72));
    }

-- The loop over the entries: how many are left, the next one, and what has been pushed.
unfoldable pub scan_entries : List ℕ → ℕ → ℕ → ℕ → List Partition → List Partition
unfolding slice all_zero entry_partition
scan_entries buf entry_size zero i partitions = partitions
scan_entries buf entry_size (suc n) i partitions =
    let start = i * entry_size in
    let entry = slice buf start (start + entry_size) in
    scan_entries buf entry_size n (i + 1) (
      if all_zero (slice entry 0 16)
      then partitions
      else partitions ++ entry_partition i entry ∷ [])

abbrev pub max_array : ℕ
max_array = 1024 * 1024

unfoldable pub read_entries : Header → M Error (List Partition)
read_entries header =
    let total = saturating_mul header.num_entries header.entry_size in
    if ltb max_array total then fail (unsupported_entry_size header.entry_size) else do
      buf ← map_error io (read_at (mul64 header.entries_lba sector_size) total)
      lift (ok (scan_entries buf header.entry_size header.num_entries 0 []))

unfoldable pub parse : M Error (List Partition)
parse = do header ← read_header; read_entries header

abbrev pub safe_char : ℕ → ℕ
safe_char c =
    if is_ascii_alphanumeric c || (c == b'.') || (c == b'_') || (c == b'-') then c else b'_'

unfoldable pub sanitize : Str → Str
sanitize s = map safe_char s

unfoldable pub partition_name : Partition → Str
partition_name p =
    let basename =
      if is_empty p.name then codes "partition-" ++ decimal p.index else sanitize p.name in
    basename ++ b'-' ∷ decimal p.index

unfoldable pub partition_node : Partition → TreeNode
unfolding new_file new_file_with_location
partition_node p =
    if p.len == 0
    then new_file (partition_name p) 0
    else new_file_with_location (partition_name p) p.len p.start p.len

unfoldable pub add_partitions : TreeNode → List Partition → TreeNode
unfolding add_child
add_partitions root [] = root
add_partitions root (p ∷ ps) = add_partitions (add_child root (partition_node p)) ps

unfoldable pub to_tree : List Partition → TreeNode
to_tree ps = calculate_directory_size (add_partitions (new_directory (codes "/")) ps)

unfoldable pub detect_and_parse : M Error TreeNode
detect_and_parse = do parts ← parse; lift (ok (to_tree parts))
