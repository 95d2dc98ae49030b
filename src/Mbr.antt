-- ===== src/Mbr.antt =====
-- src/formats/mbr.rs: the partition table of a Master Boot Record.
pub mod Table
use isomage.Prelude.{
  ℕ, zero, suc, ◌+◌, ◌*◌, Bool, true, false, ◌&&◌, ◌||◌, not, List, [], ◌∷◌, ◌++◌, ltb, ◌==◌,
  if◌then◌else◌, length, Result, ok, err,
}
use isomage.Text.{Str, codes}
use isomage.Text.Decimal.{decimal, hex2}
use isomage.Bytes.{byte, slice, le32}
use isomage.Reader.{M, IoError, ◌>>=◌, ◌>>◌, lift, fail, map_error, seek_start, read}
use isomage.Tree.{
  TreeNode, new_file, new_file_with_location, new_directory, add_child, calculate_directory_size,
}

abbrev pub sector_size : ℕ
sector_size = 512

pub record Partition : Type 0 where
  pub index : ℕ
  pub status : ℕ
  pub type_code : ℕ
  pub start : ℕ
  pub len : ℕ

pub data Error : Type 0 where
  too_short bad_signature protective_mbr : Error
  io : IoError → Error

-- The variables of the loop over the four slots.
pub record Scan : Type 0 where
  pub partitions : List Partition
  pub all_ee : Bool
  pub had_any : Bool

-- The loop's body for slot `i`; `continue` leaves the variables as they are.
unfoldable pub scan_slot : List ℕ → ℕ → Scan → Scan
unfolding slice le32
scan_slot sector i s =
    let off = 0x1be + 16 * i in
    let entry = slice sector off (off + 16) in
    let num_sectors = le32 entry 12 in
    if (byte entry 4 == 0) && (num_sectors == 0) then s else record {
      partitions =
          s.partitions
          ++ record {
            index = i;
            status = byte entry 0;
            type_code = byte entry 4;
            start = le32 entry 8 * sector_size;
            len = num_sectors * sector_size;
          }
            ∷ [];
      all_ee = if not (byte entry 4 == 0xee) then false else s.all_ee;
      had_any = true;
    }

-- `for i in 0..4`: the slots left, and the next one.
unfoldable pub scan_slots : List ℕ → ℕ → ℕ → Scan → Scan
scan_slots sector zero i s = s
scan_slots sector (suc n) i s = scan_slots sector n (i + 1) (scan_slot sector i s)

unfoldable pub parse_sector : List ℕ → Result Error (List Partition)
unfolding scan_slots scan_slot
parse_sector sector =
    let s = scan_slots sector 4 0 (record { partitions = []; all_ee = true; had_any = false }) in
    if ltb (length sector) sector_size
    then err too_short
    else if not (byte sector 0x1fe == 0x55) || not (byte sector 0x1ff == 0xaa)
    then err bad_signature
    else if s.had_any && s.all_ee && (length s.partitions == 1)
    then err protective_mbr
    else ok s.partitions

unfoldable pub parse : M Error (List Partition)
parse = do
  map_error io (seek_start 0)
  sector ← map_error io (read sector_size)
  if ltb (length sector) sector_size then fail too_short else lift (parse_sector sector)

unfoldable pub partition_name : Partition → Str
unfolding decimal hex2
partition_name p = codes "partition-" ++ (decimal p.index ++ (codes "-type-" ++ hex2 p.type_code))

unfoldable pub partition_node : Partition → TreeNode
unfolding partition_name new_file new_file_with_location
partition_node p =
    if p.len == 0
    then new_file (partition_name p) 0
    else new_file_with_location (partition_name p) p.len p.start p.len

unfoldable pub add_partitions : TreeNode → List Partition → TreeNode
unfolding partition_node add_child
add_partitions root [] = root
add_partitions root (p ∷ ps) = add_partitions (add_child root (partition_node p)) ps

unfoldable pub to_tree : List Partition → TreeNode
unfolding add_partitions new_directory calculate_directory_size
to_tree ps = calculate_directory_size (add_partitions (new_directory (codes "/")) ps)

unfoldable pub detect_and_parse : M Error TreeNode
detect_and_parse = do parts ← parse; lift (ok (to_tree parts))
