-- ===== src/Ntfs.antt =====
-- src/formats/ntfs.rs: the records of a volume, the tree, and the entry points.
pub mod Record
pub mod Attributes
pub mod Info
pub mod Fixup
pub mod Walk
pub mod Runs
use isomage.Prelude.{
  ℕ, zero, suc, ◌+◌, Bool, true, false, ◌&&◌, ◌||◌, not, List, [], ◌∷◌, Option, none, some, ltb,
  ◌==◌, if◌then◌else◌, Result, ok, err,
}
use isomage.Text.{Str, codes, str_eq}
use isomage.Word.{add64, mul64}
use isomage.Reader.{
  Reader, M, IoError, ◌>>=◌, ◌>>◌, pure, lift, fail, map_error, stream_position, seek_start,
  read_exact,
}
use isomage.Tree.{
  TreeNode, new_file, new_file_with_location, new_directory, add_child, calculate_directory_size,
}
use isomage.Ntfs.Record.{
  Error, too_short, io, oem_id, BootSector, parse_boot_sector, read_mft_record,
}
use isomage.Ntfs.Info.{RecordInfo, extract_record_info}

abbrev pub system_record_count : ℕ
system_record_count = 12

abbrev pub root_mft_record : ℕ
root_mft_record = 5

-- The numbers 0 to 1,000,000.
abbrev pub max_records : ℕ
max_records = 1000001

-- Depths 0 to `MAX_DEPTH`.
abbrev pub max_levels : ℕ
max_levels = 33

unfoldable pub file_node : RecordInfo → Option ℕ → TreeNode
file_node info none = new_file info.name info.file_size
file_node info (some loc) = new_file_with_location info.name info.file_size loc info.file_size

-- The entry of the hash map for a number: the records with that parent, in their order, but for
-- those that are their own parent.
unfoldable pub children_of : ℕ → List RecordInfo → List RecordInfo
children_of num [] = []
children_of num (info ∷ records) =
    if (info.parent_ref == num) && not (info.parent_ref == info.mft_num)
    then info ∷ children_of num records
    else children_of num records

unfoldable pub add_option : TreeNode → Option TreeNode → TreeNode
add_option parent none = parent
add_option parent (some child) = add_child parent child

-- The loop over the children; `build` makes the tree of a directory.
unfoldable pub add_children : (ℕ → Str → Option TreeNode) → List RecordInfo → TreeNode → TreeNode
add_children build [] parent = parent
add_children build (info ∷ infos) parent = add_children build infos (
    if info.is_directory
    then add_option parent (build info.mft_num info.name)
    else add_child parent (file_node info info.file_location))

-- `levels` are left of the maximal depth. `none` stands for `TooDeep`, the only error, on which the
-- caller skips the subtree.
unfoldable pub build_tree_recursive : List RecordInfo → ℕ → ℕ → Str → Option TreeNode
build_tree_recursive records zero mft_num name = none
build_tree_recursive records (suc levels) mft_num name = some (
    add_children (build_tree_recursive records levels) (children_of mft_num records)
      (new_directory name))

unfoldable pub is_oem : Result IoError (List ℕ) × Reader → Bool × Reader
is_oem (err e, r) = (false, r)
is_oem (ok oem, r) = (str_eq oem oem_id, r)

unfoldable pub after_seek : Result IoError ℕ × Reader → Bool × Reader
after_seek (err e, r) = (false, r)
after_seek (ok n, r) = is_oem (read_exact 8 r)

unfoldable pub detect_inner : ℕ → Reader → Bool × Reader
detect_inner base r = after_seek (seek_start (base + 3) r)

-- `let _ = file.seek(...)`: a failure to restore the position is ignored.
unfoldable pub restore : ℕ → Bool × Reader → Bool × Reader
restore saved (found, r) = (found, (seek_start saved r).1)

unfoldable pub detect : Reader → Bool × Reader
detect r = restore r.pos (detect_inner r.pos r)

unfoldable pub too_short_error : IoError → Error
too_short_error e = too_short

unfoldable pub read_boot_sector : ℕ → M Error BootSector
read_boot_sector base = do
  map_error io (seek_start base)
  boot_buf ← map_error too_short_error (read_exact 512)
  lift (parse_boot_sector boot_buf)

unfoldable pub push_info : Option RecordInfo → List RecordInfo → List RecordInfo
push_info none records = records
push_info (some info) records = info ∷ records

module _ (base : ℕ) (boot : BootSector) where
  unfoldable pub record_offset : ℕ → ℕ
  record_offset mft_num = add64 (add64 base boot.mft_offset) (mul64 mft_num boot.mft_record_size)

  -- What a slot of the table gives; the root and the other system records give nothing.
  unfoldable pub slot_info : ℕ → Option (List ℕ) → Result Error (Option RecordInfo)
  slot_info mft_num none = ok none
  slot_info mft_num (some buf) =
      if ltb mft_num system_record_count
      then ok none
      else extract_record_info buf mft_num (record_offset mft_num) boot.cluster_size base

  -- The slots from `mft_num` on, of which `left` are left.
  unfoldable pub mft_loop : ℕ → ℕ → M Error (List RecordInfo)
  mft_loop zero mft_num = pure []
  mft_loop (suc left) mft_num = do
    slot ← read_mft_record (record_offset mft_num) boot.mft_record_size
    info ← lift (slot_info mft_num slot)
    records ← mft_loop left (suc mft_num)
    pure (push_info info records)

unfoldable pub root_or_error : Option TreeNode → Result Error TreeNode
root_or_error none = err Error.too_deep
root_or_error (some root) = ok (calculate_directory_size root)

unfoldable pub detect_and_parse : M Error TreeNode
detect_and_parse = do
  base ← map_error io stream_position
  boot ← read_boot_sector base
  records ← mft_loop base boot max_records 0
  lift (root_or_error (build_tree_recursive records max_levels root_mft_record (codes "/")))
