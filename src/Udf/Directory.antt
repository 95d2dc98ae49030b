-- ===== src/Udf/Directory.antt =====
-- src/udf.rs: the file identifiers of a directory, and the tree below it.
use isomage.Prelude.{
  ℕ, zero, suc, ◌+◌, ◌*◌, ◌/◌, ◌%◌, Bool, true, false, ◌&&◌, not, List, [], ◌∷◌, ◌++◌, none, some,
  ltb, leb, ◌==◌, if◌then◌else◌, length, Result, ok, err,
}
use isomage.Text.{Str, is_empty}
use isomage.Text.Utf8.{from_utf8_lossy, from_utf16_lossy}
use isomage.Bytes.{byte, le16, slice}
use isomage.Reader.{Reader, M, ◌>>=◌, pure, fail, lift, map_error, read_at}
use isomage.Tree.{TreeNode, new_directory, new_file, new_file_with_location, add_child}
use isomage.Iso9660.Record.{be_units}
use isomage.Udf.Allocation.{
  Error, io, no_fuel, ExtentAd, LongAd, FileAllocation, read_long_ad, get_file_allocation,
}

abbrev pub sector_size : ℕ
sector_size = 2048

-- The first byte says how the rest is encoded.
unfoldable pub parse_udf_name : List ℕ → Str
parse_udf_name [] = []
parse_udf_name (compression_id ∷ bytes) =
    if compression_id == 8
    then from_utf8_lossy bytes
    else if compression_id == 16
    then from_utf16_lossy (be_units bytes)
    else from_utf8_lossy (compression_id ∷ bytes)

unfoldable pub get_file_info : ℕ → LongAd → M Error FileAllocation
get_file_info partition_start icb_long_ad = do
  fe_buffer ←
      map_error io (read_at ((partition_start + icb_long_ad.location) * sector_size) sector_size)
  lift (get_file_allocation fe_buffer)

-- The bytes of the extents, one after the other.
unfoldable pub read_extents : ℕ → List ExtentAd → M Error (List ℕ)
read_extents partition_start [] = pure []
read_extents partition_start (extent ∷ extents) = do
  chunk ← map_error io (read_at ((partition_start + extent.location) * sector_size) extent.len)
  rest ← read_extents partition_start extents
  pure (chunk ++ rest)

unfoldable pub directory_data : ℕ → FileAllocation → M Error (List ℕ)
directory_data partition_start alloc = elim alloc.inline_data [
  | some bytes ↦ pure bytes
  | none ↦ read_extents partition_start alloc.extents
]

unfoldable pub file_node : ℕ → Str → FileAllocation → TreeNode
file_node partition_start name alloc = elim alloc.extents [
  | [] ↦ new_file name alloc.total_length
  | first ∷ extents ↦
      new_file_with_location name alloc.total_length
        ((partition_start + first.location) * sector_size) alloc.total_length
]

-- A file whose entry cannot be read is empty.
unfoldable pub after_info :
    ℕ → Str → TreeNode → Result Error FileAllocation × Reader → Result Error TreeNode × Reader
after_info partition_start name parent (ok alloc, r) =
    (ok (add_child parent (file_node partition_start name alloc)), r)
after_info partition_start name parent (err e, r) = (ok (add_child parent (new_file name 0)), r)

abbrev pub is_no_fuel : Error → Bool
is_no_fuel no_fuel = true
is_no_fuel e = false

-- A subdirectory that cannot be parsed is empty: parsing fails only before it adds children.
unfoldable pub after_subdirectory :
    TreeNode → TreeNode → Result Error TreeNode × Reader → Result Error TreeNode × Reader
after_subdirectory parent dir_node (ok parsed, r) = (ok (add_child parent parsed), r)
after_subdirectory parent dir_node (err e, r) =
    (if is_no_fuel e then err no_fuel else ok (add_child parent dir_node), r)

-- What a file identifier adds to the parent; `subdirectory` parses the directory at an entry.
unfoldable pub add_entry :
    (LongAd → TreeNode → M Error TreeNode) → ℕ → LongAd → ℕ → Str → TreeNode → M Error TreeNode
add_entry subdirectory partition_start icb file_characteristics name parent r =
    let is_directory = file_characteristics / 2 % 2 == 1 in
    let is_deleted = file_characteristics / 4 % 2 == 1 in
    let is_parent = file_characteristics / 8 % 2 == 1 in
    if not is_deleted && not is_parent && not (is_empty name)
    then (if is_directory
        then after_subdirectory parent (new_directory name)
            (subdirectory icb (new_directory name) r)
        else after_info partition_start name parent (get_file_info partition_start icb r))
    else (ok parent, r)

-- The name of the identifier at `offset`, behind the implementation use.
unfoldable pub fid_name : List ℕ → ℕ → Str
fid_name buffer offset =
    let name_offset = offset + 38 + le16 buffer (offset + 36) in
    parse_udf_name (slice buffer name_offset (name_offset + byte buffer (offset + 19)))

-- The length of the identifier at `offset`, padded to a multiple of 4.
unfoldable pub fid_padded : List ℕ → ℕ → ℕ
fid_padded buffer offset = (38 + le16 buffer (offset + 36) + byte buffer (offset + 19) + 3) / 4 * 4

-- The loop over the identifiers.
unfoldable pub fid_loop :
    (LongAd → TreeNode → M Error TreeNode) → ℕ → ℕ → List ℕ → ℕ → TreeNode → M Error TreeNode
fid_loop subdirectory zero partition_start buffer offset parent = fail no_fuel
fid_loop subdirectory (suc fuel) partition_start buffer offset parent =
    let tag_id = le16 buffer offset in
    let length_of_fi = byte buffer (offset + 19) in
    let name_offset = offset + 38 + le16 buffer (offset + 36) in
    let icb = read_long_ad (slice buffer (offset + 20) (offset + 36)) in
    let padding = fid_loop subdirectory fuel partition_start buffer (offset + 4) parent in
    let rest : M Error TreeNode =
      add_entry subdirectory partition_start icb (byte buffer (offset + 18))
        (fid_name buffer offset) parent
      >>= λ parent'.
          fid_loop subdirectory fuel partition_start buffer (offset + fid_padded buffer offset)
            parent' in
    if leb (length buffer) offset
    then pure parent
    else if ltb (length buffer) (offset + 40)
    then pure parent
    else if tag_id == 0
    then padding
    else if not (tag_id == 257)
    then pure parent
    else if ltb (length buffer) (name_offset + length_of_fi)
    then pure parent
    else rest

-- On fuel for the depth: the source's recursion has no limit of its own.
unfoldable pub parse_directory : ℕ → ℕ → LongAd → TreeNode → M Error TreeNode
parse_directory zero partition_start icb_long_ad parent = fail no_fuel
parse_directory (suc depth) partition_start icb_long_ad parent = do
  alloc ← get_file_info partition_start icb_long_ad
  buffer ← directory_data partition_start alloc
  fid_loop (parse_directory depth partition_start) (suc (length buffer)) partition_start buffer 0
      parent
