-- ===== src/Iso9660/Directory.antt =====
-- src/iso9660.rs: the records of a directory, and the tree below it.
use isomage.Prelude.{
  ℕ, zero, suc, ◌+◌, ◌*◌, ◌/◌, Bool, true, false, ◌&&◌, ◌||◌, not, List, none, some, ltb, leb, ◌==◌,
  if◌then◌else◌, length, drop, min, Result, ok, err,
}
use isomage.Text.{Str, codes, str_eq}
use isomage.Bytes.{byte, slice}
use isomage.Reader.{M, ◌>>=◌, pure, fail, lift, map_error, read_at}
use isomage.Tree.{TreeNode, new_directory, new_file_with_location, add_child}
use isomage.Iso9660.Record.{
  Error, io, no_fuel, VolumeDescriptorType, primary, joliet, DirectoryRecord,
  parse_directory_record, su_start_of, extract_rock_ridge_name,
}

abbrev pub sector_size : ℕ
sector_size = 2048

-- The signature in the system use area of the first record.
unfoldable pub has_rock_ridge : List ℕ → Bool
has_rock_ridge buffer =
    let record_length = byte buffer 0 in
    let su_start = su_start_of (byte buffer 32) in
    let sig = slice buffer su_start (su_start + 2) in
    if ltb (length buffer) 34
    then false
    else leb (su_start + 7) record_length
      && leb record_length (length buffer)
      && (str_eq sig (codes "SP")
          || str_eq sig (codes "RR")
          || str_eq sig (codes "NM")
          || str_eq sig (codes "PX"))

unfoldable pub detect_rock_ridge : DirectoryRecord → M Error Bool
detect_rock_ridge dir_record = do
  buffer ←
      map_error io
        (read_at (dir_record.extent_location * sector_size) (min dir_record.data_length 4096))
  pure (has_rock_ridge buffer)

abbrev pub is_dot : Str → Bool
is_dot name = str_eq name (codes ".") || str_eq name (codes "..")

abbrev pub is_primary : VolumeDescriptorType → Bool
is_primary primary = true
is_primary joliet = false

-- The Rock Ridge name of the record at `offset`, if it has one, takes the place of its own.
unfoldable pub rename :
    VolumeDescriptorType → Bool → List ℕ → ℕ → DirectoryRecord → Result Error DirectoryRecord
rename vd use_rock_ridge buffer offset entry =
    let record_length = byte buffer offset in
    if use_rock_ridge && is_primary vd && not (is_dot entry.filename)
    then (elim (extract_rock_ridge_name (slice buffer offset (offset + record_length)) record_length
        (byte buffer (offset + 32))) [
          | err e ↦ err e
          | ok none ↦ ok entry
          | ok (some rr_name) ↦ ok (record entry { filename = rr_name })
        ])
    else ok entry

-- What a record adds to the parent; `subdirectory` parses the directory that a record describes.
unfoldable pub add_record :
    (DirectoryRecord → TreeNode → M Error TreeNode) → DirectoryRecord → TreeNode → M Error TreeNode
add_record subdirectory entry parent =
    if is_dot entry.filename
    then pure parent
    else if entry.is_directory
    then (subdirectory entry (new_directory entry.filename) >>= λ dir_node.
        pure (add_child parent dir_node))
    else pure (
        add_child parent (
          new_file_with_location entry.filename entry.data_length
            (entry.extent_location * sector_size) entry.data_length))

-- A record that could not be parsed is skipped.
unfoldable pub after_parse :
    (DirectoryRecord → TreeNode → M Error TreeNode)
    → VolumeDescriptorType
    → Bool
    → List ℕ
    → ℕ
    → TreeNode
    → Result Error DirectoryRecord
    → M Error TreeNode
after_parse subdirectory vd use_rock_ridge buffer offset parent (err e) = pure parent
after_parse subdirectory vd use_rock_ridge buffer offset parent (ok entry) =
    lift (rename vd use_rock_ridge buffer offset entry) >>= λ renamed.
    add_record subdirectory renamed parent

-- The record at `offset`.
unfoldable pub read_record :
    (DirectoryRecord → TreeNode → M Error TreeNode)
    → VolumeDescriptorType
    → Bool
    → List ℕ
    → ℕ
    → TreeNode
    → M Error TreeNode
read_record subdirectory vd use_rock_ridge buffer offset parent =
    after_parse subdirectory vd use_rock_ridge buffer offset parent
      (parse_directory_record (drop offset buffer) vd)

-- The padding at the end of a sector is skipped.
unfoldable pub next_sector : ℕ → ℕ
next_sector offset =
    let next = (offset / sector_size + 1) * sector_size in
    if leb next offset then offset + 1 else next

-- The loop over the records of a buffer.
unfoldable pub record_loop :
    (DirectoryRecord → TreeNode → M Error TreeNode)
    → ℕ
    → VolumeDescriptorType
    → Bool
    → List ℕ
    → ℕ
    → TreeNode
    → M Error TreeNode
record_loop subdirectory zero vd use_rock_ridge buffer offset parent = fail no_fuel
record_loop subdirectory (suc fuel) vd use_rock_ridge buffer offset parent =
    let record_length = byte buffer offset in
    let padding =
      record_loop subdirectory fuel vd use_rock_ridge buffer (next_sector offset) parent in
    let rest : M Error TreeNode =
      read_record subdirectory vd use_rock_ridge buffer offset parent >>= λ parent'.
      record_loop subdirectory fuel vd use_rock_ridge buffer (offset + record_length) parent' in
    if leb (length buffer) offset
    then pure parent
    else if record_length == 0
    then padding
    else if ltb (length buffer) (offset + record_length)
    then pure parent
    else rest

-- On fuel for the depth: the source's recursion has no limit of its own.
unfoldable pub parse_directory :
    ℕ → VolumeDescriptorType → Bool → DirectoryRecord → TreeNode → M Error TreeNode
parse_directory zero vd use_rock_ridge dir_record parent = fail no_fuel
parse_directory (suc depth) vd use_rock_ridge dir_record parent =
    if not dir_record.is_directory || (dir_record.data_length == 0)
    then pure parent
    else (map_error io (read_at (dir_record.extent_location * sector_size) dir_record.data_length)
        >>= λ buffer.
            record_loop (parse_directory depth vd use_rock_ridge) (suc (length buffer)) vd
              use_rock_ridge buffer 0 parent)
