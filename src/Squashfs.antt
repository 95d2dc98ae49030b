-- ===== src/Squashfs.antt =====
-- src/formats/squashfs.rs: the tree of a SquashFS image, and the entry points.
pub mod Layout
pub mod Directory
pub mod Listing
use isomage.Prelude.{
  ℕ, zero, suc, ◌/◌, ◌%◌, ◌^◌, false, not, ◌||◌, List, [], ◌∷◌, Option, none, some, ◌==◌,
  if◌then◌else◌, Result, ok, err,
}
use isomage.Text.{Str, codes}
use isomage.Bytes.{le32}
use isomage.Reader.{
  Reader, M, IoError, ◌>>=◌, ◌>>◌, pure, lift, fail, map_error, stream_position, seek_start,
  read_exact,
}
use isomage.Tree.{
  TreeNode, node, nil, new_file, new_file_with_location, new_directory, add_child,
  calculate_directory_size,
}
use isomage.Squashfs.Layout.{
  Error, bad_magic, compressed, too_deep, io, eof_error, magic_le, Superblock, DirInfo, RegInfo,
  Inode, dir, reg, other, file_location_for_reg, read_superblock, is_inodes_uncompressed,
  is_data_uncompressed,
}
use isomage.Squashfs.Directory.{DirEntry, read_and_parse_inode, parse_directory}

-- Depths 0 to `MAX_DEPTH`.
abbrev pub max_levels : ℕ
max_levels = 65

unfoldable pub regular_node : Str → ℕ → Option ℕ → TreeNode
regular_node name file_size none = node name file_size false nil none (some file_size)
regular_node name file_size (some loc) = new_file_with_location name file_size loc file_size

module _ (sb : Superblock) where
  -- The loop over the entries; `build` makes the tree of one.
  unfoldable pub add_children :
      (Str → ℕ → ℕ → M Error TreeNode) → List DirEntry → TreeNode → M Error TreeNode
  add_children build [] parent = pure parent
  add_children build (entry ∷ entries) parent = do
    child ← build entry.name entry.inode_block entry.inode_offset
    add_children build entries (add_child parent child)

  -- The match on the type; what is no directory and no regular file is an empty file.
  unfoldable pub build_inode : (Str → ℕ → ℕ → M Error TreeNode) → Str → Inode → M Error TreeNode
  build_inode build name (dir info) =
      parse_directory sb.directory_table_start info.start_block info.offset info.file_size
      >>= λ entries. add_children build entries (new_directory name)
  build_inode build name (reg info) =
      pure (regular_node name info.file_size (file_location_for_reg info))
  build_inode build name other = pure (new_file name 0)

  -- `levels` are left of the maximal depth.
  unfoldable pub build_tree : ℕ → Str → ℕ → ℕ → M Error TreeNode
  build_tree zero name block_idx offset = fail too_deep
  build_tree (suc levels) name block_idx offset =
      read_and_parse_inode sb.inode_table_start block_idx offset sb.block_size >>= λ inode.
      build_inode (build_tree levels) name inode

unfoldable pub check_magic : List ℕ → Result Error (Unit {0})
check_magic buf = if le32 buf 0 == magic_le then ok tt else err bad_magic

unfoldable pub detect_inner : M Error (Unit {0})
detect_inner = do
  map_error io (seek_start 0)
  buf ← map_error eof_error (read_exact 4)
  lift (check_magic buf)

-- `let _ = r.seek(...)`: a failure to restore the position is ignored.
unfoldable pub restore : ℕ → Result Error (Unit {0}) × Reader → Result Error (Unit {0}) × Reader
restore pos (result, r) = (result, (seek_start pos r).1)

unfoldable pub detect : M Error (Unit {0})
detect r = restore r.pos (detect_inner r)

unfoldable pub root_tree : Superblock → M Error TreeNode
root_tree sb = do
  root ← build_tree sb max_levels (codes "/") (sb.root_inode / 2 ^ 16) (sb.root_inode % 2 ^ 16)
  pure (calculate_directory_size root)

unfoldable pub detect_and_parse : M Error TreeNode
detect_and_parse = do
  sb ← read_superblock
  if not (is_inodes_uncompressed sb) || not (is_data_uncompressed sb)
      then fail compressed
      else root_tree sb
