-- ===== src/Ext.antt =====
-- src/formats/ext.rs: the tree of an ext file system, and the entry points.
pub mod Layout
pub mod Blocks
pub mod Directory
pub mod Location
use isomage.Prelude.{
  ℕ, zero, suc, ◌+◌, Bool, true, false, List, [], ◌∷◌, Option, none, some, ◌==◌, if◌then◌else◌,
  Result, ok, err,
}
use isomage.Text.{Str, codes}
use isomage.Bytes.{le16}
use isomage.Reader.{
  Reader, M, IoError, ◌>>=◌, ◌>>◌, pure, lift, fail, map_error, stream_position, seek_start,
  read_at,
}
use isomage.Tree.{
  TreeNode, new_directory, new_file, new_file_with_location, add_child, calculate_directory_size,
}
use isomage.Ext.Layout.{
  Error, bad_superblock, io, ext_magic, superblock_offset, Superblock, read_superblock, Inode,
  is_dir, is_reg, is_symlink, is_inline, read_inode,
}
use isomage.Ext.Directory.{DirEntry, read_dir_entries, single_run_location}

-- Depths 0 to `MAX_DEPTH`.
abbrev pub max_levels : ℕ
max_levels = 33

unfoldable pub add_option : TreeNode → Option TreeNode → TreeNode
add_option parent none = parent
add_option parent (some child) = add_child parent child

unfoldable pub file_node : Str → ℕ → Option ℕ → TreeNode
file_node name size none = new_file name size
file_node name size (some offset) = new_file_with_location name size offset size

module _ (sb : Superblock) (base_offset : ℕ) where
  -- The loop over the entries; `build` makes the tree of one.
  unfoldable pub add_children :
      (Str → ℕ → M Error (Option TreeNode)) → List DirEntry → TreeNode → M Error TreeNode
  add_children build [] parent = pure parent
  add_children build (entry ∷ entries) parent = do
    child ← build entry.name entry.inode
    add_children build entries (add_option parent child)

  unfoldable pub build_directory :
      (Str → ℕ → M Error (Option TreeNode)) → Str → Inode → M Error (Option TreeNode)
  build_directory build name inode = do
    entries ← read_dir_entries sb base_offset inode
    parent ← add_children build entries (new_directory name)
    pure (some parent)

  unfoldable pub build_file : Str → Inode → M Error (Option TreeNode)
  build_file name inode =
      if is_inline inode
      then pure (some (new_file name inode.size))
      else (single_run_location sb base_offset inode >>= λ loc.
          pure (some (file_node name inode.size loc)))

  -- By the type of the inode; devices, pipes and sockets are left out.
  unfoldable pub build_inode :
      (Str → ℕ → M Error (Option TreeNode)) → Str → Inode → M Error (Option TreeNode)
  build_inode build name inode =
      if is_dir inode
      then build_directory build name inode
      else if is_reg inode
      then build_file name inode
      else if is_symlink inode
      then pure (some (new_file name inode.size))
      else pure none

  -- `levels` are left of the maximal depth.
  unfoldable pub build_tree : ℕ → Str → ℕ → M Error (Option TreeNode)
  build_tree zero name inode_num = pure none
  build_tree (suc levels) name inode_num =
      read_inode sb base_offset inode_num >>= λ inode. build_inode (build_tree levels) name inode

unfoldable pub has_magic : Result IoError (List ℕ) × Reader → Bool × Reader
has_magic (err e, r) = (false, r)
has_magic (ok magic_buf, r) = (le16 magic_buf 0 == ext_magic, r)

unfoldable pub detect_inner : Reader → Bool × Reader
detect_inner r = has_magic (read_at (r.pos + superblock_offset + 56) 2 r)

-- `let _ = file.seek(...)`: a failure to restore the position is ignored.
unfoldable pub restore : ℕ → Bool × Reader → Bool × Reader
restore saved (found, r) = (found, (seek_start saved r).1)

unfoldable pub detect : Reader → Bool × Reader
detect r = restore r.pos (detect_inner r)

unfoldable pub root_or_error : Option TreeNode → Result Error TreeNode
root_or_error none = err bad_superblock
root_or_error (some root) = ok (calculate_directory_size root)

-- The root is inode 2.
unfoldable pub detect_and_parse : M Error TreeNode
detect_and_parse = do
  base_offset ← map_error io stream_position
  sb ← read_superblock base_offset
  root ← build_tree sb base_offset max_levels (codes "/") 2
  lift (root_or_error root)
