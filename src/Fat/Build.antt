-- ===== src/Fat/Build.antt =====
-- src/formats/fat.rs: the tree of directories and files.
use isomage.Prelude.{
  ℕ, zero, suc, ◌+◌, Bool, true, false, ◌&&◌, not, List, [], ◌∷◌, ltb, leb, ◌==◌, if◌then◌else◌,
  length, get_or, Result, ok, err,
}
use isomage.Text.{codes}
use isomage.Word.{div_ceil}
use isomage.Reader.{Reader, M, ◌>>=◌, pure, seek_start}
use isomage.Tree.{
  TreeNode, new_file, new_file_with_location, new_directory, calculate_directory_size,
}
use isomage.Tree.Build.{add_all}
use isomage.Fat.Bpb.{Error, fat12, fat16, fat32, Context, read_bpb}
use isomage.Fat.Chain.{cluster_abs, cluster_chain}
use isomage.Fat.Dir.{RawEntry, read_dir_bytes, parse_dir_entries}

-- Every cluster follows the one before it.
unfoldable pub is_contiguous : List ℕ → Bool
is_contiguous [] = true
is_contiguous (a ∷ []) = true
is_contiguous (a ∷ b ∷ cs) = (b == a + 1) && is_contiguous (b ∷ cs)

-- The node of a file, given its chain.
unfoldable pub file_node : Context → RawEntry → List ℕ → TreeNode
file_node ctx entry chain =
    let required_clusters = div_ceil entry.file_size ctx.bytes_per_cluster in
    if not (length chain == 0) && is_contiguous chain && leb required_clusters (length chain)
    then new_file_with_location entry.name entry.file_size (cluster_abs ctx (get_or chain 0 0))
        entry.file_size
    else new_file entry.name entry.file_size

unfoldable pub build_file : Context → RawEntry → M Error TreeNode
build_file ctx entry =
    if leb 2 entry.start_cluster && ltb 0 entry.file_size
    then (cluster_chain ctx entry.start_cluster >>= λ chain. pure (file_node ctx entry chain))
    else pure (new_file entry.name entry.file_size)

-- The node of an entry; `subdirectory` reads the directory at a cluster.
unfoldable pub build_entry : Context → (ℕ → M Error (List TreeNode)) → RawEntry → M Error TreeNode
build_entry ctx subdirectory entry =
    if entry.is_dir
    then ((if leb 2 entry.start_cluster then subdirectory entry.start_cluster else pure [])
        >>= λ children. pure (add_all (new_directory entry.name) children))
    else build_file ctx entry

-- The loop over the entries, in order.
unfoldable pub build_entries :
    Context → (ℕ → M Error (List TreeNode)) → List RawEntry → M Error (List TreeNode)
build_entries ctx subdirectory [] = pure []
build_entries ctx subdirectory (e ∷ es) = do
  n ← build_entry ctx subdirectory e
  ns ← build_entries ctx subdirectory es
  pure (n ∷ ns)

-- The levels that may still be entered: at depth 33 the list is empty.
unfoldable pub build_tree : ℕ → Context → ℕ → M Error (List TreeNode)
build_tree zero ctx start_cluster = pure []
build_tree (suc levels) ctx start_cluster = do
  dir_bytes ← read_dir_bytes ctx start_cluster
  build_entries ctx (build_tree levels ctx) (parse_dir_entries dir_bytes)

-- Depths 0 to 32 are read.
abbrev pub max_levels : ℕ
max_levels = 33

abbrev pub is_ok : Result Error Context → Bool
is_ok (ok ctx) = true
is_ok (err e) = false

-- Whether the image looks like a FAT file system; the second part is the reader behind it.
unfoldable pub detect : Reader → Bool × Reader
detect r = (is_ok (read_bpb r).0, (seek_start r.pos (read_bpb r).1).1)

abbrev pub root_of : Context → ℕ
root_of ctx = elim ctx.fat_type [ fat12 ↦ 0 | fat16 ↦ 0 | fat32 ↦ ctx.root_cluster ]

unfoldable pub detect_and_parse : M Error TreeNode
detect_and_parse = do
  ctx ← read_bpb
  children ← build_tree max_levels ctx (root_of ctx)
  pure (calculate_directory_size (add_all (new_directory (codes "/")) children))
