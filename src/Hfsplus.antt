-- ===== src/Hfsplus.antt =====
-- src/formats/hfsplus.rs: the volume header, the leaves of the catalog, and the entry points.
pub mod Catalog
pub mod Build
pub mod Leaves
use isomage.Prelude.{
  ℕ, zero, suc, ◌+◌, ◌-◌, ◌*◌, ◌/◌, ◌%◌, ◌^◌, ◌&&◌, not, List, [], ◌∷◌, ◌++◌, Option, none, some,
  ltb, ◌==◌, if◌then◌else◌, min, drop, Result, ok, err,
}
use isomage.Bytes.{byte, be16, be32}
use isomage.Word.{add64, mul64}
use isomage.Reader.{
  Reader, M, IoError, unexpected_eof, invalid_input, ◌>>=◌, ◌>>◌, pure, lift, fail, map_error,
  stream_position, seek_start, read_exact,
}
use isomage.Tree.{TreeNode}
use isomage.Hfsplus.Catalog.{
  Error, too_short, bad_magic, bad_catalog, too_deep, io, hfs_plus_magic, hfsx_magic,
  volume_header_size, VolumeHeader, volume_header_from_bytes, BTreeHeader, b_tree_header_from_bytes,
  CatalogRecord, first_extent_offset, parse_leaf_node_records,
}
use isomage.Hfsplus.Build.{Order, build_tree}

abbrev pub volume_header_offset : ℕ
volume_header_offset = 1024

-- The end of the file is `TooShort`, any other failure is `Io`.
unfoldable pub eof_error : IoError → Error
eof_error unexpected_eof = too_short
eof_error invalid_input = io invalid_input

unfoldable pub read_field : ℕ → ℕ → M Error (List ℕ)
read_field offset n = do map_error io (seek_start offset); map_error eof_error (read_exact n)

unfoldable pub check_magic : List ℕ → Result Error (Unit {0})
check_magic sig =
    if not (be16 sig 0 == hfs_plus_magic) && not (be16 sig 0 == hfsx_magic)
    then err bad_magic
    else ok tt

unfoldable pub do_detect : M Error (Unit {0})
do_detect = do sig ← read_field volume_header_offset 2; lift (check_magic sig)

-- `let _ = r.seek(...)`: a failure to restore the position is ignored.
unfoldable pub restore : ℕ → Result Error (Unit {0}) × Reader → Result Error (Unit {0}) × Reader
restore saved (result, r) = (result, (seek_start saved r).1)

unfoldable pub detect : M Error (Unit {0})
detect r = restore r.pos (do_detect r)

unfoldable pub parse_volume_header : M Error VolumeHeader
parse_volume_header = do
  buf ← read_field volume_header_offset volume_header_size
  lift (volume_header_from_bytes buf)

-- The checks on the header node, from its first 120 bytes.
unfoldable pub check_header_node : List ℕ → Result Error BTreeHeader
check_header_node buf =
    let btree_header = b_tree_header_from_bytes (drop 14 buf) in
    if not (byte buf 8 == 1)
    then err bad_catalog
    else if ltb (be16 buf 10) 1
    then err too_short
    else if ltb btree_header.node_size 512
    then err bad_catalog
    else ok btree_header

-- A node of the chain: what it holds, if it is a leaf, and the next node.
unfoldable pub leaf_records : ℕ → List ℕ → List CatalogRecord
leaf_records block_size node_buf =
    if byte node_buf 8 == 255
    then parse_leaf_node_records node_buf (be16 node_buf 10) block_size
    else []

module _ (block_size cat_offset node_size : ℕ) where
  -- `rounds` is how often `visited` can still grow before it is greater than `max_nodes`.
  unfoldable pub leaf_loop : ℕ → ℕ → List CatalogRecord → M Error (List CatalogRecord)
  leaf_loop zero first_leaf records = fail too_deep
  leaf_loop (suc rounds) first_leaf records =
      read_field (add64 cat_offset (first_leaf * node_size)) node_size >>= λ node_buf.
      let records' = records ++ leaf_records block_size node_buf in
      let rest = leaf_loop rounds (be32 node_buf 0) records' in
      if be32 node_buf 0 == 0 then pure records' else rest

-- As a release build adds `u32`s.
unfoldable pub max_nodes : ℕ → ℕ → ℕ
max_nodes logical_size node_size = (min (logical_size / node_size) (2 ^ 32 - 1) + 1) % 2 ^ 32

unfoldable pub walk_leaves : VolumeHeader → ℕ → BTreeHeader → M Error (List CatalogRecord)
walk_leaves header cat_offset btree_header =
    if btree_header.first_leaf_node == 0
    then pure []
    else leaf_loop header.block_size cat_offset btree_header.node_size
        (suc (max_nodes header.cat_file.logical_size btree_header.node_size))
        btree_header.first_leaf_node []

unfoldable pub read_catalog_at : VolumeHeader → Option ℕ → M Error (List CatalogRecord)
read_catalog_at header none = pure []
read_catalog_at header (some cat_offset) = do
  header_node_buf ← read_field cat_offset 120
  btree_header ← lift (check_header_node header_node_buf)
  walk_leaves header cat_offset btree_header

unfoldable pub read_catalog_leaf_records : VolumeHeader → M Error (List CatalogRecord)
read_catalog_leaf_records header =
    read_catalog_at header (first_extent_offset header.block_size header.cat_file.extents)

-- `order` is the order in which the hash map of the folders is iterated.
unfoldable pub detect_and_parse : Order → M Error TreeNode
detect_and_parse order = do
  header ← parse_volume_header
  records ← read_catalog_leaf_records header
  pure (build_tree order records)
