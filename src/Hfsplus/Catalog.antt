-- ===== src/Hfsplus/Catalog.antt =====
-- src/formats/hfsplus.rs: the structures on disk, and the records of a leaf node.
use isomage.Prelude.{
  ℕ, zero, suc, ◌+◌, ◌-◌, ◌*◌, ◌/◌, Bool, true, false, ◌&&◌, ◌||◌, not, List, [], ◌∷◌, Option, none,
  some, ltb, leb, ◌==◌, if◌then◌else◌, length, drop, Result, ok, err,
}
use isomage.Text.{Str}
use isomage.Text.Utf8.{from_utf16_lossy}
use isomage.Bytes.{slice, be16, be32, be64}
use isomage.Word.{mul64}
use isomage.Reader.{IoError}

abbrev pub hfs_plus_magic : ℕ
hfs_plus_magic = 0x482b

abbrev pub hfsx_magic : ℕ
hfsx_magic = 0x4858

abbrev pub volume_header_size : ℕ
volume_header_size = 512

pub data Error : Type 0 where
  too_short bad_magic bad_version bad_catalog too_deep : Error
  io : IoError → Error

-- `extents` has the eight pairs of first block and number of blocks.
pub record ForkData : Type 0 where
  pub logical_size : ℕ
  pub total_blocks : ℕ
  pub extents : List (ℕ × ℕ)

unfoldable pub extents_from : ℕ → List ℕ → ℕ → List (ℕ × ℕ)
extents_from zero b off = []
extents_from (suc n) b off = (be32 b off, be32 b (off + 4)) ∷ extents_from n b (off + 8)

unfoldable pub fork_from_bytes : List ℕ → ForkData
unfolding extents_from
fork_from_bytes b = record {
  logical_size = be64 b 0;
  total_blocks = be32 b 12;
  extents = extents_from 8 b 16;
}

unfoldable pub first_extent_offset : ℕ → List (ℕ × ℕ) → Option ℕ
first_extent_offset block_size [] = none
first_extent_offset block_size ((start, count) ∷ extents) =
    if count == 0 then none else some (mul64 start block_size)

unfoldable pub are_empty : List (ℕ × ℕ) → Bool
are_empty [] = true
are_empty ((start, count) ∷ extents) = (count == 0) && are_empty extents

unfoldable pub is_single_extent : ℕ → List (ℕ × ℕ) → Bool
unfolding are_empty
is_single_extent total_blocks [] = false
is_single_extent total_blocks ((start, count) ∷ extents) =
    not (total_blocks == 0) && (count == total_blocks) && are_empty extents

pub record VolumeHeader : Type 0 where
  pub signature : ℕ
  pub version : ℕ
  pub file_count : ℕ
  pub folder_count : ℕ
  pub block_size : ℕ
  pub cat_file : ForkData

unfoldable pub volume_header_from_bytes : List ℕ → Result Error VolumeHeader
volume_header_from_bytes b =
    if ltb (length b) volume_header_size
    then err too_short
    else if not (be16 b 0 == hfs_plus_magic) && not (be16 b 0 == hfsx_magic)
    then err bad_magic
    else if not (be16 b 2 == 4) && not (be16 b 2 == 5)
    then err bad_version
    else ok (record {
      signature = be16 b 0;
      version = be16 b 2;
      file_count = be32 b 32;
      folder_count = be32 b 36;
      block_size = be32 b 40;
      cat_file = fork_from_bytes (slice b 272 352);
    })

pub record BTreeHeader : Type 0 where
  pub node_size : ℕ
  pub first_leaf_node : ℕ

unfoldable pub b_tree_header_from_bytes : List ℕ → BTreeHeader
b_tree_header_from_bytes b = record { node_size = be16 b 18; first_leaf_node = be32 b 10 }

-- `folder` has the parent's number, the name and the number; `file` the parent's number, the name,
-- the number, the length and the location; `thread` the number of its key and its type.
pub data CatalogRecord : Type 0 where
  folder : ℕ → Str → ℕ → CatalogRecord
  file : ℕ → Str → ℕ → ℕ → Option ℕ → CatalogRecord
  thread : ℕ → ℕ → CatalogRecord

-- `chunks_exact(2)` up to the first NUL unit.
unfoldable pub utf16_units_be : List ℕ → List ℕ
utf16_units_be [] = []
utf16_units_be (hi ∷ []) = []
utf16_units_be (hi ∷ lo ∷ bs) =
    let rest = utf16_units_be bs in
    let unit = 256 * hi + lo in if unit == 0 then [] else unit ∷ rest

unfoldable pub decode_utf16_be : List ℕ → Str
unfolding utf16_units_be from_utf16_lossy
decode_utf16_be bytes = from_utf16_lossy (utf16_units_be bytes)

unfoldable pub file_record : ℕ → ℕ → Str → List ℕ → CatalogRecord
file_record block_size parent_cnid name data_bytes =
    let data_fork = fork_from_bytes (slice data_bytes 88 168) in
    file parent_cnid name (be32 data_bytes 8) data_fork.logical_size (
      if is_single_extent data_fork.total_blocks data_fork.extents
      then first_extent_offset block_size data_fork.extents
      else none)

-- The match on the record type; a record that is skipped gives nothing.
unfoldable pub record_of_data : ℕ → ℕ → Str → List ℕ → Option CatalogRecord
record_of_data block_size parent_cnid name data_bytes =
    let record_type = be16 data_bytes 0 in
    if record_type == 1
    then (if ltb (length data_bytes) 12
        then none
        else some (folder parent_cnid name (be32 data_bytes 8)))
    else if record_type == 2
    then (if ltb (length data_bytes) 168
        then none
        else some (file_record block_size parent_cnid name data_bytes))
    else if (record_type == 3) || (record_type == 4)
    then some (thread parent_cnid record_type)
    else none

-- The key and the data of the record that begins with `rec_data`. The data begin at an even offset.
unfoldable pub record_at : ℕ → List ℕ → Option CatalogRecord
record_at block_size rec_data =
    let key_length = be16 rec_data 0 in
    let name_bytes_len = be16 rec_data 6 * 2 in
    let data_off = (2 + key_length + 1) / 2 * 2 in
    if ltb (length rec_data) 6
    then none
    else if ltb key_length 6 || ltb (length rec_data) (2 + key_length)
    then none
    else if ltb (length rec_data) (8 + name_bytes_len)
    then none
    else if ltb (length rec_data) (data_off + 2)
    then none
    else record_of_data block_size (be32 rec_data 2)
        (decode_utf16_be (slice rec_data 8 (8 + name_bytes_len))) (drop data_off rec_data)

-- Record `i`, by the table at the end of the node. `-` stops at 0 as `saturating_sub` does.
unfoldable pub nth_record : ℕ → List ℕ → ℕ → Option CatalogRecord
nth_record block_size node_buf i =
    let rec_start = be16 node_buf (length node_buf - 2 * (i + 1)) in
    if leb (length node_buf) rec_start then none else record_at block_size (drop rec_start node_buf)

unfoldable pub push_record : Option CatalogRecord → List CatalogRecord → List CatalogRecord
push_record none records = records
push_record (some rec) records = rec ∷ records

-- Records `i` to `num_records`, of which `left` are left. The break needs a node of one byte.
unfoldable pub records_from : ℕ → List ℕ → ℕ → ℕ → List CatalogRecord
records_from block_size node_buf i zero = []
records_from block_size node_buf i (suc left) =
    let rest = records_from block_size node_buf (suc i) left in
    if ltb (length node_buf) (length node_buf - 2 * (i + 1) + 2)
    then []
    else push_record (nth_record block_size node_buf i) rest

unfoldable pub parse_leaf_node_records : List ℕ → ℕ → ℕ → List CatalogRecord
unfolding records_from
parse_leaf_node_records node_buf num_records block_size =
    records_from block_size node_buf 0 num_records
