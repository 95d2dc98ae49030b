-- ===== src/Udf/Allocation.antt =====
-- src/udf.rs: the extents of a file, from the allocation descriptors of its file entry.
use isomage.Prelude.{
  ℕ, zero, suc, ◌+◌, ◌-◌, ◌/◌, ◌%◌, ◌^◌, ◌&&◌, not, List, [], ◌∷◌, ◌++◌, Option, none, some, ltb,
  leb, ◌==◌, if◌then◌else◌, length, min, Result, ok, err,
}
use isomage.Bytes.{le16, le32, slice}
use isomage.Reader.{IoError}

-- The messages of the parser as constructors. `panic` is a slice out of range, and `no_fuel` a run
-- that the model's fuel does not cover.
pub data Error : Type 0 where
  no_markers no_anchor no_fsd_location no_physical_partition no_metadata_extents no_partition
        no_file_set no_extents :
      Error
  unsupported_tag : ℕ → Error
  io : IoError → Error
  panic no_fuel : Error

pub record ExtentAd : Type 0 where
  pub len : ℕ
  pub location : ℕ

pub record LongAd : Type 0 where
  pub len : ℕ
  pub location : ℕ
  pub partition : ℕ

pub record FileAllocation : Type 0 where
  pub extents : List ExtentAd
  pub total_length : ℕ
  pub inline_data : Option (List ℕ)

unfoldable pub read_extent_ad : List ℕ → ExtentAd
read_extent_ad buffer = record { len = le32 buffer 0; location = le32 buffer 4 }

unfoldable pub read_long_ad : List ℕ → LongAd
read_long_ad buffer = record {
  len = le32 buffer 0;
  location = le32 buffer 4;
  partition = le16 buffer 8;
}

-- The loop over short descriptors, of 8 bytes, or long ones, of 16, from `pos` to `limit`; the two
-- bits above the length are the type of the extent.
unfoldable pub ad_loop :
    ℕ → ℕ → List ℕ → ℕ → ℕ → List ExtentAd → ℕ → Result Error (List ExtentAd × ℕ)
ad_loop zero width fe_buffer limit pos extents total_length = err no_fuel
ad_loop (suc fuel) width fe_buffer limit pos extents total_length =
    let raw_length = le32 fe_buffer pos in
    let extent_type = raw_length / 2 ^ 30 in
    let len = raw_length % 2 ^ 30 in
    let extent : ExtentAd = record { len = len; location = le32 fe_buffer (pos + 4) } in
    let extents' = if extent_type == 0 then extents ++ extent ∷ [] else extents in
    let rest = ad_loop fuel width fe_buffer limit (pos + width) extents' (total_length + len) in
    if not (leb (pos + width) (length fe_buffer) && ltb pos limit)
    then ok (extents, total_length)
    else if len == 0
    then ok (extents, total_length)
    else if extent_type == 3
    then ok (extents, total_length)
    else rest

abbrev pub of_extents : List ExtentAd × ℕ → FileAllocation
of_extents (extents, total) = record { extents = extents; total_length = total; inline_data = none }

abbrev pub nothing : FileAllocation
nothing = record { extents = []; total_length = 0; inline_data = none }

unfoldable pub inline_allocation : List ℕ → ℕ → ℕ → FileAllocation
inline_allocation fe_buffer ad_offset ad_length =
    let limit = min (ad_offset + ad_length) (length fe_buffer) in
    if ltb ad_offset limit
    then record {
      extents = [];
      total_length = limit - ad_offset;
      inline_data = some (slice fe_buffer ad_offset limit);
    }
    else nothing

unfoldable pub single_extent : List ℕ → ℕ → FileAllocation
single_extent fe_buffer ad_offset =
    let ext = read_extent_ad (slice fe_buffer ad_offset (ad_offset + 8)) in
    if leb (ad_offset + 8) (length fe_buffer) && ltb 0 ext.len
    then record { extents = ext ∷ []; total_length = ext.len; inline_data = none }
    else nothing

unfoldable pub from_loop : Result Error (List ExtentAd × ℕ) → Result Error FileAllocation
from_loop (err e) = err e
from_loop (ok found) = ok (of_extents found)

-- The match on the type of the descriptors.
unfoldable pub by_ad_type : ℕ → List ℕ → ℕ → ℕ → Result Error FileAllocation
by_ad_type ad_type fe_buffer ad_offset ad_length =
    let loop : ℕ → Result Error FileAllocation = λ width.
      from_loop
        (ad_loop (suc (length fe_buffer)) width fe_buffer (ad_offset + ad_length) ad_offset [] 0) in
    if ad_type == 0
    then loop 8
    else if ad_type == 1
    then loop 16
    else if ad_type == 3
    then ok (inline_allocation fe_buffer ad_offset ad_length)
    else ok (single_extent fe_buffer ad_offset)

-- An allocation with neither extents nor data is an error.
unfoldable pub check_allocation : Result Error FileAllocation → Result Error FileAllocation
check_allocation (err e) = err e
check_allocation (ok alloc) = elim alloc.extents [
  | extent ∷ extents ↦ ok alloc
  | [] ↦ elim alloc.inline_data [ none ↦ err no_extents | some bytes ↦ ok alloc ]
]

-- The lengths of the extended attributes and of the descriptors stand at the first two offsets,
-- and the attributes and then the descriptors begin at the third.
unfoldable pub allocation_at : List ℕ → ℕ → ℕ → ℕ → Result Error FileAllocation
allocation_at fe_buffer ea_length_offset ad_length_offset ad_data_offset_base =
    let ad_type = le16 fe_buffer 18 % 8 in
    check_allocation (
      by_ad_type ad_type fe_buffer (ad_data_offset_base + le32 fe_buffer ea_length_offset)
        (le32 fe_buffer ad_length_offset))

unfoldable pub get_file_allocation : List ℕ → Result Error FileAllocation
get_file_allocation fe_buffer =
    let tag_id = le16 fe_buffer 0 in
    if tag_id == 261
    then allocation_at fe_buffer 168 172 176
    else if tag_id == 266
    then allocation_at fe_buffer 208 212 216
    else err (unsupported_tag tag_id)
