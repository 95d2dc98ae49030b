-- ===== src/Udf.antt =====
-- src/udf.rs: the recognition of a volume, its descriptors, and the entry point.
pub mod Allocation
pub mod Directory
pub mod Sequence
pub mod Contents
pub mod Loops
pub mod Identifiers
pub mod Nesting
use isomage.Prelude.{
  ℕ, zero, suc, ◌+◌, ◌-◌, ◌*◌, ◌/◌, ◌%◌, ◌^◌, Bool, true, false, ◌&&◌, ◌||◌, not, List, [], ◌∷◌,
  ◌++◌, Option, none, some, ltb, leb, ◌==◌, if◌then◌else◌, length, drop, min, Result, ok, err,
}
use isomage.Text.{Str, codes, str_eq}
use isomage.Bytes.{byte, le16, le32, slice}
use isomage.Reader.{Reader, IoError, M, ◌>>=◌, ◌>>◌, pure, fail, lift, map_error, seek_end, read_at}
use isomage.Tree.{TreeNode, new_directory, calculate_directory_size}
use isomage.Udf.Allocation.{
  Error, no_markers, no_anchor, no_fsd_location, no_physical_partition, no_metadata_extents,
  no_partition, no_file_set, io, ExtentAd, LongAd, FileAllocation, read_extent_ad, read_long_ad,
  get_file_allocation,
}
use isomage.Udf.Directory.{sector_size, parse_directory}
use isomage.Udf.Sequence.{
  Volume, PartitionInfo, MetadataPartitionInfo, VdsStep, stop, again, vds_step,
}

unfoldable pub is_marker : List ℕ → Bool
is_marker buffer =
    let id = slice buffer 1 6 in
    str_eq id (codes "NSR02")
    || str_eq id (codes "NSR03")
    || str_eq id (codes "BEA01")
    || str_eq id (codes "TEA01")

-- A sector that cannot be read is passed over.
unfoldable pub after_marker :
    (Reader → Bool × Reader) → Result IoError (List ℕ) × Reader → Bool × Reader
after_marker next (err e, r) = next r
after_marker next (ok buffer, r) = let rest = next r in if is_marker buffer then (true, r) else rest

-- `count` sectors from `sector` on.
unfoldable pub vrs_loop : ℕ → ℕ → Reader → Bool × Reader
vrs_loop zero sector r = (false, r)
vrs_loop (suc count) sector r =
    after_marker (vrs_loop count (suc sector)) (read_at (sector * sector_size) 16 r)

unfoldable pub contains : ℕ → List ℕ → Bool
contains x [] = false
contains x (y ∷ ys) = (y == x) || contains x ys

-- The scan of a small image: `count` sectors from `s` on, unless they are candidates already.
unfoldable pub fallback : ℕ → ℕ → List ℕ → List ℕ
fallback zero s candidates = candidates
fallback (suc count) s candidates =
    fallback count (suc s) (if contains s candidates then candidates else candidates ++ s ∷ [])

unfoldable pub anchor_candidates : ℕ → List ℕ
anchor_candidates last_sector =
    let last = if ltb 0 last_sector && not (last_sector == 256) then last_sector ∷ [] else [] in
    let before_last = if ltb 256 last_sector then (last_sector - 256) ∷ [] else [] in
    fallback (min 256 last_sector - 32) 32 (256 ∷ last ++ before_last)

unfoldable pub after_candidate :
    M Error (List ℕ) → Result IoError (List ℕ) × Reader → Result Error (List ℕ) × Reader
after_candidate next (err e, r) = next r
after_candidate next (ok avdp_buffer, r) =
    let rest = next r in if le16 avdp_buffer 0 == 2 then (ok avdp_buffer, r) else rest

unfoldable pub find_anchor : List ℕ → M Error (List ℕ)
find_anchor [] = fail no_anchor
find_anchor (candidate ∷ candidates) =
    λ r. after_candidate (find_anchor candidates) (read_at (candidate * sector_size) 512 r)

-- The sectors of the sequence that are left, from `sector` on.
unfoldable pub vds_loop : ℕ → ℕ → Volume → M Error Volume
vds_loop zero sector v = pure v
vds_loop (suc count) sector v =
    map_error io (read_at (sector * sector_size) sector_size) >>= λ vds_buffer.
    lift (vds_step v vds_buffer) >>= λ step. after_step (vds_loop count (suc sector)) v step
  where
    after_step : (Volume → M Error Volume) → Volume → VdsStep → M Error Volume
    after_step next v stop = pure v
    after_step next v (again v') = next v'

unfoldable pub find_partition : ℕ → List PartitionInfo → Option PartitionInfo
find_partition number [] = none
find_partition number (p ∷ ps) = if p.number == number then some p else find_partition number ps

unfoldable pub first_partition : List PartitionInfo → Option PartitionInfo
first_partition [] = none
first_partition (p ∷ ps) = some p

abbrev pub ok_or : {A : Type 0} → Error → Option A → M Error A
ok_or e none = fail e
ok_or e (some a) = pure a

abbrev pub first_extent : List ExtentAd → M Error ExtentAd
first_extent [] = fail no_metadata_extents
first_extent (extent ∷ extents) = pure extent

-- The sector of the file set, and the start of the partition: through the metadata file, or in a
-- partition of the disk.
unfoldable pub locate_file_set : Volume → LongAd → M Error (ℕ × ℕ)
locate_file_set v fsd_long_ad = elim v.metadata_partition [
  | some meta_info ↦ do
    partition ← ok_or no_physical_partition (find_partition meta_info.partition_ref v.partitions)
    meta_fe_buffer ←
        map_error io
          (read_at ((partition.start_sector + meta_info.file_location) * sector_size) sector_size)
    meta_alloc ← lift (get_file_allocation meta_fe_buffer)
    extent ← first_extent meta_alloc.extents
    let start = partition.start_sector + extent.location
    pure (start + fsd_long_ad.location, start)
  | none ↦ do
    partition ← ok_or no_partition (elim (find_partition fsd_long_ad.partition v.partitions) [
      | some p ↦ some p
      | none ↦ first_partition v.partitions
    ])
    pure (partition.start_sector + fsd_long_ad.location, partition.start_sector)
]

-- The search in the `count` sectors from `sector` on; its reads must succeed.
unfoldable pub fsd_loop : ℕ → ℕ → M Error (List ℕ)
fsd_loop zero sector = fail no_file_set
fsd_loop (suc count) sector = map_error io (read_at (sector * sector_size) 512) >>= λ fsd_buffer.
    let rest = fsd_loop count (suc sector) in
    if le16 fsd_buffer 0 == 256 then pure fsd_buffer else rest

-- The sector itself and the 31 that follow.
unfoldable pub find_file_set : ℕ → M Error (List ℕ)
find_file_set fsd_sector = fsd_loop 32 fsd_sector

-- `depth` bounds the nesting of directories.
unfoldable pub parse_volume : ℕ → Volume → M Error TreeNode
parse_volume depth v = do
  fsd_long_ad ← ok_or no_fsd_location v.root_fsd_long_ad
  located ← locate_file_set v fsd_long_ad
  fsd_buffer ← find_file_set located.0
  root_node ←
      parse_directory depth located.1 (read_long_ad (slice fsd_buffer 400 416))
        (new_directory (codes "/"))
  pure (calculate_directory_size root_node)

unfoldable pub parse_marked : ℕ → M Error TreeNode
parse_marked depth = do
  image_size ← map_error io seek_end
  avdp_buffer ← find_anchor (anchor_candidates (image_size / sector_size))
  let main_vds_extent = read_extent_ad (slice avdp_buffer 16 24)
  v ←
      vds_loop ((main_vds_extent.len + (sector_size - 1)) / sector_size) main_vds_extent.location
        (record { partitions = []; root_fsd_long_ad = none; metadata_partition = none })
  parse_volume depth v

-- The markers stand in one of the sectors 16 to 31.
unfoldable pub parse_udf : ℕ → M Error TreeNode
parse_udf depth r =
    let (found, r') = vrs_loop 16 16 r in
    if found then parse_marked depth r' else (err no_markers, r')
