-- ===== src/Udf/Sequence.antt =====
-- src/udf.rs: the main volume descriptor sequence, with the partition maps.
use isomage.Prelude.{
  ℕ, zero, suc, ◌+◌, ◌&&◌, not, List, [], ◌∷◌, ◌++◌, Option, some, ltb, leb, ◌==◌, if◌then◌else◌,
  length, Result, ok, err,
}
use isomage.Text.{codes, str_eq}
use isomage.Bytes.{byte, le16, le32, slice}
use isomage.Udf.Allocation.{Error, panic, LongAd, read_long_ad}

pub record PartitionInfo : Type 0 where
  pub number : ℕ
  pub start_sector : ℕ

pub record MetadataPartitionInfo : Type 0 where
  pub file_location : ℕ
  pub partition_ref : ℕ

-- What the sequence has given so far.
pub record Volume : Type 0 where
  pub partitions : List PartitionInfo
  pub root_fsd_long_ad : Option LongAd
  pub metadata_partition : Option MetadataPartitionInfo

pub data VdsStep : Type 0 where
  stop : VdsStep
  again : Volume → VdsStep

-- The partition map at `map_offset` of a metadata partition takes the place of the last one. A
-- panic is a slice that reaches behind the sector.
unfoldable pub metadata_map :
    List ℕ → ℕ → Option MetadataPartitionInfo → Result Error (Option MetadataPartitionInfo)
metadata_map vds_buffer map_offset known =
    if ltb (length vds_buffer) (map_offset + 28)
    then err panic
    else if not (
        str_eq (slice vds_buffer (map_offset + 5) (map_offset + 28))
          (codes "*UDF Metadata Partition"))
    then ok known
    else if ltb (length vds_buffer) (map_offset + 44)
    then err panic
    else ok (
        some (record {
          file_location = le32 vds_buffer (map_offset + 40);
          partition_ref = le16 vds_buffer (map_offset + 38);
        }))

unfoldable pub partition_map :
    List ℕ → ℕ → Option MetadataPartitionInfo → Result Error (Option MetadataPartitionInfo)
partition_map vds_buffer map_offset known =
    if (byte vds_buffer map_offset == 2) && leb 64 (byte vds_buffer (map_offset + 1))
    then metadata_map vds_buffer map_offset known
    else ok known

-- The `count` maps that are left, from `map_offset` on.
unfoldable pub map_loop :
    ℕ → List ℕ → ℕ → Option MetadataPartitionInfo → Result Error (Option MetadataPartitionInfo)
map_loop zero vds_buffer map_offset known = ok known
map_loop (suc count) vds_buffer map_offset known =
    let map_length = byte vds_buffer (map_offset + 1) in
    let rest : Result Error (Option MetadataPartitionInfo) =
      elim (partition_map vds_buffer map_offset known) [
        | err e ↦ err e
        | ok known' ↦ map_loop count vds_buffer (map_offset + map_length) known'
      ] in
    if ltb (length vds_buffer) (map_offset + 2)
    then ok known
    else if map_length == 0
    then ok known
    else rest

unfoldable pub with_maps :
    Volume → List ℕ → Result Error (Option MetadataPartitionInfo) → Result Error VdsStep
with_maps v vds_buffer (err e) = err e
with_maps v vds_buffer (ok known) = ok (
    again (record v {
      root_fsd_long_ad = some (read_long_ad (slice vds_buffer 248 264));
      metadata_partition = known;
    }))

-- The match on the tag of a descriptor.
unfoldable pub vds_step : Volume → List ℕ → Result Error VdsStep
vds_step v vds_buffer =
    let vds_tag_id = le16 vds_buffer 0 in
    let partition : PartitionInfo = record {
      number = le16 vds_buffer 22;
      start_sector = le32 vds_buffer 188;
    } in
    let logical =
      with_maps v vds_buffer (map_loop (le32 vds_buffer 268) vds_buffer 440 v.metadata_partition) in
    if vds_tag_id == 5
    then ok (again (record v { partitions = v.partitions ++ partition ∷ [] }))
    else if vds_tag_id == 6
    then logical
    else if vds_tag_id == 8
    then ok stop
    else ok (again v)
