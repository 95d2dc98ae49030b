-- ===== src/Fat/Bpb.antt =====
-- src/formats/fat.rs: the boot sector (BPB) and the geometry derived from it.
use isomage.Prelude.{
  ℕ, ◌+◌, ◌-◌, ◌*◌, ◌/◌, ◌%◌, ◌^◌, Bool, ◌&&◌, ◌||◌, not, List, ltb, leb, ◌==◌, if◌then◌else◌,
  length, Result, ok, err,
}
use isomage.Word.{div_ceil}
use isomage.Bytes.{byte, le16, le32}
use isomage.Reader.{M, IoError, ◌>>=◌, lift, fail, map_error, stream_position, read}

pub data Error : Type 0 where
  too_short bad_boot_sector : Error
  io : IoError → Error

pub data FatType : Type 0 where
  fat12 fat16 fat32 : FatType

-- `cluster & 0x0FFF_FFFF` is the remainder by 2 ^ 28.
unfoldable pub is_eoc : FatType → ℕ → Bool
is_eoc fat12 cluster = leb 0x0ff8 cluster
is_eoc fat16 cluster = leb 0xfff8 cluster
is_eoc fat32 cluster = leb 0x0ffffff8 (cluster % 2 ^ 28)

unfoldable pub is_bad_cluster : FatType → ℕ → Bool
is_bad_cluster fat12 cluster = cluster == 0x0ff7
is_bad_cluster fat16 cluster = cluster == 0xfff7
is_bad_cluster fat32 cluster = cluster % 2 ^ 28 == 0x0ffffff7

pub record Context : Type 0 where
  pub base_offset : ℕ
  pub fat_type : FatType
  pub bytes_per_cluster : ℕ
  pub fat_start_rel : ℕ
  pub root_dir_rel : ℕ
  pub root_dir_size_bytes : ℕ
  pub data_start_rel : ℕ
  pub root_cluster : ℕ
  pub total_clusters : ℕ

-- `matches!(bytes_per_sector, 512 | 1024 | 2048 | 4096)`.
unfoldable pub is_sector_size : ℕ → Bool
is_sector_size n = (n == 512) || (n == 1024) || (n == 2048) || (n == 4096)

-- `is_power_of_two` on a `u8`.
unfoldable pub is_power_of_two : ℕ → Bool
is_power_of_two n =
    (n == 1)
    || (n == 2)
    || (n == 4)
    || (n == 8)
    || (n == 16)
    || (n == 32)
    || (n == 64)
    || (n == 128)

-- The fields of the sector that `read_bpb` reads, after its choice between the 16-bit and the
-- 32-bit forms of two of them.
pub record Fields : Type 0 where
  pub bytes_per_sector : ℕ
  pub sectors_per_cluster : ℕ
  pub reserved_sectors : ℕ
  pub num_fats : ℕ
  pub root_entry_count : ℕ
  pub fat_size_16 : ℕ
  pub fat_size : ℕ
  pub total_sectors : ℕ
  pub root_cluster_32 : ℕ

unfoldable pub read_fields : List ℕ → Fields
read_fields sector = record {
  bytes_per_sector = le16 sector 11;
  sectors_per_cluster = byte sector 13;
  reserved_sectors = le16 sector 14;
  num_fats = byte sector 16;
  root_entry_count = le16 sector 17;
  fat_size_16 = le16 sector 22;
  fat_size = if le16 sector 22 == 0 then le32 sector 36 else le16 sector 22;
  total_sectors = if le16 sector 19 == 0 then le32 sector 32 else le16 sector 19;
  root_cluster_32 = le32 sector 44;
}

-- The validity checks on the fields.
unfoldable pub is_plausible : Fields → Bool
is_plausible f =
    is_sector_size f.bytes_per_sector
    && is_power_of_two f.sectors_per_cluster
    && not (f.num_fats == 0)
    && not (ltb 2 f.num_fats)
    && not (f.fat_size == 0)
    && not (f.total_sectors == 0)

abbrev pub root_dir_sectors : Fields → ℕ
root_dir_sectors f = div_ceil (f.root_entry_count * 32) f.bytes_per_sector

-- The sectors in front of the data area.
abbrev pub system_sectors : Fields → ℕ
system_sectors f = f.reserved_sectors + f.num_fats * f.fat_size + root_dir_sectors f

unfoldable pub cluster_count : Fields → ℕ
cluster_count f = (f.total_sectors - system_sectors f) / f.sectors_per_cluster % 2 ^ 32

unfoldable pub choose_fat_type : Fields → ℕ → FatType
choose_fat_type f total_clusters =
    if (f.root_entry_count == 0) && (f.fat_size_16 == 0) && leb 2 f.root_cluster_32
    then fat32
    else if ltb total_clusters 4085
    then fat12
    else if ltb total_clusters 65525
    then fat16
    else fat32

-- The root cluster, if the type needs one and the sector has it.
unfoldable pub choose_root_cluster : FatType → ℕ → Result Error ℕ
choose_root_cluster fat12 root_cluster_32 = ok 0
choose_root_cluster fat16 root_cluster_32 = ok 0
choose_root_cluster fat32 root_cluster_32 =
    if ltb root_cluster_32 2 then err bad_boot_sector else ok root_cluster_32

unfoldable pub geometry : ℕ → Fields → ℕ → Context
geometry base_offset f root_cluster =
    let bps = f.bytes_per_sector in
    let fat_start_rel = f.reserved_sectors * bps in
    let root_dir_rel = fat_start_rel + f.num_fats * f.fat_size * bps in
    record {
      base_offset = base_offset;
      fat_type = choose_fat_type f (cluster_count f);
      bytes_per_cluster = f.sectors_per_cluster * bps;
      fat_start_rel = fat_start_rel;
      root_dir_rel = root_dir_rel;
      root_dir_size_bytes = f.root_entry_count * 32;
      data_start_rel = root_dir_rel + root_dir_sectors f * bps;
      root_cluster = root_cluster;
      total_clusters = cluster_count f;
    }

-- What `read_bpb` makes of a boot sector.
unfoldable pub parse_bpb : ℕ → List ℕ → Result Error Context
parse_bpb base_offset sector =
    let f = read_fields sector in
    if not (byte sector 510 == 0x55) || not (byte sector 511 == 0xaa)
    then err bad_boot_sector
    else if not (is_plausible f)
    then err bad_boot_sector
    else elim (choose_root_cluster (choose_fat_type f (cluster_count f)) f.root_cluster_32) [
      | err e ↦ err e
      | ok root_cluster ↦ ok (geometry base_offset f root_cluster)
    ]

-- The loop that fills the sector reads until 512 bytes or the end of the image; here one `read`
-- gives as many bytes as there are.
unfoldable pub read_bpb : M Error Context
read_bpb = do
  base_offset ← map_error io stream_position
  sector ← map_error io (read 512)
  if ltb (length sector) 512 then fail too_short else lift (parse_bpb base_offset sector)
