-- ===== src/Ext/Layout.antt =====
-- src/formats/ext.rs: the superblock, the block group descriptors and the inodes.
use isomage.Prelude.{
  ℕ, zero, suc, ◌+◌, ◌*◌, ◌/◌, ◌%◌, ◌^◌, Bool, ◌&&◌, not, List, [], ◌∷◌, ltb, leb, ◌==◌,
  if◌then◌else◌, max, Result, ok, err,
}
use isomage.Bytes.{le16, le32}
use isomage.Word.{add64, mul64}
use isomage.Reader.{
  M, IoError, unexpected_eof, invalid_input, ◌>>=◌, ◌>>◌, pure, lift, fail, map_error, seek_start,
  read_exact, read_at,
}

abbrev pub ext_magic : ℕ
ext_magic = 0xEF53

abbrev pub superblock_offset : ℕ
superblock_offset = 1024

-- `no_fuel` is a run that the model's fuel does not cover.
pub data Error : Type 0 where
  too_short bad_superblock no_fuel : Error
  io : IoError → Error

pub record Superblock : Type 0 where
  pub inodes_per_group : ℕ
  pub first_data_block : ℕ
  pub log_block_size : ℕ
  pub inode_size : ℕ
  pub feature_incompat : ℕ
  pub desc_size : ℕ

unfoldable pub block_size : Superblock → ℕ
block_size sb = 1024 * 2 ^ sb.log_block_size

-- `INCOMPAT_64BIT` is 128.
unfoldable pub has_64bit : Superblock → Bool
has_64bit sb = sb.feature_incompat / 128 % 2 == 1

unfoldable pub desc_size_effective : Superblock → ℕ
desc_size_effective sb = if has_64bit sb && leb 64 sb.desc_size then sb.desc_size else 32

unfoldable pub bgd_table_offset : Superblock → ℕ → ℕ
bgd_table_offset sb base_offset = base_offset + (sb.first_data_block + 1) * block_size sb

unfoldable pub eof_error : IoError → Error
eof_error unexpected_eof = too_short
eof_error invalid_input = io invalid_input

-- Revision 0 has fixed inodes and no features.
unfoldable pub superblock_fields : List ℕ → Superblock
superblock_fields sb =
    let dynamic = leb 1 (le32 sb 76) in
    record {
      inodes_per_group = le32 sb 40;
      first_data_block = le32 sb 20;
      log_block_size = le32 sb 24;
      inode_size = max 128 (if dynamic then le16 sb 88 else 128);
      feature_incompat = if dynamic then le32 sb 96 else 0;
      desc_size = if dynamic then le16 sb 236 else 32;
    }

-- The checks of the 264 bytes.
unfoldable pub check_superblock : List ℕ → Result Error Superblock
check_superblock sb =
    let fields = superblock_fields sb in
    if not (le16 sb 56 == ext_magic)
    then err bad_superblock
    else if ltb 6 (le32 sb 24)
    then err bad_superblock
    else if le32 sb 32 == 0
    then err bad_superblock
    else if le32 sb 4 == 0
    then err bad_superblock
    else if le32 sb 40 == 0
    then err bad_superblock
    else if ltb (block_size fields) fields.inode_size
    then err bad_superblock
    else ok fields

unfoldable pub read_superblock : ℕ → M Error Superblock
read_superblock base_offset = do
  map_error io (seek_start (base_offset + superblock_offset))
  sb ← map_error eof_error (read_exact 264)
  lift (check_superblock sb)

pub record Inode : Type 0 where
  pub mode : ℕ
  pub size : ℕ
  pub flags : ℕ
  pub i_block : List ℕ

-- The four bits of `S_IFMT`.
unfoldable pub file_type : ℕ → ℕ
file_type mode = mode / 4096 % 16

unfoldable pub is_dir : Inode → Bool
is_dir inode = file_type inode.mode == 4

unfoldable pub is_reg : Inode → Bool
is_reg inode = file_type inode.mode == 8

unfoldable pub is_symlink : Inode → Bool
is_symlink inode = file_type inode.mode == 10

-- `EXT4_EXTENTS_FL` is bit 19, `EXT4_INLINE_DATA_FL` bit 28.
unfoldable pub uses_extents : Inode → Bool
uses_extents inode = inode.flags / 2 ^ 19 % 2 == 1

unfoldable pub is_inline : Inode → Bool
is_inline inode = inode.flags / 2 ^ 28 % 2 == 1

-- `count` words from `off` on.
unfoldable pub words : ℕ → List ℕ → ℕ → List ℕ
words zero buf off = []
words (suc count) buf off = le32 buf off ∷ words count buf (off + 4)

unfoldable pub inode_of : List ℕ → Inode
inode_of buf =
    let mode = le16 buf 0 in
    record {
      mode = mode;
      size = if file_type mode == 8 then le32 buf 108 * 2 ^ 32 + le32 buf 4 else le32 buf 4;
      flags = le32 buf 32;
      i_block = words 15 buf 40;
    }

module _ (sb : Superblock) (base_offset : ℕ) where
  -- The block of the inode table of a group.
  unfoldable pub inode_table : List ℕ → ℕ
  inode_table buf =
      if has_64bit sb && leb 64 (desc_size_effective sb)
      then le32 buf 40 * 2 ^ 32 + le32 buf 8
      else le32 buf 8

  unfoldable pub read_bgd : ℕ → M Error ℕ
  read_bgd group = do
    buf ← map_error io (
        read_at (bgd_table_offset sb base_offset + group * desc_size_effective sb)
          (desc_size_effective sb))
    pure (inode_table buf)

  unfoldable pub read_inode : ℕ → M Error Inode
  read_inode zero = fail bad_superblock
  read_inode (suc n) = do
    table ← read_bgd (n / sb.inodes_per_group)
    let at_table = add64 base_offset (mul64 table (block_size sb))
    buf ←
        map_error io (
          read_at (add64 at_table (n % sb.inodes_per_group * sb.inode_size))
            (max sb.inode_size 112))
    pure (inode_of buf)

  -- A block of the file system, by its number.
  unfoldable pub read_block : ℕ → M Error (List ℕ)
  read_block block_num =
      map_error io (read_at (add64 base_offset (mul64 block_num (block_size sb))) (block_size sb))
