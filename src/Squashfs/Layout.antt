-- ===== src/Squashfs/Layout.antt =====
-- src/formats/squashfs.rs: the superblock, and the inodes.
use isomage.Prelude.{
  ℕ, zero, suc, ◌+◌, ◌*◌, ◌/◌, Bool, ◌||◌, not, List, [], ◌∷◌, Option, none, some, ltb, ◌==◌,
  if◌then◌else◌, length, bit_and, Result, ok, err,
}
use isomage.Bytes.{le16, le32, le64}
use isomage.Word.{div_ceil, mul64, add64}
use isomage.Reader.{
  M, IoError, unexpected_eof, invalid_input, ◌>>=◌, ◌>>◌, lift, map_error, seek_start, read_exact,
}

abbrev pub magic_le : ℕ
magic_le = 0x73717368

abbrev pub superblock_size : ℕ
superblock_size = 96

abbrev pub no_fragment : ℕ
no_fragment = 0xffffffff

-- `panic` is no error of the source: an index past the end of an inode, or a vector too large.
pub data Error : Type 0 where
  too_short bad_magic bad_version compressed too_deep panic : Error
  io : IoError → Error

pub record Superblock : Type 0 where
  pub block_size : ℕ
  pub flags : ℕ
  pub root_inode : ℕ
  pub inode_table_start : ℕ
  pub directory_table_start : ℕ

unfoldable pub eof_error : IoError → Error
eof_error unexpected_eof = too_short
eof_error invalid_input = io invalid_input

-- The checks in the order of the source, which refuses the other byte order like any other magic.
unfoldable pub check_superblock : List ℕ → Result Error Superblock
check_superblock buf =
    if not (le32 buf 0 == magic_le)
    then err bad_magic
    else if le32 buf 12 == 0
    then err bad_magic
    else if not (le16 buf 28 == 4) || not (le16 buf 30 == 0)
    then err bad_version
    else ok (record {
      block_size = le32 buf 12;
      flags = le16 buf 24;
      root_inode = le64 buf 32;
      inode_table_start = le64 buf 64;
      directory_table_start = le64 buf 72;
    })

unfoldable pub read_superblock : M Error Superblock
read_superblock = do
  map_error io (seek_start 0)
  buf ← map_error eof_error (read_exact superblock_size)
  lift (check_superblock buf)

-- Bits 0 and 1 of the flags.
unfoldable pub is_inodes_uncompressed : Superblock → Bool
is_inodes_uncompressed sb = not (bit_and sb.flags 1 == 0)

unfoldable pub is_data_uncompressed : Superblock → Bool
is_data_uncompressed sb = not (bit_and sb.flags 2 == 0)

-- Where a directory lies in the directory table: the block, the offset in it, and the size.
pub record DirInfo : Type 0 where
  pub start_block : ℕ
  pub offset : ℕ
  pub file_size : ℕ

pub record RegInfo : Type 0 where
  pub start_block : ℕ
  pub file_size : ℕ
  pub block_sizes : List ℕ
  pub fragment : ℕ

-- The source keeps the type with two options, one of which is set as the type says.
pub data Inode : Type 0 where
  dir : DirInfo → Inode
  reg : RegInfo → Inode
  other : Inode

unfoldable pub block_count_for : ℕ → ℕ → ℕ → ℕ
block_count_for file_size block_size fragment =
    if fragment == no_fragment then div_ceil file_size block_size else file_size / block_size

unfoldable pub u32s_from : ℕ → List ℕ → ℕ → List ℕ
u32s_from zero body off = []
u32s_from (suc n) body off = le32 body off ∷ u32s_from n body (off + 4)

-- `need` bytes, in which the sum and the product wrap around; where it has wrapped, the vector of
-- the block sizes is larger than the body, and reading it panics.
unfoldable pub block_sizes_of : List ℕ → ℕ → ℕ → Result Error (List ℕ)
block_sizes_of body start nblocks =
    let sizes = u32s_from nblocks body start in
    if ltb (length body) (add64 start (mul64 nblocks 4))
    then err (io unexpected_eof)
    else if ltb (length body) (start + nblocks * 4)
    then err panic
    else ok sizes

unfoldable pub regular : ℕ → ℕ → ℕ → Result Error (List ℕ) → Result Error Inode
regular start_block file_size fragment (err e) = err e
regular start_block file_size fragment (ok block_sizes) = ok (
    reg (record {
      start_block = start_block;
      file_size = file_size;
      block_sizes = block_sizes;
      fragment = fragment;
    }))

abbrev pub truncated : {A : Type 0} → Result Error A
truncated = err (io unexpected_eof)

unfoldable pub parse_reg : List ℕ → ℕ → Result Error Inode
parse_reg body block_size =
    let file_size = le32 body 12 in
    let nblocks = block_count_for file_size block_size (le32 body 4) in
    if ltb (length body) 16
    then truncated
    else regular (le32 body 0) file_size (le32 body 4) (block_sizes_of body 16 nblocks)

unfoldable pub parse_lreg : List ℕ → ℕ → Result Error Inode
parse_lreg body block_size =
    let file_size = le64 body 8 in
    let nblocks = block_count_for file_size block_size (le32 body 28) in
    if ltb (length body) 40
    then truncated
    else regular (le64 body 0) file_size (le32 body 28) (block_sizes_of body 40 nblocks)

unfoldable pub parse_dir : List ℕ → Result Error Inode
parse_dir body =
    if ltb (length body) 16
    then truncated
    else ok
        (dir (record { start_block = le32 body 0; offset = le16 body 10; file_size = le16 body 8 }))

unfoldable pub parse_ldir : List ℕ → Result Error Inode
parse_ldir body =
    if ltb (length body) 24
    then truncated
    else ok
        (dir (record { start_block = le32 body 8; offset = le16 body 20; file_size = le32 body 4 }))

unfoldable pub parse_inode_body : List ℕ → ℕ → ℕ → Result Error Inode
parse_inode_body body inode_type block_size =
    if inode_type == 1
    then parse_dir body
    else if inode_type == 8
    then parse_ldir body
    else if inode_type == 2
    then parse_reg body block_size
    else if inode_type == 9
    then parse_lreg body block_size
    else ok other

-- Bit 24 of the block's size says that it is not compressed.
unfoldable pub file_location_for_reg : RegInfo → Option ℕ
file_location_for_reg info =
    if not (info.fragment == no_fragment) then none else elim info.block_sizes [
      | [] ↦ none
      | size ∷ sizes ↦ elim sizes [
        | [] ↦ if bit_and size 0x01000000 == 0 then none else some info.start_block
        | _ ∷ _ ↦ none
      ]
    ]
