-- ===== src/Squashfs/Directory.antt =====
-- src/formats/squashfs.rs: the metadata blocks, and the listing of a directory.
use isomage.Prelude.{
  ℕ, zero, suc, ◌+◌, ◌-◌, Bool, ◌||◌, List, [], ◌∷◌, ◌++◌, ltb, if◌then◌else◌, length, drop, take,
  min, Result, ok, err,
}
use isomage.Text.{Str, codes, str_eq}
use isomage.Text.Utf8.{from_utf8_lossy}
use isomage.Bytes.{le16, le32}
use isomage.Reader.{M, ◌>>=◌, ◌>>◌, lift, map_error, seek_start, seek_current, read_exact}
use isomage.Squashfs.Layout.{Error, compressed, io, truncated, Inode, parse_inode_body}

-- Bit 15 of a block's header says that it is not compressed, the others its size.
unfoldable pub block_size_of : List ℕ → Result Error ℕ
block_size_of hdr = if ltb (le16 hdr 0) 0x8000 then err compressed else ok (le16 hdr 0 - 0x8000)

unfoldable pub read_metadata_block : M Error (List ℕ)
read_metadata_block = do
  hdr ← map_error io (read_exact 2)
  size ← lift (block_size_of hdr)
  map_error io (read_exact size)

unfoldable pub skip_block : M Error ℕ
skip_block = do
  hdr ← map_error io (read_exact 2)
  size ← lift (block_size_of hdr)
  map_error io (seek_current size)

unfoldable pub skip_blocks : ℕ → M Error (List ℕ)
skip_blocks zero = read_metadata_block
skip_blocks (suc block_count) = do skip_block; skip_blocks block_count

unfoldable pub seek_to_metadata_block : ℕ → ℕ → M Error (List ℕ)
seek_to_metadata_block table_start block_count = do
  map_error io (seek_start table_start)
  skip_blocks block_count

unfoldable pub inode_at : List ℕ → ℕ → ℕ → Result Error Inode
inode_at block_data off block_size =
    if ltb (length block_data) (off + 16)
    then truncated
    else parse_inode_body (drop (off + 16) block_data) (le16 block_data off) block_size

unfoldable pub read_and_parse_inode : ℕ → ℕ → ℕ → ℕ → M Error Inode
read_and_parse_inode inode_table_start block_idx offset block_size = do
  block_data ← seek_to_metadata_block inode_table_start block_idx
  lift (inode_at block_data offset block_size)

-- An entry: its name, and the block and the offset of its inode.
pub record DirEntry : Type 0 where
  pub name : Str
  pub inode_block : ℕ
  pub inode_offset : ℕ

unfoldable pub is_dot : Str → Bool
is_dot name = str_eq name (codes ".") || str_eq name (codes "..")

unfoldable pub push_entry : ℕ → List ℕ → Str → List DirEntry → List DirEntry
push_entry start_block rest name entries =
    if is_dot name
    then entries
    else record { name = name; inode_block = start_block; inode_offset = le16 rest 0 } ∷ entries

-- The entries below a header, `count` of them at most, from what is left of the listing; with them
-- what is left then. A name that is cut off ends the loop behind the eight bytes before it.
unfoldable pub entry_loop : ℕ → ℕ → List ℕ → List DirEntry × List ℕ
entry_loop zero start_block rest = ([], rest)
entry_loop (suc count) start_block rest =
    let name_size = le16 rest 6 + 1 in
    let (entries, rest') = entry_loop count start_block (drop (8 + name_size) rest) in
    let name = from_utf8_lossy (take name_size (drop 8 rest)) in
    if ltb (length rest) 8
    then ([], rest)
    else if ltb (length rest) (8 + name_size)
    then ([], drop 8 rest)
    else (push_entry start_block rest name entries, rest')

-- The headers. Each takes twelve bytes, so that the length of the listing is fuel enough.
unfoldable pub header_loop : ℕ → List ℕ → List DirEntry
header_loop zero rest = []
header_loop (suc fuel) rest =
    let (entries, rest') = entry_loop (suc (le32 rest 0)) (le32 rest 4) (drop 12 rest) in
    let later = header_loop fuel rest' in if ltb (length rest) 12 then [] else entries ++ later

unfoldable pub list_entries : List ℕ → List DirEntry
list_entries dir_bytes = header_loop (length dir_bytes) dir_bytes

unfoldable pub listing : List ℕ → ℕ → ℕ → Result Error (List DirEntry)
listing block_data off dir_file_size =
    if ltb (length block_data) off
    then truncated
    else ok
        (list_entries (take (min dir_file_size (length block_data - off)) (drop off block_data)))

unfoldable pub parse_directory : ℕ → ℕ → ℕ → ℕ → M Error (List DirEntry)
parse_directory directory_table_start dir_start_block dir_offset dir_file_size = do
  block_data ← seek_to_metadata_block directory_table_start dir_start_block
  lift (listing block_data dir_offset dir_file_size)
