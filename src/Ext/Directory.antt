-- ===== src/Ext/Directory.antt =====
-- src/formats/ext.rs: the entries of a directory, and the location of a file.
use isomage.Prelude.{
  ℕ, zero, suc, ◌+◌, Bool, true, ◌&&◌, ◌||◌, not, List, [], ◌∷◌, ◌++◌, Option, none, some, ltb, leb,
  ◌==◌, if◌then◌else◌, length, take, get_or, Result, ok, err, max,
}
use isomage.Text.{Str, codes, str_eq}
use isomage.Text.Utf8.{from_utf8_lossy}
use isomage.Bytes.{byte, slice, le16, le32}
use isomage.Word.{add64, mul64, div_ceil}
use isomage.Reader.{M, ◌>>=◌, pure, lift}
use isomage.Ext.Layout.{
  Error, no_fuel, Superblock, Inode, block_size, read_block, is_inline, uses_extents,
}
use isomage.Ext.Blocks.{Extent, inode_extents, collect_classical_blocks}

pub record DirEntry : Type 0 where
  pub inode : ℕ
  pub name : Str

-- What the record at `pos` adds to the entries.
unfoldable pub record_entry : List ℕ → ℕ → List DirEntry
record_entry bytes pos =
    let inode = le32 bytes pos in
    let name_len = byte bytes (pos + 6) in
    let name = from_utf8_lossy (slice bytes (pos + 8) (pos + 8 + name_len)) in
    if not (inode == 0) && ltb 0 name_len && leb (pos + 8 + name_len) (length bytes)
    then (if not (str_eq name (codes ".")) && not (str_eq name (codes ".."))
        then record { inode = inode; name = name } ∷ []
        else [])
    else []

unfoldable pub scan_loop : ℕ → List ℕ → ℕ → List DirEntry → Result Error (List DirEntry)
scan_loop zero bytes pos out = err no_fuel
scan_loop (suc fuel) bytes pos out =
    let rec_len = le16 bytes (pos + 4) in
    let rest = scan_loop fuel bytes (pos + max rec_len 1) (out ++ record_entry bytes pos) in
    if ltb (length bytes) (pos + 8)
    then ok out
    else if ltb rec_len 8 || ltb (length bytes) (pos + rec_len)
    then ok out
    else rest

-- A step takes at least one byte.
unfoldable pub scan_dir_block : List ℕ → List DirEntry → Result Error (List DirEntry)
scan_dir_block bytes out = scan_loop (suc (length bytes)) bytes 0 out

-- The blocks of an extent.
unfoldable pub run : ℕ → ℕ → List ℕ
run phys zero = []
run phys (suc len) = phys ∷ run (suc phys) len

unfoldable pub extent_blocks : List Extent → List ℕ
extent_blocks [] = []
extent_blocks (ext ∷ extents) = run ext.phys ext.len ++ extent_blocks extents

-- Numbers that follow each other, from `first` on.
unfoldable pub is_run : ℕ → List ℕ → Bool
is_run first [] = true
is_run first (blk ∷ blks) = (blk == first) && is_run (suc first) blks

module _ (sb : Superblock) (base_offset : ℕ) where
  unfoldable pub scan_blocks : List ℕ → List DirEntry → M Error (List DirEntry)
  scan_blocks [] entries = pure entries
  scan_blocks (blk ∷ blks) entries = do
    block_buf ← read_block sb base_offset blk
    entries' ← lift (scan_dir_block block_buf entries)
    scan_blocks blks entries'

  unfoldable pub read_dir_entries : Inode → M Error (List DirEntry)
  read_dir_entries inode =
      if uses_extents inode
      then (inode_extents sb base_offset inode >>= λ extents.
          scan_blocks (extent_blocks extents) [])
      else (collect_classical_blocks sb base_offset inode inode.size >>= λ blk_nums.
          scan_blocks blk_nums [])

  -- One written extent that is long enough.
  unfoldable pub extents_location : ℕ → List Extent → Option ℕ
  extents_location size [] = none
  extents_location size (ext ∷ []) =
      if not ext.unwritten && leb (div_ceil size (block_size sb)) ext.len
      then some (add64 base_offset (mul64 ext.phys (block_size sb)))
      else none
  extents_location size (ext ∷ ext' ∷ extents) = none

  unfoldable pub classical_location : Inode → Option ℕ
  classical_location inode =
      let needed_blocks = div_ceil inode.size (block_size sb) in
      let first = get_or inode.i_block 0 0 in
      if ltb 12 needed_blocks
      then none
      else if first == 0
      then none
      else if not (is_run first (take needed_blocks inode.i_block))
      then none
      else some (add64 base_offset (mul64 first (block_size sb)))

  unfoldable pub single_run_location : Inode → M Error (Option ℕ)
  single_run_location inode =
      if inode.size == 0
      then pure none
      else if is_inline inode
      then pure none
      else if uses_extents inode
      then (inode_extents sb base_offset inode >>= λ extents.
          pure (extents_location inode.size extents))
      else pure (classical_location inode)
