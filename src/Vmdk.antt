-- ===== src/Vmdk.antt =====
-- src/formats/vmdk.rs: the header of a sparse extent.
use isomage.Prelude.{
  ℕ, ◌*◌, ◌^◌, false, ◌&&◌, not, List, none, some, ltb, ◌==◌, if◌then◌else◌, Result, ok, err,
}
use isomage.Text.{codes}
use isomage.Bytes.{byte, le32, le64}
use isomage.Reader.{
  Reader, M, IoError, unexpected_eof, invalid_input, ◌>>=◌, ◌>>◌, pure, lift, fail, map_error,
  stream_position, seek_start, seek_end, read_exact, read_at,
}
use isomage.Tree.{TreeNode, node, nil, new_directory, add_child, calculate_directory_size}

abbrev pub vmdk_magic : ℕ
vmdk_magic = 0x564d444b

abbrev pub header_size : ℕ
header_size = 512

abbrev pub sector_size : ℕ
sector_size = 512

pub data Error : Type 0 where
  too_short bad_magic compressed : Error
  unsupported_version : ℕ → Error
  io : IoError → Error

unfoldable pub eof_error : IoError → Error
eof_error unexpected_eof = too_short
eof_error invalid_input = io invalid_input

-- The checks on the 512 bytes, in their order; the result is the capacity in sectors.
unfoldable pub check_header : List ℕ → Result Error ℕ
unfolding le64 le32
check_header buf =
    let version = le32 buf 4 in
    if not (le32 buf 0 == vmdk_magic)
    then err bad_magic
    else if not (version == 1) && not (version == 3)
    then err (unsupported_version version)
    else if byte buf 77 == 1
    then err compressed
    else ok (le64 buf 12)

unfoldable pub read_header : M Error ℕ
read_header = do
  map_error io (seek_start 0)
  buf ← map_error eof_error (read_exact header_size)
  lift (check_header buf)

unfoldable pub detect_inner : M Error (Unit {0})
detect_inner = do
  file_len ← map_error io seek_end
  if ltb file_len header_size then fail too_short else (do
    magic_bytes ← map_error eof_error (read_at 0 4)
    if not (le32 magic_bytes 0 == vmdk_magic) then fail bad_magic else pure tt)

-- `let _ = r.seek(...)`: a failure to restore the position is ignored.
unfoldable pub restore : {A : Type 0} → ℕ → Result Error A × Reader → Result Error A × Reader
restore pos (result, r) = (result, (seek_start pos r).1)

unfoldable pub detect : M Error (Unit {0})
detect = do pos ← map_error io stream_position; λ r. restore pos (detect_inner r)

abbrev pub disk_node : ℕ → TreeNode
disk_node virtual_size = node (codes "disk.vmdk") virtual_size false nil none (some virtual_size)

-- `checked_mul`.
unfoldable pub virtual_size_of : ℕ → Result Error ℕ
virtual_size_of capacity =
    if ltb (capacity * sector_size) (2 ^ 64) then ok (capacity * sector_size) else err bad_magic

unfoldable pub detect_and_parse : M Error TreeNode
detect_and_parse = do
  capacity ← read_header
  virtual_size ← lift (virtual_size_of capacity)
  pure (calculate_directory_size (add_child (new_directory (codes "/")) (disk_node virtual_size)))
