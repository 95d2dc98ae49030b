-- ===== src/Qcow2.antt =====
-- src/formats/qcow2.rs: the header of a QCOW2 image.
pub mod Header
use isomage.Prelude.{
  ℕ, ◌+◌, Bool, true, false, ◌&&◌, ◌||◌, not, List, none, some, ltb, leb, ◌==◌, if◌then◌else◌,
  Result, ok, err,
}
use isomage.Text.{codes}
use isomage.Bytes.{be32, be64}
use isomage.Reader.{
  Reader, M, IoError, unexpected_eof, invalid_input, ◌>>=◌, ◌>>◌, lift, fail, map_error,
  stream_position, seek_start, read_exact, read_at,
}
use isomage.Tree.{TreeNode, node, nil, new_directory, add_child, calculate_directory_size}

abbrev pub qcow2_magic : ℕ
qcow2_magic = 0x514649fb

abbrev pub header_size : ℕ
header_size = 72

abbrev pub cluster_bits_min : ℕ
cluster_bits_min = 9

abbrev pub cluster_bits_max : ℕ
cluster_bits_max = 21

pub data Error : Type 0 where
  too_short bad_magic : Error
  unsupported_version : ℕ → Error
  encrypted : Error
  bad_cluster_bits : ℕ → Error
  io : IoError → Error

-- The end of the file is `TooShort`, any other failure is `Io`.
unfoldable pub eof_error : IoError → Error
eof_error unexpected_eof = too_short
eof_error invalid_input = io invalid_input

-- The checks of `read_header` on the 72 bytes, in their order; the result is `disk_size`.
unfoldable pub check_header : List ℕ → Result Error ℕ
unfolding be64 be32
check_header buf =
    let version = be32 buf 4 in
    let cluster_bits = be32 buf 20 in
    if not (be32 buf 0 == qcow2_magic)
    then err bad_magic
    else if not (version == 2) && not (version == 3)
    then err (unsupported_version version)
    else if not (leb cluster_bits_min cluster_bits && leb cluster_bits cluster_bits_max)
    then err (bad_cluster_bits cluster_bits)
    else if not (be32 buf 32 == 0)
    then err encrypted
    else ok (be64 buf 24)

unfoldable pub read_header : M Error ℕ
read_header = do buf ← map_error eof_error (read_exact header_size); lift (check_header buf)

unfoldable pub detect_inner : M Error (Unit {0})
detect_inner = do
  magic_buf ← map_error eof_error (read_at 0 4)
  if not (be32 magic_buf 0 == qcow2_magic) then fail bad_magic else lift (ok tt)

-- `let _ = r.seek(...)`: a failure to restore the position is ignored.
unfoldable pub restore : {A : Type 0} → ℕ → Result Error A × Reader → Result Error A × Reader
unfolding seek_start
restore pos (result, r) = (result, (seek_start pos r).1)

unfoldable pub detect : M Error (Unit {0})
detect = do pos ← map_error io stream_position; λ r. restore pos (detect_inner r)

-- `disk_node.file_length = Some(disk_size)` on a file with no location.
abbrev pub disk_node : ℕ → TreeNode
disk_node disk_size = node (codes "disk.qcow2") disk_size false nil none (some disk_size)

unfoldable pub detect_and_parse : M Error TreeNode
detect_and_parse = do
  map_error io (seek_start 0)
  disk_size ← read_header
  lift (ok (calculate_directory_size (add_child (new_directory (codes "/")) (disk_node disk_size))))
