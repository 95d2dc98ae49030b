-- ===== src/Vhd.antt =====
-- src/formats/vhd.rs: the footer of a VHD image, and its two supported disk types.
pub mod Checksum
pub mod Detect
use isomage.Prelude.{
  ℕ, zero, suc, ◌+◌, ◌-◌, ◌%◌, ◌^◌, Bool, true, false, ◌&&◌, not, List, [], ◌∷◌, none, some, ltb,
  leb, ◌==◌, if◌then◌else◌, length, Result, ok, err,
}
use isomage.Text.{codes, str_eq}
use isomage.Bytes.{slice, be32, be64}
use isomage.Reader.{
  Reader, M, IoError, unexpected_eof, invalid_input, ◌>>=◌, ◌>>◌, lift, fail, map_error,
  stream_position, seek_start, seek_end, read_at,
}
use isomage.Tree.{
  TreeNode, node, nil, new_file_with_location, new_directory, add_child, calculate_directory_size,
}

abbrev pub footer_cookie : List ℕ
footer_cookie = codes "conectix"

abbrev pub dyn_header_cookie : List ℕ
dyn_header_cookie = codes "cxsparse"

abbrev pub footer_size : ℕ
footer_size = 512

abbrev pub disk_type_fixed : ℕ
disk_type_fixed = 2

abbrev pub disk_type_dynamic : ℕ
disk_type_dynamic = 3

pub data Error : Type 0 where
  too_short bad_magic bad_checksum : Error
  unsupported_type : ℕ → Error
  bad_dynamic_header : Error
  io : IoError → Error

pub record Footer : Type 0 where
  pub data_offset : ℕ
  pub current_size : ℕ
  pub disk_type : ℕ

unfoldable pub eof_error : IoError → Error
eof_error unexpected_eof = too_short
eof_error invalid_input = io invalid_input

-- The loop of `verify_checksum` over the bytes from index `i` on: `wrapping_add` on a `u32`,
-- without the bytes 64..68.
unfoldable pub sum_bytes : ℕ → ℕ → List ℕ → ℕ
sum_bytes i sum [] = sum
sum_bytes i sum (b ∷ bs) =
    sum_bytes (i + 1) (if leb 64 i && ltb i 68 then sum else (sum + b) % 2 ^ 32) bs

-- `!sum` is `2 ^ 32 - 1 - sum`.
unfoldable pub verify_checksum : List ℕ → Bool
verify_checksum buf = (2 ^ 32 - 1 - sum_bytes 0 0 buf) == be32 buf 64

-- The checks of `read_footer` on the 512 bytes.
unfoldable pub check_footer : List ℕ → Result Error Footer
check_footer buf =
    if not (str_eq (slice buf 0 8) footer_cookie)
    then err bad_magic
    else if not (verify_checksum buf)
    then err bad_checksum
    else ok
        (record { data_offset = be64 buf 16; current_size = be64 buf 48; disk_type = be32 buf 60 })

unfoldable pub read_footer : ℕ → M Error Footer
read_footer offset = do buf ← map_error eof_error (read_at offset 512); lift (check_footer buf)

unfoldable pub detect_inner : M Error (Unit {0})
detect_inner = do
  file_len ← map_error io seek_end
  if ltb file_len footer_size then fail too_short else do
    cookie ← map_error eof_error (read_at (file_len - footer_size) 8)
    if not (str_eq cookie footer_cookie) then fail bad_magic else lift (ok tt)

-- `let _ = r.seek(...)`: a failure to restore the position is ignored.
unfoldable pub restore : {A : Type 0} → ℕ → Result Error A × Reader → Result Error A × Reader
unfolding seek_start
restore pos (result, r) = (result, (seek_start pos r).1)

unfoldable pub detect : M Error (Unit {0})
detect = do pos ← map_error io stream_position; λ r. restore pos (detect_inner r)

unfoldable pub parse_fixed : ℕ → ℕ → Result Error TreeNode
parse_fixed current_size file_len =
    if ltb (file_len - footer_size) current_size
    then err too_short
    else ok (
        calculate_directory_size (
          add_child (new_directory (codes "/"))
            (new_file_with_location (codes "disk.img") current_size 0 current_size)))

-- `disk_node.file_length = Some(current_size)` on a file with no location.
abbrev pub disk_node : ℕ → TreeNode
disk_node current_size = node (codes "disk.img") current_size false nil none (some current_size)

-- What `parse_dynamic` does with the 1024 bytes of the Dynamic Disk Header.
unfoldable pub check_dyn_header : ℕ → List ℕ → Result Error TreeNode
check_dyn_header current_size hdr =
    if not (str_eq (slice hdr 0 8) dyn_header_cookie)
    then err bad_dynamic_header
    else ok
        (calculate_directory_size (add_child (new_directory (codes "/")) (disk_node current_size)))

unfoldable pub parse_dynamic : Footer → ℕ → M Error TreeNode
parse_dynamic footer file_len =
    if ltb (file_len - 1024) footer.data_offset then fail too_short else do
      hdr ← map_error eof_error (read_at footer.data_offset 1024)
      lift (check_dyn_header footer.current_size hdr)

-- The match on the disk type.
unfoldable pub by_disk_type : Footer → ℕ → M Error TreeNode
by_disk_type footer file_len =
    if footer.disk_type == disk_type_fixed
    then lift (parse_fixed footer.current_size file_len)
    else if footer.disk_type == disk_type_dynamic
    then parse_dynamic footer file_len
    else fail (unsupported_type footer.disk_type)

unfoldable pub detect_and_parse : M Error TreeNode
detect_and_parse = do
  file_len ← map_error io seek_end
  if ltb file_len footer_size
      then fail too_short
      else do footer ← read_footer (file_len - footer_size); by_disk_type footer file_len
