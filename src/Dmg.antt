-- ===== src/Dmg.antt =====
-- src/formats/dmg.rs: the trailer, the plist, and the tree of the partitions.
pub mod Plist
pub mod Ends
use isomage.Prelude.{
  ℕ, ◌+◌, ◌-◌, ◌*◌, Bool, false, ◌&&◌, not, List, [], ◌∷◌, Option, none, some, ltb, leb, ◌==◌,
  if◌then◌else◌, take, Result, ok, err,
}
use isomage.Text.{Str, codes, str_eq}
use isomage.Text.Utf8.{from_utf8_lossy}
use isomage.Bytes.{be32, be64}
use isomage.Word.{saturating_mul}
use isomage.Reader.{
  Reader, M, IoError, unexpected_eof, invalid_input, ◌>>=◌, ◌>>◌, pure, lift, fail, map_error,
  stream_position, seek_start, seek_end, read_exact,
}
use isomage.Tree.{TreeNode, node, nil, new_directory, add_child, calculate_directory_size}
use isomage.Dmg.Plist.{parse_plist_xml}

abbrev pub koly_magic : List ℕ
koly_magic = codes "koly"

abbrev pub koly_size : ℕ
koly_size = 512

abbrev pub koly_version : ℕ
koly_version = 4

-- `no_fuel` is no error of the source: the loop over the plist would not have ended.
pub data Error : Type 0 where
  too_short bad_magic no_fuel : Error
  bad_version : ℕ → Error
  io : IoError → Error

pub record Koly : Type 0 where
  pub xml_offset : ℕ
  pub xml_length : ℕ
  pub sector_count : ℕ

unfoldable pub eof_error : IoError → Error
eof_error unexpected_eof = too_short
eof_error invalid_input = io invalid_input

unfoldable pub check_koly : List ℕ → Result Error Koly
check_koly buf =
    if not (str_eq (take 4 buf) koly_magic)
    then err bad_magic
    else if not (be32 buf 4 == koly_version)
    then err (bad_version (be32 buf 4))
    else ok (record {
      xml_offset = be64 buf 216;
      xml_length = be64 buf 224;
      sector_count = be64 buf 492;
    })

-- The first `n` bytes of the trailer, in a file that is long enough for it.
unfoldable pub read_trailer : ℕ → M Error (List ℕ)
read_trailer n = do
  file_len ← map_error io seek_end
  if ltb file_len koly_size
      then fail too_short
      else (do map_error io (seek_start (file_len - koly_size)); map_error eof_error (read_exact n))

unfoldable pub read_koly : M Error Koly
read_koly = do buf ← read_trailer koly_size; lift (check_koly buf)

unfoldable pub detect_inner : M Error (Unit {0})
detect_inner = do
  magic ← read_trailer 4
  if not (str_eq magic koly_magic) then fail bad_magic else pure tt

-- `let _ = r.seek(...)`: a failure to restore the position is ignored.
unfoldable pub restore : ℕ → Result Error (Unit {0}) × Reader → Result Error (Unit {0}) × Reader
restore pos (result, r) = (result, (seek_start pos r).1)

unfoldable pub detect : M Error (Unit {0})
detect r = restore r.pos (detect_inner r)

unfoldable pub is_xml_sane : Koly → ℕ → Bool
is_xml_sane koly file_len =
    ltb 0 koly.xml_length
    && leb koly.xml_length (32 * 1024 * 1024)
    && ltb koly.xml_offset file_len
    && leb (koly.xml_offset + koly.xml_length) file_len

unfoldable pub text_or_empty : Result IoError (List ℕ) × Reader → Result Error Str × Reader
text_or_empty (ok raw, r) = (ok (from_utf8_lossy raw), r)
text_or_empty (err e, r) = (ok [], r)

unfoldable pub read_xml : Koly → ℕ → M Error Str
read_xml koly file_len =
    if is_xml_sane koly file_len
    then (map_error io (seek_start koly.xml_offset) >>= λ _ r.
        text_or_empty (read_exact koly.xml_length r))
    else pure []

unfoldable pub add_directories : TreeNode → List Str → TreeNode
add_directories root [] = root
add_directories root (name ∷ entries) =
    add_directories (add_child root (new_directory name)) entries

abbrev pub disk_node : ℕ → TreeNode
disk_node disk_size = node (codes "disk.dmg") disk_size false nil none (some disk_size)

unfoldable pub to_tree : ℕ → List Str → TreeNode
unfolding add_directories
to_tree sector_count [] =
    calculate_directory_size
      (add_child (new_directory (codes "/")) (disk_node (saturating_mul sector_count 512)))
to_tree sector_count (name ∷ entries) =
    calculate_directory_size (add_directories (new_directory (codes "/")) (name ∷ entries))

unfoldable pub tree_of_entries : ℕ → Option (List Str) → Result Error TreeNode
tree_of_entries sector_count none = err no_fuel
tree_of_entries sector_count (some entries) = ok (to_tree sector_count entries)

unfoldable pub detect_and_parse : M Error TreeNode
detect_and_parse = do
  koly ← read_koly
  file_len ← map_error io seek_end
  xml_text ← read_xml koly file_len
  lift (tree_of_entries koly.sector_count (parse_plist_xml xml_text))
