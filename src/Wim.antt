-- ===== src/Wim.antt =====
-- src/formats/wim.rs: the header, the XML metadata, and one directory for each image.
pub mod Xml
pub mod Sizes
use isomage.Prelude.{
  ℕ, zero, suc, ◌+◌, ◌-◌, ◌*◌, ◌/◌, ◌%◌, ◌^◌, Bool, true, false, ◌&&◌, ◌||◌, not, List, [], ◌∷◌,
  ◌++◌, Option, none, some, ltb, leb, ◌==◌, if◌then◌else◌, length, min, Result, ok, err,
}
use isomage.Text.{Str, codes, str_eq, is_empty}
use isomage.Text.Utf8.{from_utf16_lossy}
use isomage.Text.Decimal.{decimal}
use isomage.Bytes.{byte, slice, le32, le64}
use isomage.Reader.{
  Reader, M, IoError, unexpected_eof, invalid_input, ◌>>=◌, ◌>>◌, pure, lift, fail, map_error,
  stream_position, seek_start, seek_end, read_exact, read_at,
}
use isomage.Tree.{TreeNode, node, new_directory, add_child, calculate_directory_size}
use isomage.Wim.Xml.{ImageEntry, parse_xml, sort_entries}

abbrev pub wim_magic : List ℕ
wim_magic = codes "MSWIM" ++ 0 ∷ 0 ∷ 0 ∷ []

abbrev pub header_size : ℕ
header_size = 208

-- `no_fuel` is a run that the model's fuel does not cover.
pub data Error : Type 0 where
  too_short bad_magic compressed bad_encoding : Error
  io : IoError → Error
  no_fuel : Error

pub record ResHdr : Type 0 where
  pub offset : ℕ
  pub size : ℕ
  pub original_size : ℕ
  pub flags : ℕ

unfoldable pub from_bytes : List ℕ → ResHdr
from_bytes b = record {
  offset = le64 b 8;
  size = le64 b 0 % 2 ^ 56;
  original_size = le64 b 16;
  flags = le64 b 0 / 2 ^ 56;
}

-- The flag `RESHDR_FLAG_COMPRESSED` is 4.
unfoldable pub is_compressed : ResHdr → Bool
is_compressed h = h.flags / 4 % 2 == 1

pub record Header : Type 0 where
  pub image_count : ℕ
  pub xml_data : ResHdr

-- The end of the file is `TooShort`, any other failure is `Io`.
unfoldable pub eof_error : IoError → Error
eof_error unexpected_eof = too_short
eof_error invalid_input = io invalid_input

unfoldable pub check_header : List ℕ → Result Error Header
check_header buf =
    if not (str_eq (slice buf 0 8) wim_magic)
    then err bad_magic
    else ok (record { image_count = le32 buf 44; xml_data = from_bytes (slice buf 72 96) })

unfoldable pub read_header : M Error Header
read_header = do
  map_error io (seek_start 0)
  buf ← map_error eof_error (read_exact header_size)
  lift (check_header buf)

unfoldable pub detect_inner : M Error (Unit {0})
detect_inner = do
  file_len ← map_error io seek_end
  if ltb file_len header_size then fail too_short else (do
    magic ← map_error eof_error (read_at 0 8)
    if not (str_eq magic wim_magic) then fail bad_magic else pure tt)

-- `let _ = r.seek(...)`: a failure to restore the position is ignored.
unfoldable pub restore : {A : Type 0} → ℕ → Result Error A × Reader → Result Error A × Reader
restore pos (result, r) = (result, (seek_start pos r).1)

unfoldable pub detect : M Error (Unit {0})
detect = do pos ← map_error io stream_position; λ r. restore pos (detect_inner r)

-- `chunks_exact(2)` as little-endian units.
unfoldable pub le_units : List ℕ → List ℕ
le_units [] = []
le_units (lo ∷ []) = []
le_units (lo ∷ hi ∷ bs) = (lo + 256 * hi) ∷ le_units bs

unfoldable pub without_bom : List ℕ → List ℕ
without_bom [] = []
without_bom (u ∷ us) = if u == 0xfeff then us else u ∷ us

unfoldable pub utf16le_to_string : List ℕ → Result Error Str
utf16le_to_string raw =
    if not (length raw % 2 == 0)
    then err bad_encoding
    else ok (from_utf16_lossy (without_bom (le_units raw)))

abbrev pub max_xml_size : ℕ
max_xml_size = 64 * 1024 * 1024

unfoldable pub check_xml : ResHdr → ℕ → Result Error (Unit {0})
check_xml xml_res file_size =
    if ltb max_xml_size xml_res.original_size
      || ltb file_size xml_res.offset
      || ltb (file_size - xml_res.offset) xml_res.original_size
    then err too_short
    else ok tt

abbrev pub numbered : ℕ → Str
numbered i = codes "Image " ++ decimal i

-- The images `i`, `i + 1`, ... without metadata, `count` of them.
unfoldable pub add_numbered : ℕ → ℕ → TreeNode → TreeNode
add_numbered zero i root = root
add_numbered (suc count) i root =
    add_numbered count (suc i) (add_child root (new_directory (numbered i)))

unfoldable pub entry_name : ImageEntry → Str
entry_name entry = elim entry.name [
  | none ↦ numbered entry.index
  | some n ↦ if is_empty n then numbered entry.index else n
]

-- `node.size = tb`.
unfoldable pub with_size : TreeNode → Option ℕ → TreeNode
with_size t none = t
with_size (node n s d cs loc len) (some tb) = node n tb d cs loc len

unfoldable pub add_entries : List ImageEntry → TreeNode → TreeNode
add_entries [] root = root
add_entries (entry ∷ entries) root =
    add_entries entries
      (add_child root (with_size (new_directory (entry_name entry)) entry.total_bytes))

-- Without entries the header's count serves.
unfoldable pub images_node : ℕ → List ImageEntry → TreeNode
images_node image_count [] = add_numbered (min image_count 4096) 1 (new_directory (codes "/"))
images_node image_count (e ∷ es) = add_entries (e ∷ es) (new_directory (codes "/"))

unfoldable pub to_tree : ℕ → Option (List ImageEntry) → Result Error TreeNode
to_tree image_count none = err no_fuel
to_tree image_count (some entries) =
    ok (calculate_directory_size (images_node image_count (sort_entries entries)))

unfoldable pub read_xml : ResHdr → M Error Str
read_xml xml_res = do
  file_size ← map_error io seek_end
  lift (check_xml xml_res file_size)
  map_error io (seek_start xml_res.offset)
  raw ← map_error eof_error (read_exact xml_res.original_size)
  lift (utf16le_to_string raw)

unfoldable pub detect_and_parse : M Error TreeNode
detect_and_parse = do
  header ← read_header
  if is_compressed header.xml_data then fail compressed else (do
    xml_text ← read_xml header.xml_data
    lift (to_tree header.image_count (parse_xml xml_text)))
