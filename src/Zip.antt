-- ===== src/Zip.antt =====
-- src/formats/zip.rs: the end of central directory, the tree, and the writer.
pub mod Central
pub mod RoundTrip
use isomage.Prelude.{
  ℕ, zero, suc, ◌+◌, ◌-◌, ◌*◌, ◌/◌, ◌%◌, ◌^◌, Bool, true, false, ◌&&◌, ◌||◌, not, List, [], ◌∷◌,
  ◌++◌, Option, none, some, ltb, leb, ◌==◌, if◌then◌else◌, length, drop, min, bit_xor, get_or,
  Result, ok, err,
}
use isomage.Text.{Str, codes, is_empty, trim_end_char, split_on}
use isomage.Bytes.{byte, slice, le16, le32, le64}
use isomage.Word.{add64}
use isomage.Reader.{
  Reader, M, IoError, ◌>>=◌, ◌>>◌, pure, lift, fail, map_error, stream_position, seek_start,
  seek_end, read_at,
}
use isomage.Tree.{TreeNode, node, new_directory, calculate_directory_size}
use isomage.Tar.Build.{Nodes, or_insert, sort_paths, keys, attach}
use isomage.Text.{str_eq}
use isomage.Zip.Central.{
  Error, not_zip, bad_central_directory, io, method_stored, CdEntry, parse_central_directory,
  CdRecord, bytes16, bytes32, central_directory,
}

abbrev pub eocd_sig : ℕ
eocd_sig = 0x06054b50

abbrev pub eocd64_sig : ℕ
eocd64_sig = 0x06064b50

abbrev pub eocd64_locator_sig : ℕ
eocd64_locator_sig = 0x07064b50

abbrev pub lfh_sig : ℕ
lfh_sig = 0x04034b50

abbrev pub eocd_min_size : ℕ
eocd_min_size = 22

abbrev pub eocd64_locator_size : ℕ
eocd64_locator_size = 20

abbrev pub max_eocd_search : ℕ
max_eocd_search = 65535 + eocd_min_size

pub record EocdInfo : Type 0 where
  pub cd_offset : ℕ
  pub cd_size : ℕ

-- `rposition` on the windows of four bytes: the last signature.
unfoldable pub last_signature : List ℕ → Option ℕ
last_signature [] = none
last_signature (b ∷ bs) = elim (last_signature bs) [
  | some p ↦ some (suc p)
  | none ↦ if leb 4 (length (b ∷ bs)) && (le32 (b ∷ bs) 0 == eocd_sig) then some 0 else none
]

-- The ZIP64 record that the locator before the end record names.
unfoldable pub find_eocd64 : ℕ → M Error EocdInfo
find_eocd64 eocd_abs = if ltb eocd_abs eocd64_locator_size then fail not_zip else (do
  loc ← map_error io (read_at (eocd_abs - eocd64_locator_size) 20)
  if not (le32 loc 0 == eocd64_locator_sig) then fail not_zip else (do
    e64 ← map_error io (read_at (le64 loc 8) 56)
    if not (le32 e64 0 == eocd64_sig)
        then fail not_zip
        else pure (record { cd_offset = le64 e64 48; cd_size = le64 e64 40 })))

unfoldable pub of_eocd : ℕ → List ℕ → M Error EocdInfo
of_eocd eocd_abs eocd =
    let total_entries = le16 eocd 10 in
    let info : EocdInfo = record { cd_offset = le32 eocd 16; cd_size = le32 eocd 12 } in
    let is_zip64 =
      (total_entries == 0xffff) || (info.cd_size == 0xffffffff) || (info.cd_offset == 0xffffffff) in
    if ltb (length eocd) 22
    then fail not_zip
    else if is_zip64
    then find_eocd64 eocd_abs
    else pure info

unfoldable pub at_signature : ℕ → List ℕ → Option ℕ → M Error EocdInfo
at_signature search_start buf none = fail not_zip
at_signature search_start buf (some eocd_pos) =
    of_eocd (search_start + eocd_pos) (drop eocd_pos buf)

unfoldable pub find_eocd : M Error EocdInfo
find_eocd = do
  file_len ← map_error io seek_end
  let search_start = file_len - max_eocd_search
  if ltb file_len eocd_min_size then fail not_zip else (do
    buf ← map_error io (read_at search_start (file_len - search_start))
    at_signature search_start buf (last_signature buf))

-- `.ok()?` on the seek and the read; an encrypted entry has no offset.
unfoldable pub data_offset : ℕ → Result IoError (List ℕ) → Option ℕ
data_offset lh_offset (err e) = none
data_offset lh_offset (ok hdr) =
    if not (le32 hdr 0 == lfh_sig)
    then none
    else if le16 hdr 6 % 2 == 1
    then none
    else some (lh_offset + 30 + le16 hdr 26 + le16 hdr 28)

unfoldable pub local_data_offset : ℕ → Reader → Option ℕ × Reader
local_data_offset lh_offset r =
    let (res, r') = read_at lh_offset 30 r in (data_offset lh_offset res, r')

-- A directory for every prefix of the components; `i` counts them, empty ones too, and `acc` is the
-- path so far.
unfoldable pub add_components : ℕ → Str → List Str → Nodes → Nodes
add_components i acc [] nodes = nodes
add_components i acc (c ∷ cs) nodes =
    let acc' = if i == 0 then acc ++ c else acc ++ b'/' ∷ c in
    let skipped = add_components (suc i) acc cs nodes in
    let rest = add_components (suc i) acc' cs (or_insert nodes acc' (new_directory c)) in
    if is_empty c then skipped else rest

-- The metadata of a file; a location that is `none` leaves the old one, or takes its place.
unfoldable pub set_leaf : CdEntry → Option (Option ℕ) → TreeNode → TreeNode
set_leaf e none (node n s d cs loc len) =
    node n e.uncompressed_size false cs loc (some e.uncompressed_size)
set_leaf e (some loc') (node n s d cs loc len) =
    node n e.uncompressed_size false cs loc' (some e.uncompressed_size)

unfoldable pub update : Nodes → Str → CdEntry → Option (Option ℕ) → Nodes
update [] key e loc = []
update ((k, n) ∷ nodes) key e loc =
    if str_eq k key then (k, set_leaf e loc n) ∷ nodes else (k, n) ∷ update nodes key e loc

unfoldable pub contains_key : Nodes → Str → Bool
contains_key [] key = false
contains_key ((k, n) ∷ nodes) key = str_eq k key || contains_key nodes key

unfoldable pub ends_with : ℕ → Str → Bool
ends_with c [] = false
ends_with c (x ∷ []) = x == c
ends_with c (x ∷ y ∷ s) = ends_with c (y ∷ s)

-- The local header is read for a stored entry that is not encrypted.
unfoldable pub update_leaf : CdEntry → Str → Nodes → Reader → Nodes × Reader
update_leaf e raw nodes r =
    let (loc, r') = local_data_offset e.local_header_offset r in
    if not (contains_key nodes raw)
    then (nodes, r)
    else if (e.method == method_stored) && not e.is_encrypted
    then (update nodes raw e (some loc), r')
    else (update nodes raw e none, r)

unfoldable pub add_entry : CdEntry → Nodes → Reader → Nodes × Reader
add_entry e nodes r =
    let raw = trim_end_char b'/' e.name in
    let nodes' = add_components 0 [] (split_on b'/' raw) nodes in
    if is_empty raw
    then (nodes, r)
    else if ends_with b'/' e.name || ends_with 92 e.name
    then (nodes', r)
    else update_leaf e raw nodes' r

unfoldable pub add_entries : List CdEntry → Nodes → Reader → Nodes × Reader
add_entries [] nodes r = (nodes, r)
add_entries (e ∷ es) nodes r = let (nodes', r') = add_entry e nodes r in add_entries es nodes' r'

-- The wiring of children into parents is that of src/formats/tar.rs.
unfoldable pub wire : Nodes → TreeNode
wire nodes =
    calculate_directory_size
      (attach (suc (length nodes)) (sort_paths (keys nodes)) (new_directory (codes "/")) [] nodes).0

unfoldable pub build_tree : List CdEntry → M Error TreeNode
build_tree entries r = let (nodes, r') = add_entries entries [] r in (ok (wire nodes), r')

unfoldable pub forget : Result Error EocdInfo → Result Error (Unit {0})
forget (ok info) = ok tt
forget (err e) = err e

-- The cursor is put back whatever the outcome.
unfoldable pub detect : M Error (Unit {0})
detect r = (forget (find_eocd r).0, (seek_start r.pos (find_eocd r).1).1)

-- `checked_add`, and the end of the file.
unfoldable pub check_eocd : EocdInfo → ℕ → Result Error (Unit {0})
check_eocd eocd file_len =
    if leb (2 ^ 64) (eocd.cd_offset + eocd.cd_size) || ltb file_len (eocd.cd_offset + eocd.cd_size)
    then err bad_central_directory
    else ok tt

unfoldable pub detect_and_parse : M Error TreeNode
detect_and_parse = do
  eocd ← find_eocd
  file_len ← map_error io seek_end
  lift (check_eocd eocd file_len)
  cd_buf ← map_error io (read_at eocd.cd_offset eocd.cd_size)
  entries ← lift (parse_central_directory cd_buf)
  build_tree entries

unfoldable pub shift_bits : ℕ → ℕ → ℕ
shift_bits zero c = c
shift_bits (suc k) c = shift_bits k (if c % 2 == 1 then bit_xor 0xedb88320 (c / 2) else c / 2)

unfoldable pub crc32_table : ℕ → ℕ → List ℕ
crc32_table i zero = []
crc32_table i (suc n) = shift_bits 8 i ∷ crc32_table (suc i) n

unfoldable pub crc_loop : ℕ → List ℕ → ℕ
crc_loop crc [] = crc
crc_loop crc (b ∷ bs) =
    crc_loop (bit_xor (get_or (crc32_table 0 256) (bit_xor crc b % 256) 0) (crc / 256)) bs

-- `!crc` on a `u32`.
unfoldable pub crc32 : List ℕ → ℕ
crc32 bytes = 2 ^ 32 - 1 - crc_loop (2 ^ 32 - 1) bytes

unfoldable pub local_header : List ℕ → List ℕ → List ℕ
local_header name_bytes bytes =
    bytes32 lfh_sig
    ++ bytes16 20
    ++ bytes16 0
    ++ bytes16 method_stored
    ++ bytes32 0
    ++ bytes32 (crc32 bytes)
    ++ bytes32 (length bytes)
    ++ bytes32 (length bytes)
    ++ bytes16 (length name_bytes)
    ++ bytes16 0
    ++ name_bytes

-- The local headers with the data, from `offset` on, the records for the directory, and the offset
-- behind them; casts to `u32` and sums of them wrap.
unfoldable pub write_entries : ℕ → List (List ℕ × List ℕ) → List ℕ × List CdRecord × ℕ
write_entries offset [] = ([], [], offset)
write_entries offset ((name_bytes, bytes) ∷ entries) =
    let rec : CdRecord = record {
      name = name_bytes;
      crc = crc32 bytes;
      size = length bytes % 2 ^ 32;
      lh_offset = offset;
    } in
    let (out, recs, end_offset) =
      write_entries ((offset + 30 + length name_bytes + length bytes) % 2 ^ 32) entries in
    (local_header name_bytes bytes ++ bytes ++ out, rec ∷ recs, end_offset)

unfoldable pub end_record : ℕ → ℕ → ℕ → List ℕ
end_record n cd_size cd_start =
    bytes32 eocd_sig
    ++ bytes16 0
    ++ bytes16 0
    ++ bytes16 n
    ++ bytes16 n
    ++ bytes32 cd_size
    ++ bytes32 cd_start
    ++ bytes16 0

unfoldable pub write_stored : List (List ℕ × List ℕ) → List ℕ
write_stored entries =
    let (out, cd_records, cd_start) = write_entries 0 entries in
    let directory = central_directory cd_records in
    out ++ directory ++ end_record (length cd_records) (length directory) cd_start
