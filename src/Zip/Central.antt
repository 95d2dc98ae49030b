-- ===== src/Zip/Central.antt =====
-- src/formats/zip.rs: the records of the central directory, read and written. Where the source
-- keeps a position in the buffer, these functions keep what is left of it.
use isomage.Prelude.{
  ℕ, zero, suc, ◌+◌, ◌/◌, ◌%◌, ◌^◌, Bool, ◌&&◌, not, List, [], ◌∷◌, ◌++◌, Option, none, some, ltb,
  leb, ◌==◌, if◌then◌else◌, length, drop, min, Result, ok, err,
}
use isomage.Text.{Str}
use isomage.Text.Utf8.{from_utf8_lossy}
use isomage.Bytes.{slice, le16, le32, le64}
use isomage.Reader.{IoError}

-- `no_fuel` is a run that the model's fuel does not cover.
pub data Error : Type 0 where
  not_zip bad_central_directory no_fuel : Error
  io : IoError → Error

abbrev pub cdr_sig : ℕ
cdr_sig = 0x02014b50

abbrev pub method_stored : ℕ
method_stored = 0

pub record CdEntry : Type 0 where
  pub name : Str
  pub method : ℕ
  pub is_encrypted : Bool
  pub uncompressed_size : ℕ
  pub local_header_offset : ℕ

-- The compressed size, the size and the offset, as far as they are known.
abbrev pub Sizes : Type 0
Sizes = ℕ × ℕ × ℕ

abbrev pub is_sentinel : ℕ → Bool
is_sentinel v = v == 0xffffffff

-- The eight bytes at `p` in a field that ends at `limit`, and the position behind them, if the value
-- in the record is the sentinel and they fit.
unfoldable pub wide_value : List ℕ → ℕ → ℕ → ℕ → ℕ → ℕ × ℕ
wide_value extra limit value p known =
    if is_sentinel value && leb (p + 8) limit then (le64 extra p, p + 8) else (known, p)

-- The ZIP64 field at `pos`; the sentinels are those of the record.
unfoldable pub zip64_field : List ℕ → ℕ → ℕ → Sizes → Sizes → Sizes
zip64_field extra pos size (comp, uncomp, offset) (comp_out, uncomp_out, offset_out) =
    let (uncomp', p₁) = wide_value extra (pos + size) uncomp pos uncomp_out in
    let (comp', p₂) = wide_value extra (pos + size) comp p₁ comp_out in
    let (offset', p₃) = wide_value extra (pos + size) offset p₂ offset_out in
    (comp', uncomp', offset')

unfoldable pub extra_loop : ℕ → List ℕ → ℕ → Sizes → Sizes → Option Sizes
extra_loop zero extra pos given out = none
extra_loop (suc fuel) extra pos given out =
    let size = le16 extra (pos + 2) in
    let out' = if le16 extra pos == 1 then zip64_field extra (pos + 4) size given out else out in
    let rest = extra_loop fuel extra (pos + 4 + size) given out' in
    if ltb (length extra) (pos + 4)
    then some out
    else if ltb (length extra) (pos + 4 + size)
    then some out
    else rest

-- Every step takes at least four bytes.
unfoldable pub parse_zip64_extra : List ℕ → Sizes → Option Sizes
parse_zip64_extra extra given = extra_loop (suc (length extra)) extra 0 given given

-- The sizes of the record at the front of `buf`, whose name ends at `name_end`.
unfoldable pub record_sizes : List ℕ → ℕ → ℕ → Option Sizes
record_sizes buf name_end extra_len =
    let extra_end = min (name_end + extra_len) (length buf) in
    let given : Sizes = (le32 buf 20, le32 buf 24, le32 buf 42) in
    let wide = parse_zip64_extra (slice buf name_end extra_end) given in
    if ltb name_end extra_end then wide else some given

unfoldable pub cd_entry : List ℕ → ℕ → Sizes → CdEntry
cd_entry buf name_end (comp, uncomp, lh_off) = record {
  name = from_utf8_lossy (slice buf 46 name_end);
  method = le16 buf 10;
  is_encrypted = le16 buf 8 % 2 == 1;
  uncompressed_size = uncomp;
  local_header_offset = lh_off;
}

unfoldable pub with_entry :
    List ℕ → ℕ → Option Sizes → Result Error (List CdEntry) → Result Error (List CdEntry)
with_entry buf name_end none rest = err no_fuel
with_entry buf name_end (some sizes) (err e) = err e
with_entry buf name_end (some sizes) (ok entries) = ok (cd_entry buf name_end sizes ∷ entries)

unfoldable pub cd_loop : ℕ → List ℕ → Result Error (List CdEntry)
cd_loop zero buf = err no_fuel
cd_loop (suc fuel) buf =
    let name_end = 46 + le16 buf 28 in
    let extra_len = le16 buf 30 in
    let rest = cd_loop fuel (drop (name_end + extra_len + le16 buf 32) buf) in
    if ltb (length buf) 4
    then ok []
    else if not (le32 buf 0 == cdr_sig)
    then ok []
    else if ltb (length buf) 46
    then err bad_central_directory
    else if ltb (length buf) name_end
    then err bad_central_directory
    else with_entry buf name_end (record_sizes buf name_end extra_len) rest

-- Every step takes at least 46 bytes.
unfoldable pub parse_central_directory : List ℕ → Result Error (List CdEntry)
parse_central_directory buf = cd_loop (suc (length buf)) buf

pub record CdRecord : Type 0 where
  pub name : List ℕ
  pub crc : ℕ
  pub size : ℕ
  pub lh_offset : ℕ

-- `to_le_bytes` of a `u16` and a `u32`.
abbrev pub bytes16 : ℕ → List ℕ
bytes16 v = v % 256 ∷ v / 256 % 256 ∷ []

abbrev pub bytes32 : ℕ → List ℕ
bytes32 v = v % 256 ∷ v / 256 % 256 ∷ v / 2 ^ 16 % 256 ∷ v / 2 ^ 24 % 256 ∷ []

-- What `write_stored` writes of a record; the length of the name is cast to a `u16`.
unfoldable pub cd_bytes : CdRecord → List ℕ
cd_bytes rec =
    bytes32 cdr_sig
    ++ bytes16 20
    ++ bytes16 20
    ++ bytes16 0
    ++ bytes16 method_stored
    ++ bytes32 0
    ++ bytes32 rec.crc
    ++ bytes32 rec.size
    ++ bytes32 rec.size
    ++ bytes16 (length rec.name)
    ++ bytes16 0
    ++ bytes16 0
    ++ bytes16 0
    ++ bytes16 0
    ++ bytes32 0
    ++ bytes32 rec.lh_offset
    ++ rec.name

-- The loop over the records.
unfoldable pub central_directory : List CdRecord → List ℕ
central_directory [] = []
central_directory (rec ∷ recs) = cd_bytes rec ++ central_directory recs
