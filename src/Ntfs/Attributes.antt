-- ===== src/Ntfs/Attributes.antt =====
-- src/formats/ntfs.rs: the attributes of a record, and the runs of an attribute's clusters.
use isomage.Prelude.{
  ℕ, zero, suc, ◌+◌, ◌-◌, ◌*◌, ◌/◌, ◌%◌, ◌^◌, Bool, true, false, ◌&&◌, ◌||◌, not, List, [], ◌∷◌,
  Option, none, some, ltb, leb, ◌==◌, if◌then◌else◌, length, take, drop, bit_and, bit_or, Result,
  ok, err,
}
use isomage.Text.{Str}
use isomage.Text.Utf8.{from_utf16_lossy}
use isomage.Bytes.{byte, slice, le16, le32, le64}
use isomage.Word.{add64, u64_max}
use isomage.Ntfs.Record.{Error, panic}

abbrev pub attr_end : ℕ
attr_end = 0xffffffff

pub record Attribute : Type 0 where
  pub attr_type : ℕ
  pub non_resident : Bool
  pub resident_data : Option (List ℕ)
  pub nonresident_slice : Option (List ℕ)

-- The value of a resident attribute at `pos`, `len` bytes long in all.
unfoldable pub resident_value : List ℕ → ℕ → ℕ → Option (List ℕ)
resident_value buf pos len =
    let data_start = pos + le16 buf (pos + 20) in
    let data_end = data_start + le32 buf (pos + 16) in
    if ltb len 20
    then none
    else if ltb (length buf) (pos + 24)
    then none
    else if leb data_end (pos + len) && leb data_end (length buf)
    then some (slice buf data_start data_end)
    else none

unfoldable pub attribute_at : List ℕ → ℕ → ℕ → Attribute
attribute_at buf pos len =
    let non_resident = not (byte buf (pos + 8) == 0) in
    record {
      attr_type = le32 buf pos;
      non_resident = non_resident;
      resident_data = if non_resident then none else resident_value buf pos len;
      nonresident_slice = if non_resident then some (slice buf pos (pos + len)) else none;
    }

unfoldable pub push_attribute :
    Attribute → Result Error (List Attribute) → Result Error (List Attribute)
push_attribute attr (ok attrs) = ok (attr ∷ attrs)
push_attribute attr (err e) = err e

-- The walk from `pos`. Every attribute has a length, so that the length of the record is fuel
-- enough; the byte at `pos + 8` may be the one behind the record.
unfoldable pub attribute_loop : ℕ → List ℕ → ℕ → Result Error (List Attribute)
attribute_loop zero buf pos = ok []
attribute_loop (suc fuel) buf pos =
    let len = le32 buf (pos + 4) in
    let rest = attribute_loop fuel buf (pos + len) in
    if ltb (length buf) (pos + 8)
    then ok []
    else if le32 buf pos == attr_end
    then ok []
    else if (len == 0) || ltb (length buf) (pos + len)
    then ok []
    else if ltb (length buf) (pos + 9)
    then err panic
    else push_attribute (attribute_at buf pos len) rest

unfoldable pub parse_attributes : List ℕ → Result Error (List Attribute)
parse_attributes buf =
    if ltb (length buf) 22 then ok [] else attribute_loop (length buf) buf (le16 buf 20)

pub record FileNameAttr : Type 0 where
  pub parent_ref : ℕ
  pub name : Str
  pub namespace : ℕ
  pub is_directory : Bool

-- `chunks_exact(2)`.
unfoldable pub utf16_units_le : List ℕ → List ℕ
utf16_units_le [] = []
utf16_units_le (lo ∷ []) = []
utf16_units_le (lo ∷ hi ∷ bs) = (lo + 256 * hi) ∷ utf16_units_le bs

unfoldable pub parse_filename_attr : List ℕ → Option FileNameAttr
parse_filename_attr value =
    let name_bytes_len = byte value 64 * 2 in
    if ltb (length value) 66
    then none
    else if ltb (length value) (66 + name_bytes_len)
    then none
    else some (record {
      parent_ref = le64 value 0 % 2 ^ 48;
      name = from_utf16_lossy (utf16_units_le (slice value 66 (66 + name_bytes_len)));
      namespace = byte value 65;
      is_directory = not (bit_and (le32 value 56) 0x10 == 0);
    })

pub record Run : Type 0 where
  pub start_lcn : ℕ
  pub run_length : ℕ

-- `<<` on a `u64` in a release build.
unfoldable pub shl64 : ℕ → ℕ → ℕ
shl64 a k = a * 2 ^ (k % 64) % 2 ^ 64

-- `acc |= byte << (i * 8)` for the bytes from `i` on.
unfoldable pub or_bytes : ℕ → ℕ → List ℕ → ℕ
or_bytes acc i [] = acc
or_bytes acc i (b ∷ bs) = or_bytes (bit_or acc (shl64 b (i * 8))) (suc i) bs

-- The sign extension of `raw`, as the bits of an `i64`; the subtraction wraps around.
unfoldable pub sign_extend : ℕ → ℕ → ℕ
sign_extend off_size raw =
    let sign_bit = shl64 1 (off_size * 8 - 1) in
    let mask = u64_max - add64 (shl64 sign_bit 1) u64_max in
    if bit_and raw sign_bit == 0 then raw else bit_or raw mask

-- `(runs, had_sparse)` with one more run in front.
unfoldable pub push_run : Run → List Run × Bool → List Run × Bool
push_run run (runs, had_sparse) = (run ∷ runs, had_sparse)

-- The runs in what is left of the list; the cluster numbers are the bits of an `i64`. Every entry
-- takes a byte, so that the length of the list is fuel enough.
unfoldable pub run_loop : ℕ → ℕ → List ℕ → List Run × Bool
run_loop zero prev_lcn bytes = ([], false)
run_loop (suc fuel) prev_lcn [] = ([], false)
run_loop (suc fuel) prev_lcn (header ∷ bytes) =
    let len_size = header / 16 in
    let off_size = header % 16 in
    let raw = or_bytes 0 0 (take off_size (drop len_size bytes)) in
    let lcn = add64 prev_lcn (sign_extend off_size raw) in
    let run : Run = record { start_lcn = lcn; run_length = or_bytes 0 0 (take len_size bytes) } in
    let sparse = run_loop fuel prev_lcn (drop len_size bytes) in
    let rest = run_loop fuel lcn (drop (len_size + off_size) bytes) in
    if header == 0
    then ([], false)
    else if ltb (length bytes) (len_size + off_size)
    then ([], false)
    else if off_size == 0
    then (sparse.0, true)
    else push_run run rest

unfoldable pub decode_runlist : List ℕ → List Run × Bool
decode_runlist bytes = run_loop (length bytes) 0 bytes
