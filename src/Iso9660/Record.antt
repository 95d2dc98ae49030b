-- ===== src/Iso9660/Record.antt =====
-- src/iso9660.rs: directory records, and the Rock Ridge names in their system use area.
use isomage.Prelude.{
  ℕ, zero, suc, ◌+◌, ◌*◌, ◌/◌, ◌%◌, Bool, ◌&&◌, ◌||◌, List, [], ◌∷◌, ◌++◌, Option, none, some, ltb,
  leb, ◌==◌, if◌then◌else◌, length, Result, ok, err,
}
use isomage.Text.{Str, codes, str_eq, split_once, trim_end_char}
use isomage.Text.Utf8.{from_utf8_lossy, from_utf16_lossy}
use isomage.Bytes.{byte, slice, le32}
use isomage.Reader.{IoError}

-- The messages of the parser as constructors. `panic` is an index out of range, and `no_fuel` a
-- run that the model's fuel does not cover.
pub data Error : Type 0 where
  not_iso record_too_short zero_length name_past_buffer : Error
  io : IoError → Error
  panic no_fuel : Error

pub data VolumeDescriptorType : Type 0 where
  primary joliet : VolumeDescriptorType

pub record DirectoryRecord : Type 0 where
  pub extent_location : ℕ
  pub data_length : ℕ
  pub is_directory : Bool
  pub filename : Str

-- `chunks_exact(2)` as big-endian units.
unfoldable pub be_units : List ℕ → List ℕ
be_units [] = []
be_units (hi ∷ []) = []
be_units (hi ∷ lo ∷ bs) = (256 * hi + lo) ∷ be_units bs

-- What stands before the first `;`, or everything.
unfoldable pub without_version : Str → Str
without_version raw_name = (split_once b';' raw_name).0

unfoldable pub decode_name : VolumeDescriptorType → List ℕ → Str
decode_name joliet name = without_version (from_utf16_lossy (be_units name))
decode_name primary name = trim_end_char b'.' (without_version (from_utf8_lossy name))

-- The names of one byte 0, of no bytes, and of one byte 1 stand for the directory and its parent.
unfoldable pub record_name : VolumeDescriptorType → List ℕ → Str
record_name vd name =
    if (length name == 0) || ((length name == 1) && (byte name 0 == 0))
    then codes "."
    else if (length name == 1) && (byte name 0 == 1)
    then codes ".."
    else decode_name vd name

unfoldable pub parse_directory_record : List ℕ → VolumeDescriptorType → Result Error DirectoryRecord
parse_directory_record bytes vd =
    let filename_length = byte bytes 32 in
    if ltb (length bytes) 34
    then err record_too_short
    else if byte bytes 0 == 0
    then err zero_length
    else if ltb (length bytes) (33 + filename_length)
    then err name_past_buffer
    else ok (record {
      extent_location = le32 bytes 2;
      data_length = le32 bytes 10;
      is_directory = byte bytes 25 / 2 % 2 == 1;
      filename = record_name vd (slice bytes 33 (33 + filename_length));
    })

-- Where the system use area starts: behind the name and its padding.
abbrev pub su_start_of : ℕ → ℕ
su_start_of filename_length = 33 + filename_length + (filename_length + 1) % 2

-- The bytes that an `NM` entry adds to the name: none with the flags for `.` and `..`, and a panic
-- where the flags or the first byte of the name lie outside.
unfoldable pub nm_part : List ℕ → ℕ → ℕ → Result Error (List ℕ)
nm_part su_area offset entry_len =
    if leb (length su_area) (offset + 4)
    then err panic
    else let flags = byte su_area (offset + 4) in
      if (flags / 2 % 2 == 1) || (flags / 4 % 2 == 1)
      then ok []
      else if ltb entry_len 5
      then err panic
      else ok (slice su_area (offset + 5) (offset + entry_len))

-- The name parts of one entry.
unfoldable pub entry_part : List ℕ → ℕ → ℕ → Result Error (List ℕ)
entry_part su_area offset entry_len =
    if str_eq (slice su_area offset (offset + 2)) (codes "NM")
    then nm_part su_area offset entry_len
    else ok []

-- The loop over the entries of the area.
unfoldable pub su_loop : ℕ → List ℕ → ℕ → List ℕ → Result Error (List ℕ)
su_loop zero su_area offset name_parts = err no_fuel
su_loop (suc fuel) su_area offset name_parts =
    let entry_len = byte su_area (offset + 2) in
    let rest : Result Error (List ℕ) = elim (entry_part su_area offset entry_len) [
      | err e ↦ err e
      | ok part ↦ su_loop fuel su_area (offset + entry_len) (name_parts ++ part)
    ] in
    if ltb (length su_area) (offset + 4)
    then ok name_parts
    else if ltb entry_len 4 || ltb (length su_area) (offset + entry_len)
    then ok name_parts
    else rest

unfoldable pub name_of_parts : List ℕ → Option Str
name_of_parts [] = none
name_of_parts (b ∷ bs) = some (from_utf8_lossy (b ∷ bs))

-- The caller passes a record of `record_length` bytes.
unfoldable pub extract_rock_ridge_name : List ℕ → ℕ → ℕ → Result Error (Option Str)
extract_rock_ridge_name bytes record_length filename_length =
    let su_start = su_start_of filename_length in
    let su_area = slice bytes su_start record_length in
    if leb record_length su_start
    then ok none
    else elim (su_loop (suc (length su_area)) su_area 0 []) [
      | err e ↦ err e
      | ok parts ↦ ok (name_of_parts parts)
    ]
