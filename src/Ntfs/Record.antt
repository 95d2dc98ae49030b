-- ===== src/Ntfs/Record.antt =====
-- src/formats/ntfs.rs: the boot sector, and the records of the master file table.
use isomage.Prelude.{
  ℕ, zero, suc, ◌+◌, ◌-◌, ◌*◌, ◌%◌, ◌^◌, ◌&&◌, ◌||◌, not, List, Option, none, some, ltb, ◌==◌,
  if◌then◌else◌, length, take, set, Result, ok, err,
}
use isomage.Text.{codes, str_eq}
use isomage.Bytes.{byte, slice, le16, le64}
use isomage.Word.{mul64}
use isomage.Reader.{
  M, IoError, unexpected_eof, invalid_input, ◌>>◌, map_error, seek_start, read_exact, Reader,
}

abbrev pub oem_id : List ℕ
oem_id = codes "NTFS    "

-- `panic` is no error of the source: a slice or an index past the end of a buffer.
pub data Error : Type 0 where
  too_short bad_magic bad_cluster_size too_deep panic : Error
  io : IoError → Error

pub record BootSector : Type 0 where
  pub cluster_size : ℕ
  pub mft_record_size : ℕ
  pub mft_offset : ℕ

-- The byte is an `i8`: a positive one counts clusters, another is the negated exponent, by which a
-- release build shifts modulo 64.
unfoldable pub record_size_of : ℕ → ℕ → ℕ
record_size_of cpfrs cluster_size =
    if ltb 0 cpfrs && ltb cpfrs 128 then cpfrs * cluster_size else 2 ^ ((256 - cpfrs) % 64)

unfoldable pub parse_boot_sector : List ℕ → Result Error BootSector
parse_boot_sector buf =
    let bytes_per_sector = le16 buf 11 in
    let cluster_size = bytes_per_sector * byte buf 13 in
    let mft_record_size = record_size_of (byte buf 64) cluster_size in
    if ltb (length buf) 84
    then err too_short
    else if not (str_eq (slice buf 3 11) oem_id)
    then err bad_magic
    else if ltb bytes_per_sector 512 || ltb 4096 bytes_per_sector
    then err bad_cluster_size
    else if byte buf 13 == 0
    then err bad_cluster_size
    else if (mft_record_size == 0) || ltb 65536 mft_record_size
    then err bad_cluster_size
    else ok (record {
      cluster_size = cluster_size;
      mft_record_size = mft_record_size;
      mft_offset = mul64 (le64 buf 48) cluster_size;
    })

-- The last two bytes of a sector, from the entry of the array. A mismatch of the sequence number is
-- tolerated by the source, which compares it to no effect.
unfoldable pub fix_sector : ℕ → ℕ → List ℕ → List ℕ
fix_sector sector_end fix_offset buf =
    let buf' = set buf sector_end (byte buf fix_offset) in
    set buf' (sector_end + 1) (byte buf' (fix_offset + 1))

-- Sectors `i` on, of which `left` are left in the array.
unfoldable pub fixup_loop : ℕ → ℕ → ℕ → List ℕ → List ℕ
fixup_loop usa_offset zero i buf = buf
fixup_loop usa_offset (suc left) i buf =
    let rest =
      fixup_loop usa_offset left (suc i) (fix_sector (i * 512 - 2) (usa_offset + i * 2) buf) in
    if ltb (length buf) (i * 512) then buf else rest

-- `none` where the source returns `false`.
unfoldable pub apply_fixup : List ℕ → Option (List ℕ)
apply_fixup buf =
    let usa_offset = le16 buf 4 in
    let usa_count = le16 buf 6 in
    if ltb (length buf) 8
    then none
    else if ltb usa_count 2 || ltb (length buf) (usa_offset + usa_count * 2)
    then none
    else some (fixup_loop usa_offset (usa_count - 1) 1 buf)

-- Bit 0 of the flags at offset 22 says that the record is in use.
unfoldable pub if_in_use : List ℕ → Result Error (Option (List ℕ))
if_in_use buf =
    if ltb (length buf) 24
    then err panic
    else if byte buf 22 % 2 == 0
    then ok none
    else ok (some buf)

unfoldable pub fixed_record : Option (List ℕ) → Result Error (Option (List ℕ))
fixed_record none = ok none
fixed_record (some buf) = if_in_use buf

unfoldable pub check_record : List ℕ → Result Error (Option (List ℕ))
check_record buf =
    if ltb (length buf) 4
    then err panic
    else if not (str_eq (take 4 buf) (codes "FILE"))
    then ok none
    else fixed_record (apply_fixup buf)

-- The end of the file is no record, any other failure is `Io`.
unfoldable pub after_record :
    Result IoError (List ℕ) × Reader → Result Error (Option (List ℕ)) × Reader
after_record (ok buf, r) = (check_record buf, r)
after_record (err unexpected_eof, r) = (ok none, r)
after_record (err invalid_input, r) = (err (io invalid_input), r)

unfoldable pub read_mft_record : ℕ → ℕ → M Error (Option (List ℕ))
read_mft_record offset record_size = do
  map_error io (seek_start offset)
  λ r. after_record (read_exact record_size r)
