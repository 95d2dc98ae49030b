-- ===== src/Tar.antt =====
-- src/formats/tar.rs: the fields of a header block, the records of a PAX header, and the header
-- that the writer makes.
pub mod Scan
pub mod Build
pub mod Octal
pub mod Progress
pub mod Header
use isomage.Prelude.{
  ℕ, zero, suc, ◌+◌, ◌-◌, ◌/◌, ◌%◌, ◌^◌, Bool, true, false, ◌&&◌, ◌||◌, not, List, [], ◌∷◌, ◌++◌,
  Option, none, some, ltb, ◌==◌, if◌then◌else◌, length, take, replicate, min,
}
use isomage.Text.{Str, codes, str_eq, is_empty, strip_prefix, split_once, split_on, trim}
use isomage.Text.Decimal.{from_str_radix}
use isomage.Text.Utf8.{from_utf8, from_utf8_lossy}
use isomage.Bytes.{slice}
use isomage.Reader.{IoError}

abbrev pub block_size : ℕ
block_size = 512

pub data Error : Type 0 where
  not_tar bad_header : Error
  io : IoError → Error

unfoldable pub has_ustar_magic : List ℕ → Bool
has_ustar_magic block =
    let magic = slice block 257 263 in
    str_eq magic (codes "ustar" ++ 0 ∷ []) || str_eq magic (codes "ustar ")

unfoldable pub unwrap_or : {A : Type 0} → Option A → A → A
unwrap_or none a = a
unwrap_or (some a) _ = a

-- `take_while(|&&b| b != 0 && b != b' ')`.
unfoldable pub until_nul_or_space : List ℕ → List ℕ
until_nul_or_space [] = []
until_nul_or_space (b ∷ bs) = if (b == 0) || (b == b' ') then [] else b ∷ until_nul_or_space bs

unfoldable pub parse_octal : List ℕ → ℕ
parse_octal field =
    let s = unwrap_or (from_utf8 (until_nul_or_space field)) (codes "0") in
    unwrap_or (from_str_radix 8 (trim s)) 0

-- What stands before the first NUL.
unfoldable pub until_nul : List ℕ → List ℕ
until_nul [] = []
until_nul (b ∷ bs) = if b == 0 then [] else b ∷ until_nul bs

unfoldable pub parse_name : List ℕ → Str
parse_name field = from_utf8_lossy (until_nul field)

unfoldable pub entry_name : List ℕ → Str
entry_name block =
    let name = parse_name (slice block 0 100) in
    let prefix = parse_name (slice block 345 500) in
    if is_empty prefix then name else prefix ++ b'/' ∷ name

-- The overrides for `path` and `size`.
abbrev pub Pax : Type 0
Pax = Option Str × Option ℕ

-- One line of the body: a later record replaces an earlier one.
unfoldable pub pax_line : Str → Pax → Pax
unfolding trim is_empty split_once strip_prefix
pax_line raw (path, size) =
    let line = trim raw in
    let rest = unwrap_or (split_once b' ' line).1 [] in
    if is_empty line then (path, size) else elim (strip_prefix (codes "path=") rest) [
      | some val ↦ (some val, size)
      | none ↦ elim (strip_prefix (codes "size=") rest) [
        | some val ↦ (path, from_str_radix 10 val)
        | none ↦ (path, size)
      ]
    ]

unfoldable pub pax_lines : List Str → Pax → Pax
pax_lines [] pax = pax
pax_lines (line ∷ lines) pax = pax_lines lines (pax_line line pax)

unfoldable pub parse_pax : List ℕ → Pax
parse_pax body = pax_lines (split_on 10 (from_utf8_lossy body)) (none, none)

-- `{:0ko}` of a number below `8 ^ k`.
unfoldable pub octal : ℕ → ℕ → List ℕ
octal zero n = []
octal (suc k) n = octal k (n / 8) ++ (b'0' + n % 8) ∷ []

unfoldable pub sum_bytes : List ℕ → ℕ
sum_bytes [] = 0
sum_bytes (b ∷ bs) = b + sum_bytes bs

-- The name, cut to 100 bytes or filled up with NULs.
unfoldable pub name_field : List ℕ → List ℕ
name_field name_bytes = take 100 name_bytes ++ replicate (100 - length name_bytes) 0

-- What `write_entry` puts behind the name, around the eight bytes of the checksum field.
unfoldable pub after_name : List ℕ → ℕ → List ℕ
after_name cksum len =
    codes "0000644"
    ++ 0 ∷ []
    ++ codes "0000000"
    ++ 0 ∷ []
    ++ codes "0000000"
    ++ 0 ∷ []
    ++ octal 11 len
    ++ 0 ∷ []
    ++ codes "00000000000"
    ++ 0 ∷ []
    ++ cksum
    ++ b'0' ∷ []
    ++ replicate 100 0
    ++ codes "ustar"
    ++ 0 ∷ []
    ++ codes "00"
    ++ replicate 247 0

unfoldable pub header_with : List ℕ → List ℕ → ℕ → List ℕ
header_with cksum name_bytes len = name_field name_bytes ++ after_name cksum len

unfoldable pub header : List ℕ → ℕ → List ℕ
header name_bytes len =
    let cksum = sum_bytes (header_with (replicate 8 b' ') name_bytes len) in
    header_with (octal 6 cksum ++ 0 ∷ b' ' ∷ []) name_bytes len

-- What `write_entry` appends; `none` where the size needs more than 11 digits and the copy of
-- the field panics.
unfoldable pub write_entry : List ℕ → List ℕ → Option (List ℕ)
write_entry name_bytes data_bytes =
    let remainder = length data_bytes % 512 in
    let padding = if remainder == 0 then [] else replicate (512 - remainder) 0 in
    if ltb (length data_bytes) (8 ^ 11)
    then some (header name_bytes (length data_bytes) ++ data_bytes ++ padding)
    else none

unfoldable pub write : List (List ℕ × List ℕ) → Option (List ℕ)
write [] = some (replicate 1024 0)
write ((name, bytes) ∷ entries) = elim (write_entry name bytes) [
  | none ↦ none
  | some out ↦ elim (write entries) [ none ↦ none | some rest ↦ some (out ++ rest) ]
]
