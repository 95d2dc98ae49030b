-- ===== src/Iso9660/Names.antt =====
-- src/iso9660.rs, `parse_directory_record`: the layout of a directory record, and what is read.
use isomage.Prelude.{ℕ, ◌/◌, ◌%◌, ◌^◌, ◌≤◌, ◌<◌, ◌≡◌, ◌≢◌, List, [], ◌∷◌, ◌++◌, All, length}
use isomage.Text.{Str}
use isomage.Text.Utf8.{IsAscii}
use isomage.Zip.Central.{bytes16, bytes32}

-- A character of a name: ASCII, not a control character, and not the separator of the version.
abbrev pub IsNameCharacter : ℕ → Type 0
IsNameCharacter c = (32 ≤ c) × (c < 128) × (c ≢ b';')

-- The last character is not `c`.
abbrev pub EndsWithout : ℕ → Str → Type 0
EndsWithout c [] = Unit {0}
EndsWithout c (x ∷ []) = x ≢ c
EndsWithout c (x ∷ y ∷ s) = EndsWithout c (y ∷ s)

-- What may follow a name: nothing, or the separator and a version.
abbrev pub IsVersion : Str → Type 0
IsVersion [] = Unit {0}
IsVersion (c ∷ version) = (c ≡ b';') × All IsAscii version

abbrev pub bytes16_be : ℕ → List ℕ
bytes16_be v = v / 256 % 256 ∷ v % 256 ∷ []

abbrev pub bytes32_be : ℕ → List ℕ
bytes32_be v = bytes16_be (v / 2 ^ 16) ++ bytes16_be v

-- A record on disk. The reader does not read the length of the extended attributes, the date, the
-- interleaving and the volume.
pub record Stored : Type 0 where
  pub record_length : ℕ
  pub attribute_length : ℕ
  pub extent_location : ℕ
  pub data_length : ℕ
  pub date : ℕ → ℕ
  pub flags : ℕ
  pub unit_size : ℕ
  pub gap_size : ℕ
  pub volume : ℕ
  pub name : Str
  pub version : Str

-- The fields in front of the name: the numbers in both byte orders, and the length of the name.
abbrev pub front_bytes : Stored → List ℕ
front_bytes s =
    s.record_length ∷ s.attribute_length ∷ bytes32 s.extent_location
    ++ bytes32_be s.extent_location
    ++ bytes32 s.data_length
    ++ bytes32_be s.data_length
    ++ s.date 0
      ∷ s.date 1
      ∷ s.date 2
      ∷ s.date 3
      ∷ s.date 4
      ∷ s.date 5
      ∷ s.date 6
      ∷ s.flags
      ∷ s.unit_size
      ∷ s.gap_size
      ∷ bytes16 s.volume
    ++ bytes16_be s.volume
    ++ length (s.name ++ s.version) ∷ []

-- The record with what follows it: its padding, its system use area, and the next records.
abbrev pub record_bytes : Stored → List ℕ → List ℕ
record_bytes s tail = front_bytes s ++ ((s.name ++ s.version) ++ tail)

abbrev pub IsStored : Stored → Type 0
IsStored s =
    (s.record_length ≢ 0)
    × (s.extent_location < 2 ^ 32)
    × (s.data_length < 2 ^ 32)
    × (1 ≤ length s.name)
    × All IsNameCharacter s.name
    × EndsWithout b'.' s.name
    × IsVersion s.version
