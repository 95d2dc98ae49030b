-- ===== src/Iso9660.antt =====
-- src/iso9660.rs: the volume descriptors, and the entry point.
pub mod Record
pub mod Directory
pub mod Scan
pub mod Names
pub mod RockRidge
pub mod Cycle
pub mod Keeps
use isomage.Prelude.{
  ℕ, zero, suc, ◌+◌, ◌*◌, ◌/◌, Bool, true, false, ◌||◌, not, List, Option, none, some, ◌==◌,
  if◌then◌else◌, length, drop, Result, ok, err,
}
use isomage.Text.{codes, str_eq}
use isomage.Bytes.{byte, slice}
use isomage.Reader.{Reader, IoError, M, ◌>>=◌, ◌>>◌, pure, lift, map_error, seek_start, read_exact}
use isomage.Tree.{TreeNode, new_directory, calculate_directory_size}
use isomage.Iso9660.Record.{
  Error, not_iso, io, no_fuel, VolumeDescriptorType, primary, joliet, DirectoryRecord,
  parse_directory_record,
}
use isomage.Iso9660.Directory.{sector_size, is_primary, detect_rock_ridge, parse_directory}

abbrev pub primary_volume_descriptor_sector : ℕ
primary_volume_descriptor_sector = 16

-- The descriptors found so far, each the last one of its kind.
pub record Found : Type 0 where
  pub primary_vd : Option (List ℕ)
  pub joliet_vd : Option (List ℕ)

pub data Step : Type 0 where
  stop : Step
  again : Found → Step

unfoldable pub is_joliet : List ℕ → Bool
is_joliet buffer =
    let escape = slice buffer 88 91 in
    str_eq escape (codes "%/@") || str_eq escape (codes "%/C") || str_eq escape (codes "%/E")

-- What the loop makes of the sector that it has read.
unfoldable pub vd_step : ℕ → Found → List ℕ → Result Error Step
vd_step sector f buffer =
    let vd_type = byte buffer 0 in
    if not (str_eq (slice buffer 1 6) (codes "CD001"))
    then (if sector == primary_volume_descriptor_sector then err not_iso else ok stop)
    else if vd_type == 1
    then ok (again (record f { primary_vd = some buffer }))
    else if vd_type == 2
    then ok (again (if is_joliet buffer then record f { joliet_vd = some buffer } else f))
    else if vd_type == 255
    then ok stop
    else ok (again f)

-- A sector that cannot be read whole ends the loop.
unfoldable pub after_read :
    ℕ → Found → Result IoError (List ℕ) × Reader → Result Error Step × Reader
after_read sector f (err e, r) = (ok stop, r)
after_read sector f (ok buffer, r) = (vd_step sector f buffer, r)

-- `?` on the seek.
unfoldable pub after_seek : ℕ → Found → Result IoError ℕ × Reader → Result Error Step × Reader
after_seek sector f (err e, r) = (err (io e), r)
after_seek sector f (ok at_pos, r) = after_read sector f (read_exact sector_size r)

unfoldable pub vd_turn : ℕ → Found → M Error Step
vd_turn sector f r = after_seek sector f (seek_start (sector * sector_size) r)

unfoldable pub after_turn :
    (Found → M Error Found) → Found → Result Error Step × Reader → Result Error Found × Reader
after_turn next f (err e, r) = (err e, r)
after_turn next f (ok stop, r) = (ok f, r)
after_turn next f (ok (again f'), r) = next f' r

unfoldable pub vd_loop : ℕ → ℕ → Found → M Error Found
vd_loop zero sector f r = (err no_fuel, r)
vd_loop (suc fuel) sector f r = after_turn (vd_loop fuel (suc sector)) f (vd_turn sector f r)

-- One turn for each sector of the image, and one for its end.
unfoldable pub scan_descriptors : M Error Found
scan_descriptors r =
    vd_loop (length r.image / sector_size + 1) primary_volume_descriptor_sector
      (record { primary_vd = none; joliet_vd = none }) r

-- Joliet is preferred.
unfoldable pub choose : Found → Result Error (List ℕ × VolumeDescriptorType)
choose f = elim f.joliet_vd [
  | some buffer ↦ ok (buffer, joliet)
  | none ↦ elim f.primary_vd [ some buffer ↦ ok (buffer, primary) | none ↦ err not_iso ]
]

unfoldable pub wants_rock_ridge : VolumeDescriptorType → DirectoryRecord → M Error Bool
wants_rock_ridge primary root_record = detect_rock_ridge root_record
wants_rock_ridge joliet root_record = pure false

-- The root directory of a descriptor; `depth` bounds the nesting of directories.
unfoldable pub parse_root : ℕ → List ℕ → VolumeDescriptorType → M Error TreeNode
parse_root depth buffer vd = do
  root_record ← lift (parse_directory_record (drop 156 buffer) vd)
  use_rock_ridge ← wants_rock_ridge vd root_record
  root_node ← parse_directory depth vd use_rock_ridge root_record (new_directory (codes "/"))
  pure (calculate_directory_size root_node)

unfoldable pub parse_iso9660 : ℕ → M Error TreeNode
parse_iso9660 depth = do
  found ← scan_descriptors
  chosen ← lift (choose found)
  parse_root depth chosen.0 chosen.1
