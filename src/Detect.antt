-- ===== src/Detect.antt =====
-- src/lib.rs: the detection of a file system, ISO 9660 first and then UDF.
pub mod Choice
pub mod Cursor
pub mod Volumes
use isomage.Prelude.{ℕ, Option, none, some, Result, ok, err}
use isomage.Text.{Str}
use isomage.Reader.{Reader, M, IoError, seek_start}
use isomage.Tree.{TreeNode}
use isomage.Iso9660.Record
use isomage.Iso9660.{parse_iso9660}
use isomage.Udf.Allocation
use isomage.Udf.{parse_udf}

-- The message names the file and holds both failures. `panic` and `no_fuel` are those of the
-- parsers, which end the program.
pub data Error : Type 0 where
  unsupported : Str → Record.Error → Allocation.Error → Error
  io : IoError → Error
  panic no_fuel : Error

abbrev pub iso9660_end : Record.Error → Option Error
iso9660_end Record.panic = some panic
iso9660_end Record.no_fuel = some no_fuel
iso9660_end e = none

abbrev pub udf_end : Allocation.Error → Option Error
udf_end Allocation.panic = some panic
udf_end Allocation.no_fuel = some no_fuel
udf_end e = none

unfoldable pub after_udf :
    Str → Record.Error → Result Allocation.Error TreeNode × Reader → Result Error TreeNode × Reader
after_udf filename iso_error (ok root, r) = (ok root, r)
after_udf filename iso_error (err e, r) = elim (udf_end e) [
  | some stopped ↦ (err stopped, r)
  | none ↦ (err (unsupported filename iso_error e), r)
]

-- `?` on the seek.
unfoldable pub after_rewind :
    ℕ → Str → Record.Error → Result IoError ℕ × Reader → Result Error TreeNode × Reader
after_rewind depth filename iso_error (err e, r) = (err (io e), r)
after_rewind depth filename iso_error (ok start, r) =
    after_udf filename iso_error (parse_udf depth r)

unfoldable pub after_iso9660 :
    ℕ → Str → Result Record.Error TreeNode × Reader → Result Error TreeNode × Reader
after_iso9660 depth filename (ok root, r) = (ok root, r)
after_iso9660 depth filename (err e, r) = elim (iso9660_end e) [
  | some stopped ↦ (err stopped, r)
  | none ↦ after_rewind depth filename e (seek_start 0 r)
]

-- `depth` bounds the nesting of directories, for which the source has no limit.
unfoldable pub detect_and_parse_filesystem : ℕ → Str → M Error TreeNode
detect_and_parse_filesystem depth filename r = after_iso9660 depth filename (parse_iso9660 depth r)
