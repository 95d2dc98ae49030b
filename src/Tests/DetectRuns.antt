-- ===== src/Tests/DetectRuns.antt =====
-- src/lib.rs, and every `detect` of src/formats, on an image with a volume descriptor and nothing
-- else.
use isomage.Prelude.{◌≡◌, ◌↔◌, ◌∷◌, ◌++◌, ok, arith, replicate}
use isomage.Text.{codes}
use isomage.Reader.{Reader}
use isomage.Tree.{new_directory}
use isomage.Detect.{detect_and_parse_filesystem}
use isomage.Detect.Cursor.{detect_restores_cursor}
use isomage.Qcow2
use isomage.Vhd
use isomage.Vmdk
use isomage.Wim
use isomage.Ext
use isomage.Zip
use isomage.Apfs
use isomage.Hfsplus
use isomage.Dmg
use isomage.Squashfs
use isomage.Ntfs
use isomage.Tar.Build as TarBuild
use isomage.Fat.Build as FatBuild
use isomage.Detect.Choice.{Chosen, detect_and_parse_filesystem_iff}

abbrev image : Reader
image = record { image = replicate 32768 0 ++ (1 ∷ codes "CD001" ++ replicate 2042 0); pos = 7 }

detect_and_parse_filesystem_iff_example :
    ((detect_and_parse_filesystem 8 (codes "disc.iso") image).0 ≡ ok (new_directory (codes "/")))
    ↔ Chosen 8 image (new_directory (codes "/"))
detect_and_parse_filesystem_iff_example =
    detect_and_parse_filesystem_iff 8 (codes "disc.iso") image (new_directory (codes "/"))

detect_restores_cursor_example :
    ((Qcow2.detect image).1 ≡ image)
    × ((Vhd.detect image).1 ≡ image)
    × ((Vmdk.detect image).1 ≡ image)
    × ((Wim.detect image).1 ≡ image)
    × ((Ext.detect image).1 ≡ image)
    × ((Zip.detect image).1 ≡ image)
    × ((Apfs.detect image).1 ≡ image)
    × ((Hfsplus.detect image).1 ≡ image)
    × ((Dmg.detect image).1 ≡ image)
    × ((Squashfs.detect image).1 ≡ image)
    × ((Ntfs.detect image).1 ≡ image)
    × ((TarBuild.detect image).1 ≡ image)
    × ((FatBuild.detect image).1 ≡ image)
detect_restores_cursor_example = detect_restores_cursor image (omega arith)
