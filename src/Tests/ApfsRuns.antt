-- ===== src/Tests/ApfsRuns.antt =====
-- src/formats/apfs.rs on a container that names one volume whose block lies past the image.
use isomage.Prelude.{ℕ, ◌≤◌, ◌≢◌, All, ◌≡◌, refl, [], ◌∷◌, ◌++◌, ok, replicate}
use isomage.Text.{codes}
use isomage.Reader.{Reader}
use isomage.Apfs
use isomage.Apfs.Superblock.{IsBlockSize, read_nx_superblock-eq-ok}
use isomage.Tree.{new_directory, add_child, calculate_directory_size}

abbrev container : Reader
container = record {
  image =
      replicate 32 0
      ++ (0x4e ∷ 0x58 ∷ 0x53 ∷ 0x42 ∷ 0 ∷ 16 ∷ 0 ∷ 0 ∷ [])
      ++ replicate 140 0
      ++ (7 ∷ replicate 15 0);
  pos = 3;
}

detects : Apfs.detect container ≡ (ok tt, container)
unfolding Apfs.detect Apfs.restore Apfs.do_detect Apfs.read_field Apfs.check_magic
    isomage.Bytes.le32 isomage.Bytes.le16 isomage.Bytes.slice isomage.Reader.seek_start
    isomage.Reader.read_exact
detects = refl

superblock :
    (Apfs.read_nx_superblock container).0 ≡ ok (record { block_size = 4096; fs_oids = 7 ∷ [] })
unfolding Apfs.read_nx_superblock Apfs.read_field Apfs.check_magic Apfs.check_block_size
    Apfs.is_block_size Apfs.oid_loop Apfs.after_oid Apfs.eof_error isomage.Bytes.le64
    isomage.Bytes.le32 isomage.Bytes.le16 isomage.Bytes.slice isomage.Reader.seek_start
    isomage.Reader.read_exact
superblock = refl

read_nx_superblock-eq-ok_example :
    IsBlockSize 4096 × (1 ≤ 100) × All (λ (oid : ℕ). oid ≢ 0) (7 ∷ [])
read_nx_superblock-eq-ok_example =
    read_nx_superblock-eq-ok container (record { block_size = 4096; fs_oids = 7 ∷ [] }) superblock

-- A volume without a readable superblock is named after its number.
lists_volumes :
    (Apfs.detect_and_parse container).0
    ≡ ok (
        calculate_directory_size
          (add_child (new_directory (codes "/")) (new_directory (codes "volume_7"))))
unfolding Apfs.detect_and_parse Apfs.to_tree Apfs.add_volumes Apfs.name_or_number
    Apfs.read_volume_name Apfs.after_volume_magic Apfs.read_nx_superblock Apfs.read_field
    Apfs.check_magic Apfs.check_block_size Apfs.is_block_size Apfs.oid_loop Apfs.after_oid
    Apfs.eof_error isomage.Text.Decimal.decimal isomage.Reader.read_at isomage.Bytes.le64
    isomage.Bytes.le32 isomage.Bytes.le16 isomage.Bytes.slice isomage.Reader.seek_start
    isomage.Reader.read_exact
lists_volumes = refl
