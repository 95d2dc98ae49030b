-- ===== src/Tests/ExtRuns.antt =====
-- src/formats/ext.rs on a file of two direct blocks, and on one record of a directory.
use isomage.Prelude.{◌≡◌, refl, [], ◌∷◌, ◌++◌, some, ok, arith, replicate}
use isomage.Text.{codes}
use isomage.Reader.{Reader}
use isomage.Word.{add64, mul64}
use isomage.Ext.Layout.{Superblock, Inode, block_size}
use isomage.Ext.Blocks.{collect_classical_blocks}
use isomage.Ext.Directory.{DirEntry, scan_dir_block, run, classical_location}
use isomage.Ext.Location.{classical_location-collect_classical_blocks}

abbrev sb : Superblock
sb = record {
  inodes_per_group = 8;
  first_data_block = 1;
  log_block_size = 0;
  inode_size = 128;
  feature_incompat = 0;
  desc_size = 32;
}

abbrev inode : Inode
inode = record { mode = 0x81a4; size = 1500; flags = 0; i_block = 5 ∷ 6 ∷ replicate 13 0 }

abbrev reader : Reader
reader = record { image = []; pos = 0 }

located : classical_location sb 100 inode ≡ some 5220
unfolding classical_location isomage.Ext.Directory.is_run block_size
located = refl

-- A record of inode 12 that fills a block of 16 bytes, and then one that is deleted.
scans :
    scan_dir_block
      (12 ∷ 0 ∷ 0 ∷ 0 ∷ 16 ∷ 0 ∷ 1 ∷ 1 ∷ (codes "f" ++ replicate 7 0)
        ++ (0 ∷ 0 ∷ 0 ∷ 0 ∷ 8 ∷ 0 ∷ 0 ∷ 0 ∷ []))
      []
    ≡ ok (record { inode = 12; name = codes "f" } ∷ [])
unfolding scan_dir_block isomage.Ext.Directory.scan_loop isomage.Ext.Directory.record_entry
    isomage.Bytes.le32 isomage.Bytes.le16 isomage.Bytes.slice isomage.Text.Utf8.from_utf8_lossy
    isomage.Text.str_eq
scans = refl

classical_location-collect_classical_blocks_example :
    (5220 ≡ add64 100 (mul64 5 (block_size sb)))
    × (collect_classical_blocks sb 100 inode 1500 reader ≡ (ok (run 5 2), reader))
unfolding block_size
classical_location-collect_classical_blocks_example =
    classical_location-collect_classical_blocks sb 100 inode 5220 reader refl (omega arith) located
