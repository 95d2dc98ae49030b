-- ===== src/Lib.antt =====
-- isomage reads disk images and archives and returns their contents as a tree of named nodes with
-- byte ranges. This library models the tree, the CRC, the parsers of eighteen formats, and the
-- functions that copy files out of a tree.
--
-- The parts and the files that model them:
--  * src/tree.rs: Tree. `TreeNode` with its vector of children is a mutual pair of data types;
--    `find_node`, `add_child` and `calculate_directory_size` are functions of the same names.
--    Tree/Find, Tree/Size and Tree/Build hold the lemmas on paths, on sizes, and on trees that are
--    made by adding children.
--  * src/simd/crc.rs: Crc, the table and the loop of `crc16_ccitt`.
--  * src/formats/mbr.rs: Mbr (`parse_sector`, `to_tree`), with Mbr/Table.
--  * src/formats/gpt.rs: Gpt (`parse_header_sector`, `read_entries`, `to_tree`), with
--    Gpt/Entries and Gpt/Array on the array and Gpt/Names on the tree.
--  * src/formats/raw.rs: Raw, which tries Gpt, then Mbr, and else makes one blob.
--  * src/formats/qcow2.rs: Qcow2 (`read_header`, `detect`, `detect_and_parse`), with Qcow2/Header.
--  * src/formats/vhd.rs: Vhd (`verify_checksum`, `read_footer`, `parse_fixed`, `parse_dynamic`),
--    with Vhd/Checksum and Vhd/Detect.
--  * src/formats/fat.rs: Fat/Bpb is the boot sector (`read_bpb`), Fat/Chain the table
--    (`cluster_abs`, `fat_entry`, `cluster_chain`), Fat/Dir the directories (`read_dir_bytes`,
--    `parse_dir_entries`), Fat/Build the tree (`build_tree`, `detect_and_parse`). Fat/LongNames,
--    Fat/Walk, Fat/Extent, Fat/Fat12 and Fat/Geometry hold the theorems.
--  * src/formats/tar.rs: Tar is the header block in both directions (`parse_octal`, `entry_name`,
--    `parse_pax`, `write_entry`), Tar/Scan the loop of `scan_entries`, Tar/Build `build_tree`.
--    Tar/Octal, Tar/Progress and Tar/Header hold the theorems.
--  * src/iso9660.rs: Iso9660 is the scan of the volume descriptors and the entry point,
--    Iso9660/Record the records and the Rock Ridge names (`parse_directory_record`,
--    `extract_rock_ridge_name`), Iso9660/Directory the tree (`detect_rock_ridge`,
--    `parse_directory`). Iso9660/Scan, Iso9660/Names, Iso9660/RockRidge and Iso9660/Cycle hold the
--    theorems.
--  * src/udf.rs: Udf/Allocation is the file entry (`get_file_allocation`), Udf/Directory the
--    directories (`parse_directory`, `get_file_info`, `parse_udf_name`), Udf/Sequence the volume
--    descriptors and partition maps, and Udf the recognition, the anchor, the file set and the
--    entry point. Udf/Loops, Udf/Identifiers, Udf/Nesting and Udf/Contents hold the theorems.
--  * src/formats/ext.rs: Ext/Layout is the superblock, the group descriptors and the inodes
--    (`read_superblock`, `read_inode`), Ext/Blocks the extent trees and block pointers
--    (`collect_extents`, `collect_classical_blocks`), Ext/Directory the directory blocks and the
--    location of a file (`scan_dir_block`, `single_run_location`), Ext the tree (`build_tree`,
--    `detect_and_parse`). Ext/Location holds the theorem.
--  * src/formats/zip.rs: Zip/Central is the central directory in both directions
--    (`parse_central_directory`, `parse_zip64_extra`, the records of `write_stored`), by what is
--    left of a buffer where the source keeps a position; Zip is the rest of the reader and the
--    writer (`find_eocd`, `build_tree`, `crc32`, `write_stored`). Zip/RoundTrip holds the theorem.
--  * src/formats/apfs.rs: Apfs (`detect`, `read_nx_superblock`, `read_volume_name`,
--    `detect_and_parse`). Apfs/Superblock holds the theorem.
--  * src/formats/vmdk.rs: Vmdk (`read_header`, `detect`, `detect_and_parse`).
--  * src/formats/wim.rs: Wim (`read_header`, `detect`, `detect_and_parse`) with Wim/Xml
--    (`parse_xml`), which keeps the text that is left where the source keeps a position. Wim/Sizes
--    holds the theorem.
--  * src/formats/hfsplus.rs: Hfsplus is the volume header and the walk over the leaves of the
--    catalog (`parse_volume_header`, `read_catalog_leaf_records`), Hfsplus/Catalog the records
--    (`parse_leaf_node_records`), Hfsplus/Build the tree (`build_tree`, `cnid_path`).
--    Hfsplus/Leaves holds the theorem on the walk; Build/Attach, Build/Iteration and Build/Sort in
--    Hfsplus hold those on the tree.
--  * src/formats/dmg.rs: Dmg (`read_koly`, `detect`, `detect_and_parse`), with Dmg/Plist
--    (`parse_plist_xml`) by the text that is left. Dmg/Ends is also about the metadata of WIM.
--  * src/formats/squashfs.rs: Squashfs/Layout is the superblock and the inodes
--    (`parse_inode_body`), Squashfs/Directory the metadata blocks and the listings
--    (`seek_to_metadata_block`, `parse_directory`), Squashfs the tree (`build_tree`).
--    Squashfs/Listing holds the theorem.
--  * src/formats/ntfs.rs: Ntfs/Record is the boot sector and the records (`apply_fixup`,
--    `read_mft_record`), Ntfs/Attributes the attributes and run lists (`parse_attributes`,
--    `decode_runlist`), Ntfs/Info what is taken from a record (`extract_record_info`), Ntfs the
--    table of files and the tree (`build_tree_recursive`, `detect_and_parse`). Ntfs/Fixup,
--    Ntfs/Runs and Ntfs/Walk hold the theorems.
--  * src/lib.rs: Detect is `detect_and_parse_filesystem`, with Detect/Choice; Detect/Cursor and
--    Detect/Volumes are about the `detect` of every format. Cat is `cat_node`, to a writer that is
--    a function; Cat/Bytes and Cat/Errors hold the theorems. Extract is `extract_node` with
--    `safe_join` and `validate_entry_name`; Extract/Paths, Extract/Asks and Extract/Inside lead to
--    its theorem. The file system is the list of the operations asked of it, a parameter that says
--    which ones it refuses, and a parameter for `canonicalize`; a path is the list of its
--    components.
--  * src/image_io/mmap.rs: Mmap (`read`, `seek`, `read_at`), with Mmap/Refines.
-- Prelude, Text, Bytes, Bits and Word hold what the parsers use of the standard library: results,
-- strings, slices, bit operations and machine integers. Tests holds runs and examples.
--
-- How the parts interact: every parser reads through Reader, the `Read + Seek` of the source over
-- an image that is a list of bytes, with the cursor passed explicitly. It returns a tree built by
-- the constructors of Tree, which Tree's `find_node` then searches.
--
-- Numbers are natural numbers. Masks and shifts are remainders and quotients by powers of two, or bit operations on natural numbers; an
-- unchecked sum or product that can overflow is taken modulo 2 ^ 64, as in a release build, and
-- saturating operations saturate. A character is its Unicode scalar value, and a string is a list
-- of characters; the bytes of names that the TAR writer takes are given as bytes. A constructor
-- `panic` of an error type stands for a panic, such as an index out of range.
--
-- Fuel: `cluster_chain` has total_clusters + 2 steps, and `scan_entries` of TAR one step for each
-- block of the image and one more. A chain pushes at most total_clusters + 1 clusters before it
-- stops, and a turn of the scan takes at least one block. The FAT tree is built on the source's
-- own limit of 33 levels. `attach` of TAR has one level more than there are paths, and each level
-- takes a path out of the map. The scan of the volume descriptors has one step for each sector of
-- the image and one more, the loops over records and system use entries one for each byte and one
-- more. The recursions of ISO 9660 and UDF into subdirectories have no limit in the source, so
-- their depth is an argument. The loops of UDF take one step for each byte, the loop over the
-- metadata of WIM and over the plist of DMG one for each character, and one more; those of ZIP
-- likewise. The listings of squashfs and the attributes and run lists of NTFS have one for each
-- byte, and a turn takes at least one. `cat_node` and `extract_file_at` have one step for each
-- chunk, and two more; `no_fuel` in an error type stands for a run that is not covered. The trees
-- of ext and NTFS are built on the source's own limit of 33 levels, those of squashfs on 65, and
-- extent trees on 5. The walk over the catalog of HFS+ and the pass over the table of NTFS have
-- the limits that the source has. `decimal` prints 20 digits, the most that a `u64` has.
--
-- Not modelled: I/O failures other than the end of the image and a seek to a negative offset,
-- failing allocations, the texts of error messages, and the formats and parts that no file above
-- is about, such as the opening and mapping of a file. A hash map is an association list: the
-- paths of the archives are sorted before any order of them is used, and the order in which the
-- map of the folders of HFS+ is iterated is an argument.
pub mod Prelude
pub mod Text
pub mod Bytes
pub mod Bits
pub mod Word
pub mod Reader
pub mod Tree
pub mod Crc
pub mod Mbr
pub mod Gpt
pub mod Raw
pub mod Qcow2
pub mod Vhd
pub mod Fat
pub mod Tar
pub mod Mmap
pub mod Iso9660
pub mod Cat
pub mod Extract
pub mod Vmdk
pub mod Wim
pub mod Ext
pub mod Zip
pub mod Apfs
pub mod Hfsplus
pub mod Dmg
pub mod Squashfs
pub mod Ntfs
pub mod Udf
pub mod Detect
pub mod Tests
