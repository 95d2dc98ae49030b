-- ===== src/Fat.antt =====
-- src/formats/fat.rs: FAT12, FAT16 and FAT32 file systems.
pub mod Bpb
pub mod Chain
pub mod Dir
pub mod Build
pub mod Walk
pub mod Extent
pub mod Fat12
pub mod Geometry
pub mod LongNames
