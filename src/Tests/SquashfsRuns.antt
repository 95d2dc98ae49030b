-- ===== src/Tests/SquashfsRuns.antt =====
-- src/formats/squashfs.rs on a listing of two entries, and on the inode of an empty file.
use isomage.Prelude.{ℕ, suc, ◌≡◌, refl, List, [], ◌∷◌, ◌++◌, err, false, arith, replicate}
use isomage.Text.{codes}
use isomage.Squashfs.Layout.{panic, parse_inode_body}
use isomage.Squashfs.Directory.{DirEntry, is_dot, list_entries}
use isomage.Squashfs.Listing.{Group, Stored, listing_bytes, list_entries-listing_bytes}

abbrev entries : List DirEntry
entries =
    record { name = codes "a"; inode_block = 0; inode_offset = 32 }
    ∷ record { name = codes "bc"; inode_block = 0; inode_offset = 64 }
    ∷ []

-- The entries with inode differences that count up, and a type.
abbrev stored : ℕ → ℕ → List DirEntry → List Stored
stored difference kind [] = []
stored difference kind (e ∷ es) =
    record { entry = e; inode_difference = difference; inode_type = kind }
    ∷ stored (suc difference) kind es

abbrev groups : List Group
groups = record { start_block = 0; inode_number = 5; entries = stored 1 2 entries } ∷ []

not_dots : (is_dot (codes "a") ≡ false) × (is_dot (codes "bc") ≡ false)
unfolding is_dot isomage.Text.str_eq
not_dots = (refl, refl)

list_entries-listing_bytes_example : list_entries (listing_bytes groups) ≡ entries
list_entries-listing_bytes_example = list_entries-listing_bytes groups (
  (
    omega arith,
    omega arith,
    omega arith,
    (
      (omega arith, omega arith, omega arith, not_dots.0, omega arith, refl),
      ((omega arith, omega arith, omega arith, not_dots.1, omega arith, refl), tt),
    ),
  ),
  tt,
)

-- A large file of 2 ^ 62 blocks: the size of the array wraps around, and passes the check.
wraps :
    parse_inode_body
      (replicate 15 0
        ++ (64 ∷ [])
        ++ replicate 12 0
        ++ (255 ∷ 255 ∷ 255 ∷ 255 ∷ [])
        ++ replicate 8 0)
      9
      1
    ≡ err panic
unfolding parse_inode_body isomage.Squashfs.Layout.parse_lreg isomage.Squashfs.Layout.regular
    isomage.Squashfs.Layout.block_sizes_of isomage.Squashfs.Layout.block_count_for
    isomage.Bytes.le32 isomage.Bytes.le64
wraps = refl
