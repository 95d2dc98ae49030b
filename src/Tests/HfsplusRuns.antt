-- ===== src/Tests/HfsplusRuns.antt =====
-- src/formats/hfsplus.rs on a leaf of one folder, and on catalogs of two folders.
use isomage.Prelude.{ℕ, ◌≡◌, ◌≤◌, ◌↔◌, refl, List, [], ◌∷◌, ◌++◌, some, ok, arith}
use mathlib.Core.List.{reverse}
use isomage.Text.{codes}
use isomage.Reader.{Reader}
use isomage.Tree.{new_directory, add_child, calculate_directory_size}
use isomage.Hfsplus.{leaf_loop}
use isomage.Hfsplus.Catalog.{CatalogRecord, folder, file, too_deep}
use isomage.Hfsplus.Build.{build_tree}
use isomage.Hfsplus.Build.Iteration.{build_tree-nested}
use isomage.Hfsplus.Build.Sort.{IsSorted, build_tree-IsSorted}
use isomage.Hfsplus.Leaves.{IsChain, leaf_loop_iff}

-- A node of 40 bytes: its descriptor, the record of the folder `d`, and the table of offsets. The
-- first byte of the link is the argument.
abbrev leaf : ℕ → List ℕ
leaf link =
    (link ∷ 0 ∷ 0 ∷ 0 ∷ 0 ∷ 0 ∷ 0 ∷ 0 ∷ 255 ∷ 1 ∷ 0 ∷ 1 ∷ 0 ∷ 0 ∷ [])
    ++ (0 ∷ 8 ∷ 0 ∷ 0 ∷ 0 ∷ 2 ∷ 0 ∷ 1 ∷ 0 ∷ b'd' ∷ [])
    ++ (0 ∷ 1 ∷ 0 ∷ 0 ∷ 0 ∷ 0 ∷ 0 ∷ 0 ∷ 0 ∷ 0 ∷ 0 ∷ 16 ∷ 0 ∷ 0 ∷ 0 ∷ 14 ∷ [])

abbrev found : List CatalogRecord
found = folder 2 (codes "d") 16 ∷ []

reads_leaf : (leaf_loop 512 0 40 1 0 [] (record { image = leaf 0; pos = 0 })).0 ≡ ok found
unfolding leaf_loop isomage.Hfsplus.read_field isomage.Hfsplus.leaf_records
    isomage.Hfsplus.Catalog.parse_leaf_node_records isomage.Hfsplus.Catalog.nth_record
    isomage.Hfsplus.Catalog.record_at isomage.Hfsplus.Catalog.record_of_data
    isomage.Hfsplus.Catalog.push_record isomage.Hfsplus.Catalog.decode_utf16_be isomage.Bytes.be16
    isomage.Bytes.be32 isomage.Bytes.slice isomage.Reader.seek_start isomage.Reader.read_exact
reads_leaf = refl

leaf_loop_iff_example :
    ((leaf_loop 512 0 40 1 0 [] (record { image = leaf 0; pos = 0 })).0 ≡ ok found)
    ↔ ((n : ℕ) × (n ≤ 1) × IsChain 512 0 40 (leaf 0) n 0 found)
leaf_loop_iff_example = leaf_loop_iff 512 0 40 (leaf 0) 1 0 0 found

-- The outer of two folders has been attached before.
abbrev two_folders : List CatalogRecord
two_folders = folder 2 (codes "a") 16 ∷ folder 16 (codes "b") 20 ∷ []

build_tree-nested_example :
    (build_tree (λ pairs. pairs) two_folders
      ≡ calculate_directory_size
          (add_child (new_directory (codes "/")) (new_directory (codes "a"))))
    × (build_tree reverse two_folders
        ≡ calculate_directory_size (
            add_child
              (new_directory (codes "/"))
              (add_child (new_directory (codes "a")) (new_directory (codes "b")))))
build_tree-nested_example =
    build_tree-nested (codes "a") (codes "b") 16 20 (omega arith) (omega arith) (omega arith)

build_tree-IsSorted_example : IsSorted (
    build_tree (λ pairs. pairs) (folder 2 (codes "z") 16 ∷ file 2 (codes "a") 17 3 (some 512) ∷ []))
build_tree-IsSorted_example =
    build_tree-IsSorted (λ pairs. pairs)
      (folder 2 (codes "z") 16 ∷ file 2 (codes "a") 17 3 (some 512) ∷ [])
