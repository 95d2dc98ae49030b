-- ===== src/Tests/UdfRuns.antt =====
-- src/udf.rs on a file of two extents, on single names and maps, and on a directory in itself.
use isomage.Prelude.{ℕ, ◌≡◌, refl, false, List, [], ◌∷◌, ◌++◌, none, some, ok, err, replicate}
use isomage.Text.{codes}
use isomage.Bytes.{slice}
use isomage.Reader.{Reader, pure}
use isomage.Tree.{TreeNode, node, nil}
use isomage.Udf.Allocation.{panic, ExtentAd, LongAd, FileAllocation}
use isomage.Udf.Directory.{parse_udf_name, file_node, read_extents}
use isomage.Udf.Sequence.{map_loop}
use isomage.Udf.{anchor_candidates}
use isomage.Udf.Contents.{cat_node-read_extents}
use isomage.Cat.{cat_node}
use isomage.Cat.Bytes.{vec_writer}

abbrev image : Reader
image = record { image = replicate 2048 7 ++ codes "end"; pos = 3 }

abbrev first : ExtentAd
first = record { len = 2048; location = 0 }

abbrev second : ExtentAd
second = record { len = 3; location = 1 }

abbrev two_extents : FileAllocation
two_extents = record { extents = first ∷ second ∷ []; total_length = 2051; inline_data = none }

names_eight_bits : parse_udf_name (8 ∷ codes "ab") ≡ codes "ab"
unfolding parse_udf_name isomage.Text.Utf8.from_utf8_lossy
names_eight_bits = refl

-- Candidates of an image of 34 sectors.
candidates : anchor_candidates 34 ≡ 256 ∷ 34 ∷ 32 ∷ 33 ∷ []
unfolding anchor_candidates isomage.Udf.fallback isomage.Udf.contains
candidates = refl

-- A metadata map 18 bytes before the end of a sector.
map_behind_end : map_loop 1 (replicate 2030 0 ++ (2 ∷ 64 ∷ replicate 16 0)) 2030 none ≡ err panic
unfolding map_loop isomage.Udf.Sequence.partition_map isomage.Udf.Sequence.metadata_map
map_behind_end = refl

-- A second extent that is elsewhere leaves no trace in the node but the length.
scattered :
    file_node 0
      (codes "f")
      (record two_extents { extents = first ∷ record second { location = 9 } ∷ [] })
    ≡ node (codes "f") 2051 false nil (some 0) (some 2051)
unfolding file_node isomage.Tree.new_file_with_location
scattered = refl

reads_both :
    read_extents 0 (first ∷ second ∷ []) image ≡ (ok image.image, record image { pos = 2051 })
unfolding read_extents isomage.Reader.read_at isomage.Reader.read_exact slice
reads_both = refl

cat_node-read_extents_example :
    ((cat_node vec_writer (file_node 0 (codes "f") two_extents) image []).0 ≡ ok tt)
    × ((cat_node vec_writer (file_node 0 (codes "f") two_extents) image []).2 ≡ image.image)
cat_node-read_extents_example =
    cat_node-read_extents 0 (codes "f") two_extents first (second ∷ []) image
      (record image { pos = 2051 }) image.image [] refl refl (refl, tt) reads_both

-- A sector with a file entry whose data is one identifier of 40 bytes, of the directory `a` at the
-- same sector.
abbrev directory : List ℕ
directory =
    (5 ∷ 1 ∷ [])
    ++ replicate 16 0
    ++ (3 ∷ [])
    ++ replicate 153 0
    ++ (40 ∷ 0 ∷ 0 ∷ 0 ∷ [])
    ++ (1 ∷ 1 ∷ [])
    ++ replicate 16 0
    ++ (2 ∷ 2 ∷ [])
    ++ replicate 18 0
    ++ (8 ∷ codes "a")
    ++ replicate 1832 0

abbrev itself : LongAd
itself = record { len = 0; location = 0; partition = 0 }
