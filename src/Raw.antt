-- ===== src/Raw.antt =====
-- src/formats/raw.rs: a raw image is tried as GPT, then as MBR, and else is one anonymous blob.
use isomage.Prelude.{ℕ, ◌==◌, if◌then◌else◌, length, Result, ok, err}
use isomage.Text.{codes}
use isomage.Reader.{M, IoError, lift, fail}
use isomage.Tree.{
  TreeNode, new_file, new_file_with_location, new_directory, add_child, calculate_directory_size,
}
use isomage.Gpt
use isomage.Mbr

pub data Error : Type 0 where
  no_partition_table : Error
  mbr : Mbr.Error → Error
  gpt : Gpt.Error → Error
  io : IoError → Error

-- The tree of an image of `size` bytes with no partition table.
unfoldable pub blob : ℕ → TreeNode
unfolding new_file new_file_with_location new_directory add_child calculate_directory_size
blob size =
    let child =
      if size == 0
      then new_file (codes "image") 0
      else new_file_with_location (codes "image") size 0 size in
    calculate_directory_size (add_child (new_directory (codes "/")) child)

-- `file.metadata()` gives the length of the image.
unfoldable pub whole_image : M Error TreeNode
whole_image r = (ok (blob (length r.image)), r)

-- The match on what the MBR reader returned.
unfoldable pub after_mbr : Result Mbr.Error TreeNode → M Error TreeNode
after_mbr (ok tree) = lift (ok tree)
after_mbr (err Mbr.bad_signature) = whole_image
after_mbr (err Mbr.too_short) = whole_image
after_mbr (err Mbr.protective_mbr) = fail (mbr Mbr.protective_mbr)
after_mbr (err (Mbr.io e)) = fail (mbr (Mbr.io e))

unfoldable pub try_mbr : M Error TreeNode
try_mbr r = let (res, r') = Mbr.detect_and_parse r in after_mbr res r'

-- The match on what the GPT reader returned.
unfoldable pub after_gpt : Result Gpt.Error TreeNode → M Error TreeNode
after_gpt (ok tree) = lift (ok tree)
after_gpt (err Gpt.bad_signature) = try_mbr
after_gpt (err Gpt.too_short) = try_mbr
after_gpt (err (Gpt.unsupported_entry_size n)) = fail (gpt (Gpt.unsupported_entry_size n))
after_gpt (err (Gpt.io e)) = fail (gpt (Gpt.io e))

unfoldable pub detect_and_parse : M Error TreeNode
detect_and_parse r = let (res, r') = Gpt.detect_and_parse r in after_gpt res r'
