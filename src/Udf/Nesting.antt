-- ===== src/Udf/Nesting.antt =====
-- src/udf.rs, `parse_directory`: how deep directories are nested in one another.
use isomage.Prelude.{ℕ, suc, ◌+◌, ◌/◌, ◌%◌, ◌≤◌, ◌≡◌, List, length, ok}
use isomage.Bytes.{byte, le16}
use isomage.Reader.{Reader, M, ◌>>=◌}
use isomage.Tree.{TreeNode}
use isomage.Udf.Allocation.{Error, LongAd, FileAllocation}
use isomage.Udf.Directory.{get_file_info, directory_data, fid_loop, parse_directory}
use isomage.Udf.Identifiers.{icb_at}

-- `depth` directories are nested in one another, the outermost at `icb`: each can be read, and in its
-- data an identifier that is marked as a directory names the next, and in that of the last one more.
pub data IsNested (start : ℕ) (image : List ℕ) : ℕ → LongAd → Type 0 where
  last : {icb : LongAd} → IsNested start image 0 icb
  within :
      {depth : ℕ} {icb : LongAd} (alloc : FileAllocation) (buffer : List ℕ) (offset : ℕ)
      (r r' : Reader)
      → r.image ≡ image
      → r'.image ≡ image
      → (get_file_info start icb r).0 ≡ ok alloc
      → (directory_data start alloc r').0 ≡ ok buffer
      → offset + 40 ≤ length buffer
      → le16 buffer offset ≡ 257
      → byte buffer (offset + 18) / 2 % 2 ≡ 1
      → IsNested start image depth (icb_at buffer offset)
      → IsNested start image (suc depth) icb

-- The identifiers of a directory that has been read.
abbrev identifiers : ℕ → ℕ → TreeNode → List ℕ → M Error TreeNode
identifiers depth start parent buffer =
    fid_loop (parse_directory depth start) (suc (length buffer)) start buffer 0 parent

abbrev contents : ℕ → ℕ → TreeNode → FileAllocation → M Error TreeNode
contents depth start parent alloc = directory_data start alloc >>= identifiers depth start parent
