-- ===== src/Iso9660/Cycle.antt =====
-- src/iso9660.rs: a directory that holds itself.
use isomage.Prelude.{
  ℕ, zero, suc, ◌+◌, ◌*◌, ◌^◌, ◌≤◌, ◌<◌, ◌≡◌, refl, ap, ◌∙◌, Bool, true, false, List, length, arith,
  ok, err, leb, ltb, ◌==◌,
}
use isomage.Text.{Str}
use isomage.Bytes.{byte, slice, length-slice}
use isomage.Reader.{Reader, M, lift, pure, map_error, read_at}
use isomage.Reader.Laws.{bind_ok, bind_err, read_at_inside}
use isomage.Tree.{TreeNode, new_directory, add_child}
use isomage.Iso9660.Record.{
  Error, io, no_fuel, VolumeDescriptorType, DirectoryRecord, parse_directory_record,
}
use isomage.Iso9660.Directory.{
  sector_size, is_dot, rename, add_record, after_parse, read_record, record_loop, parse_directory,
}

unfoldable pub directory_at : ℕ → ℕ → Str → DirectoryRecord
directory_at extent size name = record {
  extent_location = extent;
  data_length = size;
  is_directory = true;
  filename = name;
}

-- The extent of a directory lies in the image, and its first record is a directory with the same
-- extent.
pub record HoldsItself (image : List ℕ) (vd : VolumeDescriptorType) (rr : Bool) (extent size : ℕ)
    : Type 0 where
  pub near : extent * sector_size < 2 ^ 63
  pub within : extent * sector_size + size ≤ length image
  pub entry : DirectoryRecord
  pub name : Str
  pub long_enough : 0 < byte (slice image (extent * sector_size) (extent * sector_size + size)) 0
  pub fits : byte (slice image (extent * sector_size) (extent * sector_size + size)) 0 ≤ size
  pub parses :
      parse_directory_record (slice image (extent * sector_size) (extent * sector_size + size)) vd
      ≡ ok entry
  pub renames :
      rename vd rr (slice image (extent * sector_size) (extent * sector_size + size)) 0 entry
      ≡ ok (directory_at extent size name)
  pub named : is_dot name ≡ false

-- Where parsing a subdirectory does not end, neither does the loop that comes to its record first.
record_loop_first :
    (subdirectory : DirectoryRecord → TreeNode → M Error TreeNode) (fuel : ℕ)
    (vd : VolumeDescriptorType) (rr : Bool) (buffer : List ℕ) (parent : TreeNode) (r : Reader)
    (entry : DirectoryRecord) (extent size : ℕ) (name : Str)
    → 0 < byte buffer 0
    → byte buffer 0 ≤ length buffer
    → parse_directory_record buffer vd ≡ ok entry
    → rename vd rr buffer 0 entry ≡ ok (directory_at extent size name)
    → is_dot name ≡ false
    → ((dir_node : TreeNode)
        → (subdirectory (directory_at extent size name) dir_node r).0 ≡ err no_fuel)
    → (record_loop subdirectory (suc fuel) vd rr buffer 0 parent r).0 ≡ err no_fuel
unfolding record_loop read_record after_parse add_record directory_at
record_loop_first subdirectory fuel vd rr buffer parent r entry extent size name long_enough fits
      parses renames named h =
    let t₁ : leb (length buffer) 0 ≡ false = ground arith in
    let t₂ : (byte buffer 0 == 0) ≡ false = ground arith in
    let t₃ : ltb (length buffer) (0 + byte buffer 0) ≡ false = ground arith in
    let inside : (after_parse subdirectory vd rr buffer 0 parent (ok entry) r).0 ≡ err no_fuel =
      ap (λ x. x.0)
        (bind_ok (lift (rename vd rr buffer 0 entry))
          (λ renamed. add_record subdirectory renamed parent) r (ap (λ x. (x, r)) renames))
      ∙ rw named (
          bind_err (subdirectory (directory_at extent size name) (new_directory name))
            (λ dir_node. pure (add_child parent dir_node)) r (h (new_directory name))) in
    rw (t₁, t₂, t₃)
      (bind_err (read_record subdirectory vd rr buffer 0 parent)
        (λ parent'. record_loop subdirectory fuel vd rr buffer (0 + byte buffer 0) parent') r
        (ap (λ x. (after_parse subdirectory vd rr buffer 0 parent x r).0) parses ∙ inside))

-- A directory whose first record is a directory with the same extent is never parsed to the end,
-- however deep the recursion may go: the source recurs without a limit.
pub parse_directory-HoldsItself :
    (depth : ℕ) (vd : VolumeDescriptorType) (rr : Bool) (extent size : ℕ) (name : Str)
    (parent : TreeNode) (r : Reader)
    → HoldsItself r.image vd rr extent size
    → (parse_directory depth vd rr (directory_at extent size name) parent r).0 ≡ err no_fuel
unfolding parse_directory directory_at
parse_directory-HoldsItself zero vd rr extent size name parent r h = refl
parse_directory-HoldsItself (suc depth) vd rr extent size name parent r h =
    let start = extent * sector_size in
    let buffer = slice r.image start (start + size) in
    let r' : Reader = record r { pos = start + size } in
    let exact : length buffer ≡ size =
      length-slice r.image start (start + size) h.within ∙ omega arith in
    let some_size : (size == 0) ≡ false = ground (arith, h.fits, h.long_enough) in
    rw some_size (
      ap (λ x. x.0)
        (bind_ok (map_error io (read_at start size))
          (λ bytes.
            record_loop (parse_directory depth vd rr) (suc (length bytes)) vd rr bytes 0 parent)
          r (read_at_inside io start size r h.near h.within))
      ∙ record_loop_first (parse_directory depth vd rr) (length buffer) vd rr buffer parent r'
          h.entry extent size h.name h.long_enough (omega (arith, h.fits, exact)) h.parses h.renames
          h.named
          (λ dir_node. parse_directory-HoldsItself depth vd rr extent size h.name dir_node r' h))
