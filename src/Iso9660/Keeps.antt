-- ===== src/Iso9660/Keeps.antt =====
-- src/iso9660.rs: the parser and the image that it reads.
use isomage.Prelude.{
  ℕ, zero, suc, ◌+◌, ◌*◌, ◌≡◌, refl, ◌∙◌, Bool, ◌||◌, not, List, length, drop, min, leb, ltb, ◌==◌,
  Result, ok, err,
}
use isomage.Text.{codes}
use isomage.Bytes.{byte}
use isomage.Reader.{Reader, M, ◌>>=◌, pure, lift, map_error, read_at}
use isomage.Reader.Keeps.{
  KeepsImage, >>=-KeepsImage, map_error-KeepsImage, read_at-KeepsImage, fail-KeepsImage,
  if-KeepsImage,
}
use isomage.Tree.{TreeNode, new_directory, add_child, calculate_directory_size}
use isomage.Iso9660.Record.{
  Error, io, no_fuel, VolumeDescriptorType, primary, joliet, DirectoryRecord,
  parse_directory_record,
}
use isomage.Iso9660.Directory.{
  sector_size, has_rock_ridge, detect_rock_ridge, is_dot, rename, add_record, after_parse,
  read_record, next_sector, record_loop, parse_directory,
}
use isomage.Iso9660.Scan.{vd_turn_outcome}
use isomage.Iso9660.{
  Found, Step, stop, again, vd_turn, after_turn, vd_loop, scan_descriptors, choose,
  wants_rock_ridge, parse_root, parse_iso9660,
}

module _ (subdirectory : DirectoryRecord → TreeNode → M Error TreeNode)
    (keeps : (entry : DirectoryRecord) (dir_node : TreeNode)
      → KeepsImage (subdirectory entry dir_node)) where
  add_record-KeepsImage :
      (entry : DirectoryRecord) (parent : TreeNode)
      → KeepsImage (add_record subdirectory entry parent)
  unfolding add_record
  add_record-KeepsImage entry parent =
      if-KeepsImage (is_dot entry.filename) _ _ (λ r. refl)
        (if-KeepsImage entry.is_directory _ _
          (>>=-KeepsImage (subdirectory entry (new_directory entry.filename))
            (λ dir_node. pure (add_child parent dir_node))
            (keeps entry (new_directory entry.filename)) (λ dir_node r. refl))
          (λ r. refl))

  after_parse-KeepsImage :
      (vd : VolumeDescriptorType) (rr : Bool) (buffer : List ℕ) (offset : ℕ) (parent : TreeNode)
      (x : Result Error DirectoryRecord)
      → KeepsImage (after_parse subdirectory vd rr buffer offset parent x)
  unfolding after_parse
  after_parse-KeepsImage vd rr buffer offset parent (err e) = (λ r. refl)
  after_parse-KeepsImage vd rr buffer offset parent (ok entry) =
      >>=-KeepsImage (lift (rename vd rr buffer offset entry))
        (λ renamed. add_record subdirectory renamed parent) (λ r. refl)
        (λ renamed. add_record-KeepsImage renamed parent)

  record_loop-KeepsImage :
      (fuel : ℕ) (vd : VolumeDescriptorType) (rr : Bool) (buffer : List ℕ) (offset : ℕ)
      (parent : TreeNode)
      → KeepsImage (record_loop subdirectory fuel vd rr buffer offset parent)
  unfolding record_loop read_record
  record_loop-KeepsImage zero vd rr buffer offset parent = fail-KeepsImage TreeNode no_fuel
  record_loop-KeepsImage (suc fuel) vd rr buffer offset parent =
      let here = byte buffer offset in
      if-KeepsImage (leb (length buffer) offset) _ _ (λ r. refl)
        (if-KeepsImage (here == 0) _ _
          (record_loop-KeepsImage fuel vd rr buffer (next_sector offset) parent)
          (if-KeepsImage (ltb (length buffer) (offset + here)) _ _ (λ r. refl)
            (>>=-KeepsImage (read_record subdirectory vd rr buffer offset parent)
              (λ parent'. record_loop subdirectory fuel vd rr buffer (offset + here) parent')
              (after_parse-KeepsImage vd rr buffer offset parent
                (parse_directory_record (drop offset buffer) vd))
              (λ parent'. record_loop-KeepsImage fuel vd rr buffer (offset + here) parent'))))

parse_directory-KeepsImage :
    (depth : ℕ) (vd : VolumeDescriptorType) (rr : Bool) (entry : DirectoryRecord)
    (parent : TreeNode)
    → KeepsImage (parse_directory depth vd rr entry parent)
unfolding parse_directory
parse_directory-KeepsImage zero vd rr entry parent = fail-KeepsImage TreeNode no_fuel
parse_directory-KeepsImage (suc depth) vd rr entry parent =
    if-KeepsImage (not entry.is_directory || (entry.data_length == 0)) _ _ (λ r. refl)
      (>>=-KeepsImage
        (map_error io (read_at (entry.extent_location * sector_size) entry.data_length))
        (λ buffer.
          record_loop (parse_directory depth vd rr) (suc (length buffer)) vd rr buffer 0 parent)
        (map_error-KeepsImage io _ (read_at-KeepsImage _ _))
        (λ buffer.
          record_loop-KeepsImage (parse_directory depth vd rr)
            (parse_directory-KeepsImage depth vd rr) (suc (length buffer)) vd rr buffer 0 parent))

wants_rock_ridge-KeepsImage :
    (vd : VolumeDescriptorType) (entry : DirectoryRecord) → KeepsImage (wants_rock_ridge vd entry)
unfolding wants_rock_ridge detect_rock_ridge
wants_rock_ridge-KeepsImage joliet entry = (λ r. refl)
wants_rock_ridge-KeepsImage primary entry =
    >>=-KeepsImage
      (map_error io (read_at (entry.extent_location * sector_size) (min entry.data_length 4096)))
      (λ buffer. pure (has_rock_ridge buffer)) (map_error-KeepsImage io _ (read_at-KeepsImage _ _))
      (λ buffer r. refl)

after_turn-image :
    (next : Found → M Error Found) (f : Found) (x : Result Error Step × Reader)
    → ((f' : Found) → KeepsImage (next f'))
    → (after_turn next f x).1.image ≡ x.1.image
unfolding after_turn
after_turn-image next f (err e, r) h = refl
after_turn-image next f (ok stop, r) h = refl
after_turn-image next f (ok (again f'), r) h = h f' r

vd_loop-KeepsImage : (fuel sector : ℕ) (f : Found) → KeepsImage (vd_loop fuel sector f)
unfolding vd_loop
vd_loop-KeepsImage zero sector f r = refl
vd_loop-KeepsImage (suc fuel) sector f r =
    after_turn-image (vd_loop fuel (suc sector)) f (vd_turn sector f r)
      (vd_loop-KeepsImage fuel (suc sector))
    ∙ (vd_turn_outcome sector f r).0

parse_root-KeepsImage :
    (depth : ℕ) (buffer : List ℕ) (vd : VolumeDescriptorType)
    → KeepsImage (parse_root depth buffer vd)
unfolding parse_root
parse_root-KeepsImage depth buffer vd =
    let sized : TreeNode → M Error TreeNode =
      λ root_node. pure (calculate_directory_size root_node) in
    let parsed : DirectoryRecord → Bool → M Error TreeNode =
      λ entry rr. parse_directory depth vd rr entry (new_directory (codes "/")) >>= sized in
    >>=-KeepsImage (lift (parse_directory_record (drop 156 buffer) vd))
      (λ entry. wants_rock_ridge vd entry >>= parsed entry) (λ r. refl)
      (λ entry.
        >>=-KeepsImage (wants_rock_ridge vd entry) (parsed entry)
          (wants_rock_ridge-KeepsImage vd entry)
          (λ rr.
            >>=-KeepsImage (parse_directory depth vd rr entry (new_directory (codes "/"))) sized
              (parse_directory-KeepsImage depth vd rr entry (new_directory (codes "/")))
              (λ root_node r. refl)))

pub parse_iso9660-KeepsImage : (depth : ℕ) → KeepsImage (parse_iso9660 depth)
unfolding parse_iso9660 scan_descriptors
parse_iso9660-KeepsImage depth =
    let rooted : List ℕ × VolumeDescriptorType → M Error TreeNode =
      λ chosen. parse_root depth chosen.0 chosen.1 in
    >>=-KeepsImage scan_descriptors (λ found. lift (choose found) >>= rooted)
      (λ r. vd_loop-KeepsImage _ _ _ r)
      (λ found.
        >>=-KeepsImage (lift (choose found)) rooted (λ r. refl)
          (λ chosen. parse_root-KeepsImage depth chosen.0 chosen.1))
