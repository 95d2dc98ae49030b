-- ===== src/Udf/Identifiers.antt =====
-- src/udf.rs: the loop over the file identifiers of a directory.
use isomage.Prelude.{
  ℕ, zero, suc, ◌+◌, ◌/◌, ◌%◌, ◌≤◌, ◌<◌, ◌≡◌, ◌≢◌, refl, ap, ◌∙◌, Bool, true, false, not, List,
  length, ltb, leb, ◌==◌, arith, Result, ok, err, if◌then◌else◌,
}
use isomage.Text.{Str}
use isomage.Bytes.{byte, le16, slice}
use isomage.Reader.{Reader, M, ◌>>=◌, pure, lift, map_error, read_at}
use isomage.Reader.Keeps.{
  KeepsImage, >>=-KeepsImage, map_error-KeepsImage, read_at-KeepsImage, fail-KeepsImage,
  if-KeepsImage,
}
use isomage.Tree.{TreeNode, new_directory}
use isomage.Udf.Allocation.{
  Error, io, no_fuel, LongAd, FileAllocation, read_long_ad, get_file_allocation,
}
use isomage.Udf.Directory.{
  after_info, after_subdirectory, add_entry, fid_name, fid_padded, fid_loop, get_file_info,
}

if-cases :
    {C : Type 0} (b : Bool) (m m' : M Error TreeNode) (r : Reader)
    → ((if b then m else m') r).0 ≡ err no_fuel
    → (b ≡ true → (m r).0 ≡ err no_fuel → C)
    → (b ≡ false → (m' r).0 ≡ err no_fuel → C)
    → C
if-cases true m m' r out h h' = h refl out
if-cases false m m' r out h h' = h' refl out

pub bind-cases :
    {A B C : Type 0} (m : M Error A) (f : A → M Error B) (r : Reader)
    → ((m >>= f) r).0 ≡ err no_fuel
    → ((m r).0 ≡ err no_fuel → C)
    → ((a : A) → (m r).0 ≡ ok a → (f a (m r).1).0 ≡ err no_fuel → C)
    → C
bind-cases {A} {B} {C} m f r out h k = after (m r).0 (m r).1 out h k
  where
    after :
        (res : Result Error A) (r' : Reader)
        → (let x : Result Error B × Reader = elim res [ ok t ↦ f t r' | err e ↦ (err e, r') ] in
            x.0)
          ≡ err no_fuel
        → (res ≡ err no_fuel → C)
        → ((a : A) → res ≡ ok a → (f a r').0 ≡ err no_fuel → C)
        → C
    after (ok t) r' out h k = k t refl out
    after (err e) r' out h k =
        h (ap (λ (x : Result Error B). elim x [ ok b ↦ err e | err e' ↦ err e' ]) out)

-- The entry at which the identifier at `offset` says that its file or directory is.
abbrev pub icb_at : List ℕ → ℕ → LongAd
icb_at buffer offset = read_long_ad (slice buffer (offset + 20) (offset + 36))

-- The identifier at `offset` is in the buffer, is marked as a directory, and names one on which
-- `subdirectory` runs out with a reader of the image.
pub record RunsOutAt (subdirectory : LongAd → TreeNode → M Error TreeNode) (image : List ℕ)
    (buffer : List ℕ) (offset : ℕ) : Type 0 where
  pub inside : offset + 40 ≤ length buffer
  pub identifier : le16 buffer offset ≡ 257
  pub is_directory : byte buffer (offset + 18) / 2 % 2 ≡ 1
  pub dir_node : TreeNode
  pub reader : Reader
  pub same_image : reader.image ≡ image
  pub runs_out : (subdirectory (icb_at buffer offset) dir_node reader).0 ≡ err no_fuel

after_info-ne :
    (start : ℕ) (name : Str) (parent : TreeNode) (x : Result Error FileAllocation × Reader)
    → (after_info start name parent x).0 ≢ err no_fuel
unfolding after_info
after_info-ne start name parent (ok alloc, r) e = cc
after_info-ne start name parent (err e', r) e = cc

after_subdirectory-no_fuel :
    (parent dir_node : TreeNode) (x : Result Error TreeNode × Reader)
    → (after_subdirectory parent dir_node x).0 ≡ err no_fuel
    → x.0 ≡ err no_fuel
unfolding after_subdirectory
after_subdirectory-no_fuel parent dir_node (ok parsed, r) out = cc
after_subdirectory-no_fuel parent dir_node (err no_fuel, r) out = refl
after_subdirectory-no_fuel parent dir_node (err other, r) out = cc

pub get_file_info-KeepsImage : (start : ℕ) (icb : LongAd) → KeepsImage (get_file_info start icb)
unfolding get_file_info
get_file_info-KeepsImage start icb =
    >>=-KeepsImage (map_error io (read_at _ _)) (λ fe_buffer. lift (get_file_allocation fe_buffer))
      (map_error-KeepsImage io (read_at _ _) (read_at-KeepsImage _ _)) (λ fe_buffer r. refl)

after_info-image :
    (start : ℕ) (name : Str) (parent : TreeNode) (x : Result Error FileAllocation × Reader)
    → (after_info start name parent x).1.image ≡ x.1.image
unfolding after_info
after_info-image start name parent (ok alloc, r) = refl
after_info-image start name parent (err e, r) = refl

after_subdirectory-image :
    (parent dir_node : TreeNode) (x : Result Error TreeNode × Reader)
    → (after_subdirectory parent dir_node x).1.image ≡ x.1.image
unfolding after_subdirectory
after_subdirectory-image parent dir_node (ok parsed, r) = refl
after_subdirectory-image parent dir_node (err e, r) = refl

module _ (subdirectory : LongAd → TreeNode → M Error TreeNode)
    (keeps : (icb : LongAd) (dir_node : TreeNode) → KeepsImage (subdirectory icb dir_node))
    (start : ℕ) where
  add_entry-KeepsImage :
      (icb : LongAd) (flags : ℕ) (name : Str) (parent : TreeNode)
      → KeepsImage (add_entry subdirectory start icb flags name parent)
  unfolding add_entry
  add_entry-KeepsImage icb flags name parent r =
      let d =
        after_subdirectory-image parent (new_directory name)
          (subdirectory icb (new_directory name) r)
        ∙ keeps icb (new_directory name) r in
      let f =
        after_info-image start name parent (get_file_info start icb r)
        ∙ get_file_info-KeepsImage start icb r in
      ground (arith, d, f)

  pub fid_loop-KeepsImage :
      (fuel : ℕ) (buffer : List ℕ) (offset : ℕ) (parent : TreeNode)
      → KeepsImage (fid_loop subdirectory fuel start buffer offset parent)
  unfolding fid_loop
  fid_loop-KeepsImage zero buffer offset parent = fail-KeepsImage TreeNode no_fuel
  fid_loop-KeepsImage (suc fuel) buffer offset parent =
      let over : KeepsImage {E = Error} (pure parent) = λ r. refl in
      if-KeepsImage (leb (length buffer) offset) _ _ over (
        if-KeepsImage (ltb (length buffer) (offset + 40)) _ _ over (
          if-KeepsImage (le16 buffer offset == 0) _ _
            (fid_loop-KeepsImage fuel buffer (offset + 4) parent)
            (if-KeepsImage (not (le16 buffer offset == 257)) _ _ over (
              if-KeepsImage _ _ _ over (
                >>=-KeepsImage
                  (add_entry subdirectory start (icb_at buffer offset) (byte buffer (offset + 18))
                    (fid_name buffer offset) parent)
                  (λ parent'.
                    fid_loop subdirectory fuel start buffer (offset + fid_padded buffer offset)
                      parent')
                  (add_entry-KeepsImage (icb_at buffer offset) (byte buffer (offset + 18))
                    (fid_name buffer offset) parent)
                  (λ parent'.
                    fid_loop-KeepsImage fuel buffer (offset + fid_padded buffer offset)
                      parent'))))))

  add_entry-no_fuel :
      (icb : LongAd) (flags : ℕ) (name : Str) (parent : TreeNode) (r : Reader)
      → (add_entry subdirectory start icb flags name parent r).0 ≡ err no_fuel
      → (flags / 2 % 2 ≡ 1) × ((subdirectory icb (new_directory name) r).0 ≡ err no_fuel)
  unfolding add_entry
  add_entry-no_fuel icb flags name parent r out =
      let d =
        after_subdirectory-no_fuel parent (new_directory name)
          (subdirectory icb (new_directory name) r) in
      let f = after_info-ne start name parent (get_file_info start icb r) in
      (ground (arith, out, f), ground (arith, out, d, f))

  fid_loop-no_fuel :
      (fuel : ℕ) (image buffer : List ℕ) (offset : ℕ) (parent : TreeNode) (r : Reader)
      → r.image ≡ image
      → 1 ≤ fuel
      → length buffer < fuel + offset
      → (fid_loop subdirectory fuel start buffer offset parent r).0 ≡ err no_fuel
      → (o : ℕ) × RunsOutAt subdirectory image buffer o
  unfolding fid_loop fid_padded
  fid_loop-no_fuel zero image buffer offset parent r same some_fuel h out = absurd (omega arith)
  fid_loop-no_fuel (suc fuel) image buffer offset parent r same some_fuel h out =
      if-cases (leb (length buffer) offset) _ _ r out (λ _ e. cc)
        λ inside out₁.
          if-cases (ltb (length buffer) (offset + 40)) _ _ r out₁ (λ _ e. cc)
            λ room out₂.
              if-cases (le16 buffer offset == 0) _ _ r out₂
                (λ _ e.
                  fid_loop-no_fuel fuel image buffer (offset + 4) parent r same (ground arith)
                    (omega arith) e)
                λ _ out₃.
                  if-cases (not (le16 buffer offset == 257)) _ _ r out₃ (λ _ e. cc)
                    λ tagged out₄.
                      if-cases
                        (ltb (length buffer)
                          (offset + 38 + le16 buffer (offset + 36) + byte buffer (offset + 19)))
                        _ _ r out₄ (λ _ e. cc)
                        λ _ out₅.
                          bind-cases
                            (add_entry subdirectory start (icb_at buffer offset)
                              (byte buffer (offset + 18)) (fid_name buffer offset) parent)
                            (λ parent'.
                              fid_loop subdirectory fuel start buffer
                                (offset + fid_padded buffer offset) parent')
                            r out₅
                            (λ e.
                              let (marked, runs_out) =
                                add_entry-no_fuel (icb_at buffer offset) (byte buffer (offset + 18))
                                  (fid_name buffer offset) parent r e in
                              (
                                offset,
                                record {
                                  inside = ground (arith, room);
                                  identifier = ground (arith, tagged);
                                  is_directory = marked;
                                  dir_node = new_directory (fid_name buffer offset);
                                  reader = r;
                                  same_image = same;
                                  runs_out = runs_out;
                                },
                              ))
                            (λ t _ e.
                              fid_loop-no_fuel fuel image buffer (offset + fid_padded buffer offset)
                                t _
                                (add_entry-KeepsImage (icb_at buffer offset)
                                    (byte buffer (offset + 18)) (fid_name buffer offset) parent r
                                  ∙ same)
                                (ground arith) (omega arith) e)

  -- With one step for each byte of a directory and one more, the loop over its file identifiers runs
  -- out only where an identifier in the directory is marked as a directory whose own parse runs out.
  pub fid_loop_fuel :
      (buffer : List ℕ) (parent : TreeNode) (r : Reader)
      → (fid_loop subdirectory (suc (length buffer)) start buffer 0 parent r).0 ≡ err no_fuel
      → (o : ℕ) × RunsOutAt subdirectory r.image buffer o
  fid_loop_fuel buffer parent r out =
      fid_loop-no_fuel (suc (length buffer)) r.image buffer 0 parent r refl (omega arith)
        (omega arith) out
