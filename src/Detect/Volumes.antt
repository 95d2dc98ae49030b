-- ===== src/Detect/Volumes.antt =====
-- src/formats: the cursor before and after the `detect` of APFS, HFS+, DMG, SquashFS and NTFS.
use isomage.Prelude.{
  ℕ, ◌+◌, ◌-◌, ◌^◌, ◌<◌, ◌≡◌, ◌∙◌, refl, ap, not, List, Result, ok, err, ltb, if◌then◌else◌,
}
use isomage.Text.{str_eq}
use isomage.Reader.{
  Reader, M, IoError, ◌>>=◌, pure, fail, lift, map_error, seek_start, seek_end, read_exact,
}
use isomage.Reader.Laws.{bind_ok, seek_start_near}
use isomage.Reader.Keeps.{
  KeepsImage, >>=-KeepsImage, map_error-KeepsImage, seek_read-KeepsImage, seek_start-KeepsImage,
  seek_end-KeepsImage, read_exact-KeepsImage, if-KeepsImage, seek_start_back,
}
use isomage.Apfs
use isomage.Hfsplus
use isomage.Hfsplus.Catalog
use isomage.Dmg
use isomage.Squashfs
use isomage.Squashfs.Layout
use isomage.Ntfs

apfs_do_detect-KeepsImage : KeepsImage Apfs.do_detect
unfolding Apfs.do_detect Apfs.read_field
apfs_do_detect-KeepsImage =
    >>=-KeepsImage
      (map_error Apfs.io (seek_start 32) >>= λ _. map_error Apfs.eof_error (read_exact 4))
      (λ buf. lift (Apfs.check_magic buf)) (seek_read-KeepsImage Apfs.io Apfs.eof_error 32 4)
      (λ buf r. refl)

apfs_restored :
    (x : Result Apfs.Error (Unit {0}) × Reader) (r : Reader)
    → r.pos < 2 ^ 63
    → x.1.image ≡ r.image
    → (Apfs.restore r.pos x).1 ≡ r
unfolding Apfs.restore
apfs_restored (result, r₁) r h same =
    ap (λ y. y.1)
      (bind_ok (map_error Apfs.io (seek_start r.pos)) (λ back. lift result) r₁
        (seek_start_near Apfs.io r.pos r₁ h))
    ∙ ap (λ image. let y : Reader = record { image = image; pos = r.pos } in y) same

pub apfs_restores : (r : Reader) → r.pos < 2 ^ 63 → (Apfs.detect r).1 ≡ r
unfolding Apfs.detect
apfs_restores r h = apfs_restored (Apfs.do_detect r) r h (apfs_do_detect-KeepsImage r)

hfsplus_do_detect-KeepsImage : KeepsImage Hfsplus.do_detect
unfolding Hfsplus.do_detect Hfsplus.read_field
hfsplus_do_detect-KeepsImage =
    >>=-KeepsImage
      (map_error Catalog.Error.io (seek_start 1024) >>= λ _.
        map_error Hfsplus.eof_error (read_exact 2))
      (λ sig. lift (Hfsplus.check_magic sig))
      (seek_read-KeepsImage Catalog.Error.io Hfsplus.eof_error 1024 2) (λ sig r. refl)

pub hfsplus_restores : (r : Reader) → r.pos < 2 ^ 63 → (Hfsplus.detect r).1 ≡ r
unfolding Hfsplus.detect Hfsplus.restore
hfsplus_restores r h = seek_start_back r (Hfsplus.do_detect r).1 h (hfsplus_do_detect-KeepsImage r)

squashfs_detect_inner-KeepsImage : KeepsImage Squashfs.detect_inner
unfolding Squashfs.detect_inner
squashfs_detect_inner-KeepsImage =
    let checked : List ℕ → M Layout.Error (Unit {0}) = λ buf. lift (Squashfs.check_magic buf) in
    >>=-KeepsImage (map_error Layout.io (seek_start 0))
      (λ _. map_error Layout.eof_error (read_exact 4) >>= checked)
      (map_error-KeepsImage Layout.io (seek_start 0) (seek_start-KeepsImage 0))
      (λ _.
        >>=-KeepsImage (map_error Layout.eof_error (read_exact 4)) checked
          (map_error-KeepsImage Layout.eof_error (read_exact 4) (read_exact-KeepsImage 4))
          (λ buf r. refl))

pub squashfs_restores : (r : Reader) → r.pos < 2 ^ 63 → (Squashfs.detect r).1 ≡ r
unfolding Squashfs.detect Squashfs.restore
squashfs_restores r h =
    seek_start_back r (Squashfs.detect_inner r).1 h (squashfs_detect_inner-KeepsImage r)

dmg_read_trailer-KeepsImage : (n : ℕ) → KeepsImage (Dmg.read_trailer n)
unfolding Dmg.read_trailer
dmg_read_trailer-KeepsImage n =
    >>=-KeepsImage (map_error Dmg.io seek_end)
      (λ file_len.
        if ltb file_len Dmg.koly_size
        then fail Dmg.too_short
        else (map_error Dmg.io (seek_start (file_len - Dmg.koly_size)) >>= λ _.
            map_error Dmg.eof_error (read_exact n)))
      (map_error-KeepsImage Dmg.io seek_end seek_end-KeepsImage)
      (λ file_len.
        if-KeepsImage (ltb file_len Dmg.koly_size) _ _ (λ r. refl)
          (seek_read-KeepsImage Dmg.io Dmg.eof_error (file_len - Dmg.koly_size) n))

dmg_detect_inner-KeepsImage : KeepsImage Dmg.detect_inner
unfolding Dmg.detect_inner
dmg_detect_inner-KeepsImage =
    >>=-KeepsImage (Dmg.read_trailer 4)
      (λ magic. if not (str_eq magic Dmg.koly_magic) then fail Dmg.bad_magic else pure tt)
      (dmg_read_trailer-KeepsImage 4)
      (λ magic. if-KeepsImage (not (str_eq magic Dmg.koly_magic)) _ _ (λ r. refl) (λ r. refl))

pub dmg_restores : (r : Reader) → r.pos < 2 ^ 63 → (Dmg.detect r).1 ≡ r
unfolding Dmg.detect Dmg.restore
dmg_restores r h = seek_start_back r (Dmg.detect_inner r).1 h (dmg_detect_inner-KeepsImage r)

is_oem-image : (x : Result IoError (List ℕ) × Reader) → (Ntfs.is_oem x).1.image ≡ x.1.image
unfolding Ntfs.is_oem
is_oem-image (ok oem, r) = refl
is_oem-image (err e, r) = refl

after_seek-image : (x : Result IoError ℕ × Reader) → (Ntfs.after_seek x).1.image ≡ x.1.image
unfolding Ntfs.after_seek
after_seek-image (ok n, r) = is_oem-image (read_exact 8 r) ∙ read_exact-KeepsImage 8 r
after_seek-image (err e, r) = refl

pub ntfs_restores : (r : Reader) → r.pos < 2 ^ 63 → (Ntfs.detect r).1 ≡ r
unfolding Ntfs.detect Ntfs.restore Ntfs.detect_inner
ntfs_restores r h =
    seek_start_back r (Ntfs.detect_inner r.pos r).1 h
      (after_seek-image (seek_start (r.pos + 3) r) ∙ seek_start-KeepsImage (r.pos + 3) r)
