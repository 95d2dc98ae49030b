-- ===== src/Detect/Cursor.antt =====
-- src/formats: the cursor before and after each `detect`.
use isomage.Prelude.{
  ℕ, ◌+◌, ◌-◌, Option, none, some, drop, ◌^◌, ◌<◌, ◌≡◌, refl, ◌∙◌, Bool, List, Result, ok, err, not,
  if◌then◌else◌, ltb, length, ◌==◌,
}
use isomage.Text.{str_eq}
use isomage.Bytes.{le32, le64}
use isomage.Reader.{
  Reader, M, IoError, ◌>>=◌, pure, fail, lift, map_error, stream_position, seek_end, read,
  read_exact, read_at,
}
use isomage.Reader.Keeps.{
  KeepsImage, >>=-KeepsImage, map_error-KeepsImage, read_at-KeepsImage, read_exact-KeepsImage,
  seek_end-KeepsImage, read-KeepsImage, stream_position-KeepsImage, if-KeepsImage, seek_start_back,
}
use isomage.Qcow2
use isomage.Qcow2.Header.{detect_restores}
use isomage.Vhd
use isomage.Vhd.Detect.{detect_restores_position}
use isomage.Vmdk
use isomage.Wim
use isomage.Ext
use isomage.Ext.Layout
use isomage.Fat.Bpb
use isomage.Zip
use isomage.Apfs
use isomage.Hfsplus
use isomage.Dmg
use isomage.Squashfs
use isomage.Ntfs
use isomage.Detect.Volumes.{
  apfs_restores, hfsplus_restores, dmg_restores, squashfs_restores, ntfs_restores,
}
use isomage.Zip.Central
use isomage.Fat.Build as FatBuild
use isomage.Tar.Build as TarBuild

-- A file that is long enough, and a signature at its beginning.
signature-KeepsImage :
    {E : Type 0} (h k : IoError → E) (e f : E) (need n : ℕ) (bad : List ℕ → Bool)
    → KeepsImage (
        map_error h seek_end >>= λ file_len.
        if ltb file_len need
        then fail e
        else (map_error k (read_at 0 n) >>= λ magic. if bad magic then fail f else pure tt))
signature-KeepsImage h k e f need n bad =
    >>=-KeepsImage (map_error h seek_end)
      (λ file_len.
        if ltb file_len need
        then fail e
        else (map_error k (read_at 0 n) >>= λ magic. if bad magic then fail f else pure tt))
      (map_error-KeepsImage h seek_end seek_end-KeepsImage)
      (λ file_len.
        if-KeepsImage (ltb file_len need) _ _ (λ r. refl)
          (>>=-KeepsImage (map_error k (read_at 0 n))
            (λ magic. if bad magic then fail f else pure tt)
            (map_error-KeepsImage k (read_at 0 n) (read_at-KeepsImage 0 n))
            (λ magic. if-KeepsImage (bad magic) _ _ (λ r. refl) (λ r. refl))))

vmdk_restores : (r : Reader) → r.pos < 2 ^ 63 → (Vmdk.detect r).1 ≡ r
unfolding Vmdk.detect Vmdk.restore Vmdk.detect_inner stream_position
vmdk_restores r h = seek_start_back r (Vmdk.detect_inner r).1 h (
    signature-KeepsImage Vmdk.io Vmdk.eof_error Vmdk.too_short Vmdk.bad_magic Vmdk.header_size 4
      (λ magic. not (le32 magic 0 == Vmdk.vmdk_magic)) r)

wim_restores : (r : Reader) → r.pos < 2 ^ 63 → (Wim.detect r).1 ≡ r
unfolding Wim.detect Wim.restore Wim.detect_inner stream_position
wim_restores r h = seek_start_back r (Wim.detect_inner r).1 h (
    signature-KeepsImage Wim.io Wim.eof_error Wim.too_short Wim.bad_magic Wim.header_size 8
      (λ magic. not (str_eq magic Wim.wim_magic)) r)

has_magic-image : (x : Result IoError (List ℕ) × Reader) → (Ext.has_magic x).1.image ≡ x.1.image
unfolding Ext.has_magic
has_magic-image (ok magic_buf, r) = refl
has_magic-image (err e, r) = refl

ext_restores : (r : Reader) → r.pos < 2 ^ 63 → (Ext.detect r).1 ≡ r
unfolding Ext.detect Ext.restore Ext.detect_inner Ext.has_magic
ext_restores r h = seek_start_back r (Ext.detect_inner r).1 h (
    has_magic-image (read_at (r.pos + Layout.superblock_offset + 56) 2 r)
    ∙ read_at-KeepsImage _ 2 r)

tar_restores : (r : Reader) → r.pos < 2 ^ 63 → (TarBuild.detect r).1 ≡ r
unfolding TarBuild.detect
tar_restores r h = seek_start_back r (read_exact 512 r).1 h (read_exact-KeepsImage 512 r)

find_eocd64-KeepsImage : (eocd_abs : ℕ) → KeepsImage (Zip.find_eocd64 eocd_abs)
unfolding Zip.find_eocd64
find_eocd64-KeepsImage eocd_abs =
    let of_record : List ℕ → M Central.Error Zip.EocdInfo = λ e64.
      if not (le32 e64 0 == Zip.eocd64_sig)
      then fail Central.not_zip
      else pure (record { cd_offset = le64 e64 48; cd_size = le64 e64 40 }) in
    let of_locator : List ℕ → M Central.Error Zip.EocdInfo = λ loc.
      if not (le32 loc 0 == Zip.eocd64_locator_sig)
      then fail Central.not_zip
      else (map_error Central.io (read_at (le64 loc 8) 56) >>= of_record) in
    if-KeepsImage (ltb eocd_abs Zip.eocd64_locator_size) _ _ (λ r. refl)
      (>>=-KeepsImage (map_error Central.io (read_at (eocd_abs - Zip.eocd64_locator_size) 20))
        of_locator
        (map_error-KeepsImage Central.io _
          (read_at-KeepsImage (eocd_abs - Zip.eocd64_locator_size) 20))
        (λ loc.
          if-KeepsImage (not (le32 loc 0 == Zip.eocd64_locator_sig)) _ _ (λ r. refl)
            (>>=-KeepsImage (map_error Central.io (read_at (le64 loc 8) 56)) of_record
              (map_error-KeepsImage Central.io _ (read_at-KeepsImage (le64 loc 8) 56))
              (λ e64.
                if-KeepsImage (not (le32 e64 0 == Zip.eocd64_sig)) _ _ (λ r. refl) (λ r. refl)))))

at_signature-KeepsImage :
    (search_start : ℕ) (buf : List ℕ) (o : Option ℕ)
    → KeepsImage (Zip.at_signature search_start buf o)
unfolding Zip.at_signature Zip.of_eocd
at_signature-KeepsImage search_start buf none = λ r. refl
at_signature-KeepsImage search_start buf (some eocd_pos) =
    if-KeepsImage (ltb (length (drop eocd_pos buf)) 22) _ _ (λ r. refl)
      (if-KeepsImage _ _ _ (find_eocd64-KeepsImage (search_start + eocd_pos)) (λ r. refl))

find_eocd-KeepsImage : KeepsImage Zip.find_eocd
unfolding Zip.find_eocd
find_eocd-KeepsImage =
    let start : ℕ → ℕ = λ file_len. file_len - Zip.max_eocd_search in
    let search : ℕ → List ℕ → M Central.Error Zip.EocdInfo =
      λ file_len buf. Zip.at_signature (start file_len) buf (Zip.last_signature buf) in
    let read_end : ℕ → M Central.Error Zip.EocdInfo = λ file_len.
      if ltb file_len Zip.eocd_min_size
      then fail Central.not_zip
      else (map_error Central.io (read_at (start file_len) (file_len - start file_len))
          >>= search file_len) in
    >>=-KeepsImage (map_error Central.io seek_end) read_end
      (map_error-KeepsImage Central.io seek_end seek_end-KeepsImage)
      (λ file_len.
        if-KeepsImage (ltb file_len Zip.eocd_min_size) _ _ (λ r. refl)
          (>>=-KeepsImage
            (map_error Central.io (read_at (start file_len) (file_len - start file_len)))
            (search file_len)
            (map_error-KeepsImage Central.io _
              (read_at-KeepsImage (start file_len) (file_len - start file_len)))
            (λ buf. at_signature-KeepsImage (start file_len) buf (Zip.last_signature buf))))

zip_restores : (r : Reader) → r.pos < 2 ^ 63 → (Zip.detect r).1 ≡ r
unfolding Zip.detect
zip_restores r h = seek_start_back r (Zip.find_eocd r).1 h (find_eocd-KeepsImage r)

read_bpb-KeepsImage : KeepsImage Bpb.read_bpb
unfolding Bpb.read_bpb
read_bpb-KeepsImage =
    let checked : ℕ → List ℕ → M Bpb.Error Bpb.Context = λ base_offset sector.
      if ltb (length sector) 512
      then fail Bpb.too_short
      else lift (Bpb.parse_bpb base_offset sector) in
    >>=-KeepsImage (map_error Bpb.io stream_position)
      (λ base_offset. map_error Bpb.io (read 512) >>= checked base_offset)
      (map_error-KeepsImage Bpb.io stream_position stream_position-KeepsImage)
      (λ base_offset.
        >>=-KeepsImage (map_error Bpb.io (read 512)) (checked base_offset)
          (map_error-KeepsImage Bpb.io (read 512) (read-KeepsImage 512))
          (λ sector. if-KeepsImage (ltb (length sector) 512) _ _ (λ r. refl) (λ r. refl)))

fat_restores : (r : Reader) → r.pos < 2 ^ 63 → (FatBuild.detect r).1 ≡ r
unfolding FatBuild.detect
fat_restores r h = seek_start_back r (Bpb.read_bpb r).1 h (read_bpb-KeepsImage r)

-- Every `detect` leaves a cursor at a position below 2 ^ 63 where it was, whatever it finds: those
-- of qcow2, VHD, VMDK, WIM, ext, ZIP, APFS, HFS+, DMG, SquashFS, NTFS, TAR and FAT.
pub detect_restores_cursor :
    (r : Reader)
    → r.pos < 2 ^ 63
    → ((Qcow2.detect r).1 ≡ r)
      × ((Vhd.detect r).1 ≡ r)
      × ((Vmdk.detect r).1 ≡ r)
      × ((Wim.detect r).1 ≡ r)
      × ((Ext.detect r).1 ≡ r)
      × ((Zip.detect r).1 ≡ r)
      × ((Apfs.detect r).1 ≡ r)
      × ((Hfsplus.detect r).1 ≡ r)
      × ((Dmg.detect r).1 ≡ r)
      × ((Squashfs.detect r).1 ≡ r)
      × ((Ntfs.detect r).1 ≡ r)
      × ((TarBuild.detect r).1 ≡ r)
      × ((FatBuild.detect r).1 ≡ r)
detect_restores_cursor r h = (
  detect_restores r h,
  detect_restores_position r h,
  vmdk_restores r h,
  wim_restores r h,
  ext_restores r h,
  zip_restores r h,
  apfs_restores r h,
  hfsplus_restores r h,
  dmg_restores r h,
  squashfs_restores r h,
  ntfs_restores r h,
  tar_restores r h,
  fat_restores r h,
)
