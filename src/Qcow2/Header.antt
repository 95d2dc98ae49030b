-- ===== src/Qcow2/Header.antt =====
-- What `detect` and `detect_and_parse` of src/formats/qcow2.rs accept, and what they leave behind.
use isomage.Prelude.{ℕ, ◌^◌, ◌≤◌, ◌<◌, ◌≡◌, ◌⊎◌, ◌↔◌, not, if◌then◌else◌, List, ◌==◌, arith, ok}
use isomage.Bytes.{be32, be64}
use isomage.Reader.{Reader, stream_position, map_error, read_at, lift, fail}
use isomage.Reader.Keeps.{
  KeepsImage, >>=-KeepsImage, map_error-KeepsImage, read_at-KeepsImage, lift-KeepsImage,
  fail-KeepsImage, if-KeepsImage, seek_start_back,
}
use isomage.Qcow2.{
  Error, bad_magic, eof_error, qcow2_magic, check_header, detect_inner, detect, restore,
}

-- A header that can be read: the magic, version 2 or 3, clusters of 512 bytes to 2 MiB, and no
-- encryption.
record IsHeader (buf : List ℕ) : Type 0 where
  magic : be32 buf 0 ≡ qcow2_magic
  version : (be32 buf 4 ≡ 2) ⊎ (be32 buf 4 ≡ 3)
  cluster_bits_ge : 9 ≤ be32 buf 20
  cluster_bits_le : be32 buf 20 ≤ 21
  plain : be32 buf 32 ≡ 0

-- `read_header` accepts exactly such headers, and returns the virtual size.
check_header_iff :
    (buf : List ℕ) (disk_size : ℕ)
    → (check_header buf ≡ ok disk_size) ↔ (IsHeader buf × (be64 buf 24 ≡ disk_size))
check_header_iff buf disk_size = (
  λ h. (unfold check_header in ground arith, unfold check_header in ground arith),
  λ h. unfold check_header in ground arith,
)

detect_inner-KeepsImage : KeepsImage detect_inner
unfolding detect_inner
detect_inner-KeepsImage =
    >>=-KeepsImage (map_error eof_error (read_at 0 4))
      (λ buf. if not (be32 buf 0 == qcow2_magic) then fail bad_magic else lift (ok tt))
      (map_error-KeepsImage eof_error (read_at 0 4) (read_at-KeepsImage 0 4))
      (λ buf.
        if-KeepsImage (not (be32 buf 0 == qcow2_magic)) (fail bad_magic) (lift (ok tt))
          (fail-KeepsImage (Unit {0}) bad_magic) (lift-KeepsImage {E = Error} (ok tt)))

-- `detect` puts the cursor back where it was, at a position below 2 ^ 63, whatever it finds.
pub detect_restores : (r : Reader) → r.pos < 2 ^ 63 → (detect r).1 ≡ r
unfolding detect stream_position restore
detect_restores r h = seek_start_back r (detect_inner r).1 h (detect_inner-KeepsImage r)
