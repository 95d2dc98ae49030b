-- ===== src/Zip/RoundTrip.antt =====
-- src/formats/zip.rs: the central directory, written and read.
use isomage.Prelude.{
  take-append, drop-append, ℕ, zero, suc, ◌+◌, ◌-◌, ◌^◌, ◌<◌, ◌≡◌, refl, sym, ◌∙◌, false, List, [],
  ◌∷◌, ◌++◌, map, some, ltb, length, drop, min, All, arith, length-append, ok,
}
use isomage.Text.Utf8.{from_utf8_lossy_ascii, IsAscii}
use isomage.Bytes.{slice, le16, le32, drop-drop}
use isomage.Zip.Central.{
  cdr_sig, method_stored, CdEntry, record_sizes, cd_entry, with_entry, cd_loop,
  parse_central_directory, CdRecord, cd_bytes, central_directory,
}

-- A record as a directory can hold it: an ASCII name, and numbers of their width.
abbrev pub IsRecord : CdRecord → Type 0
IsRecord rec =
    All IsAscii rec.name
    × (length rec.name < 2 ^ 16)
    × (rec.size < 2 ^ 32)
    × (rec.lh_offset < 2 ^ 32)

-- A stored file with the record's name, size and offset.
unfoldable pub entry_of : CdRecord → CdEntry
entry_of rec = record {
  name = rec.name;
  method = method_stored;
  is_encrypted = false;
  uncompressed_size = rec.size;
  local_header_offset = rec.lh_offset;
}

-- The fields of a record that is followed by `tail`.
module _ (rec : CdRecord) (is : IsRecord rec) (tail : List ℕ) where
  name_length : le16 (cd_bytes rec ++ tail) 28 ≡ length rec.name
  unfolding cd_bytes le16
  name_length = omega (arith, is.1)

  size_field : le32 (cd_bytes rec ++ tail) 24 ≡ rec.size
  unfolding cd_bytes le32
  size_field = omega (arith, is.2)

  offset_field : le32 (cd_bytes rec ++ tail) 42 ≡ rec.lh_offset
  unfolding cd_bytes le32
  offset_field = omega (arith, is.3)

  whole_length : length (cd_bytes rec ++ tail) ≡ 46 + length rec.name + length tail
  unfolding cd_bytes
  whole_length = omega (arith, length-append rec.name tail)

  name_field : slice (cd_bytes rec ++ tail) 46 (46 + length rec.name) ≡ rec.name
  unfolding cd_bytes slice
  name_field =
      let n : 46 + length rec.name - 46 ≡ length rec.name = omega arith in
      rw n (take-append rec.name tail)

  behind : drop (46 + length rec.name) (cd_bytes rec ++ tail) ≡ tail
  unfolding cd_bytes
  behind = sym (drop-drop (cd_bytes rec ++ tail) 46 (length rec.name)) ∙ drop-append rec.name tail

  compressed_field : le32 (cd_bytes rec ++ tail) 20 ≡ rec.size
  unfolding cd_bytes le32
  compressed_field = omega (arith, is.2)

  constant_fields :
      (le32 (cd_bytes rec ++ tail) 0 ≡ cdr_sig)
      × (le16 (cd_bytes rec ++ tail) 8 ≡ 0)
      × (le16 (cd_bytes rec ++ tail) 10 ≡ 0)
      × (le16 (cd_bytes rec ++ tail) 30 ≡ 0)
      × (le16 (cd_bytes rec ++ tail) 32 ≡ 0)
  unfolding cd_bytes le32 le16
  constant_fields = (refl, refl, refl, refl, refl)

  sizes :
      record_sizes (cd_bytes rec ++ tail) (46 + length rec.name) 0
      ≡ some (rec.size, rec.size, rec.lh_offset)
  unfolding record_sizes
  sizes =
      let no_extra : ltb (46 + length rec.name)
            (min (46 + length rec.name + 0) (length (cd_bytes rec ++ tail)))
          ≡ false =
        ground arith in
      rw (no_extra, compressed_field, size_field, offset_field) refl

  entry :
      cd_entry (cd_bytes rec ++ tail) (46 + length rec.name) (rec.size, rec.size, rec.lh_offset)
      ≡ entry_of rec
  unfolding cd_entry entry_of
  entry =
      let (sig, flags, method, extra, comment) = constant_fields in
      rw (flags, method, name_field, from_utf8_lossy_ascii rec.name is.0) refl

-- One record and what is behind it.
cd_loop-cd_bytes :
    (fuel : ℕ) (rec : CdRecord) (tail : List ℕ) (entries : List CdEntry)
    → IsRecord rec
    → cd_loop fuel tail ≡ ok entries
    → cd_loop (suc fuel) (cd_bytes rec ++ tail) ≡ ok (entry_of rec ∷ entries)
unfolding cd_loop with_entry
cd_loop-cd_bytes fuel rec tail entries is h =
    let bytes = cd_bytes rec ++ tail in
    let (sig, flags, method, extra, comment) = constant_fields rec is tail in
    let len = name_length rec is tail in
    let all = whole_length rec is tail in
    let t₁ : ltb (length bytes) 4 ≡ false = ground (arith, all) in
    let t₂ : ltb (length bytes) 46 ≡ false = ground (arith, all) in
    let t₃ : ltb (length bytes) (46 + length rec.name) ≡ false = ground (arith, all) in
    let next : 46 + length rec.name + 0 + 0 ≡ 46 + length rec.name = omega arith in
    rw
      (
        t₁,
        sig,
        t₂,
        len,
        t₃,
        extra,
        comment,
        sizes rec is tail,
        next,
        behind rec is tail,
        h,
        entry rec is tail,
      )
      refl

cd_loop-nil : (fuel : ℕ) → cd_loop (suc fuel) [] ≡ ok []
unfolding cd_loop
cd_loop-nil fuel = refl

cd_loop-central_directory :
    (fuel : ℕ) (recs : List CdRecord)
    → All IsRecord recs
    → length (central_directory recs) < fuel
    → cd_loop fuel (central_directory recs) ≡ ok (map entry_of recs)
unfolding central_directory
cd_loop-central_directory zero recs all h = absurd (omega arith)
cd_loop-central_directory (suc fuel) [] all h = cd_loop-nil fuel
cd_loop-central_directory (suc fuel) (rec ∷ recs) (is, all) h =
    cd_loop-cd_bytes fuel rec (central_directory recs) (map entry_of recs) is (
      cd_loop-central_directory fuel recs all
        (omega (arith, h, whole_length rec is (central_directory recs))))

-- Records with ASCII names and numbers of their width, written one after the other, are read back as
-- stored files with the same names, sizes and offsets.
pub parse_central_directory-central_directory :
    (recs : List CdRecord)
    → All IsRecord recs
    → parse_central_directory (central_directory recs) ≡ ok (map entry_of recs)
unfolding parse_central_directory
parse_central_directory-central_directory recs all =
    cd_loop-central_directory (suc (length (central_directory recs))) recs all (omega arith)
