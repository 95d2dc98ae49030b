-- ===== src/Gpt/Array.antt =====
-- src/formats/gpt.rs: what `read_entries` returns, against the array of entries in the image.
use isomage.Prelude.{
  min, All, ◌-◌, ℕ, zero, suc, ◌+◌, ◌*◌, ◌%◌, ◌^◌, ◌≤◌, ◌<◌, ◌≡◌, ◌∙◌, refl, sym, ap, List, [], ◌∷◌,
  arith, ltb, length, Result, ok, Bool-cases, inl, inr,
}
use isomage.Word.{mul64, saturating_mul}
use isomage.Bytes.{slice, le64, all_zero, le64-slice, slice-slice, all_zero-All, All-all_zero}
use isomage.Reader.{Reader, read_at, map_error, lift}
use isomage.Reader.Laws.{>>=-eq-ok, map_error-eq-ok, read_at-eq-ok}
use isomage.Gpt.Entries.{entries, scan_entries-entries}
use native.Mathlib.Nat.{add-mul, suc-mul}
use isomage.Gpt.{
  decode_utf16le, Partition, Error, Header, parse_header_sector, scan_entries, read_entries,
  entry_partition, sector_size, max_array, io,
}

-- A partition whose entry is at byte `at_byte` of the image: the two GUIDs, the first and the last
-- sector, and the 72 bytes of the name. The start wraps around in 64 bits, and the length stops at
-- the greatest number of 64 bits.
pub record IsPartition (image : List ℕ) (at_byte i : ℕ) (p : Partition) : Type 0 where
  pub index : p.index ≡ i
  pub type_guid : p.type_guid ≡ slice image at_byte (at_byte + 16)
  pub unique_guid : p.unique_guid ≡ slice image (at_byte + 16) (at_byte + 32)
  pub start : p.start ≡ le64 image (at_byte + 32) * 512 % 2 ^ 64
  pub len :
      p.len
      ≡ min
          ((min (le64 image (at_byte + 40) + 1) (2 ^ 64 - 1) - le64 image (at_byte + 32)) * 512)
          (2 ^ 64 - 1)
  pub name : p.name ≡ decode_utf16le (slice image (at_byte + 56) (at_byte + 128))

abbrev pub IsFree : List ℕ → ℕ → Type 0
IsFree image at_byte = All (λ b. b ≡ 0) (slice image at_byte (at_byte + 16))

-- The partitions of the entries `i` on, of which `n` are left, in an array at byte `array` with
-- entries of `entry_size` bytes: an entry is free if the 16 bytes of its type are 0.
pub data AreSlots (image : List ℕ) (array entry_size : ℕ) : ℕ → ℕ → List Partition → Type 0 where
  no_more : {i : ℕ} → AreSlots image array entry_size i 0 []
  free :
      {i n : ℕ} {ps : List Partition}
      → IsFree image (array + i * entry_size)
      → AreSlots image array entry_size (i + 1) n ps
      → AreSlots image array entry_size i (suc n) ps
  used :
      {i n : ℕ} {p : Partition} {ps : List Partition}
      → ¬ IsFree image (array + i * entry_size)
      → IsPartition image (array + i * entry_size) i p
      → AreSlots image array entry_size (i + 1) n ps
      → AreSlots image array entry_size i (suc n) (p ∷ ps)

-- One entry, cut out of the image.
module _ (image : List ℕ) (at_byte entry_size i : ℕ) (long : 128 ≤ entry_size) where
  abbrev entry : List ℕ
  entry = slice image at_byte (at_byte + entry_size)

  entry-IsPartition : IsPartition image at_byte i (entry_partition i entry)
  unfolding entry_partition
  entry-IsPartition =
      let first = le64-slice image at_byte (at_byte + entry_size) 32 (omega arith) in
      let final = le64-slice image at_byte (at_byte + entry_size) 40 (omega arith) in
      let here : at_byte + 0 ≡ at_byte = omega arith in
      record {
        index = refl;
        type_guid =
            slice-slice image at_byte (at_byte + entry_size) 0 16 (omega arith) ∙ rw here refl;
        unique_guid = slice-slice image at_byte (at_byte + entry_size) 16 32 (omega arith);
        start = rw first refl;
        len = rw (first, final) refl;
        name =
            ap decode_utf16le
              (slice-slice image at_byte (at_byte + entry_size) 56 128 (omega arith));
      }

  entry_type : slice entry 0 16 ≡ slice image at_byte (at_byte + 16)
  entry_type =
      let here : at_byte + 0 ≡ at_byte = omega arith in
      slice-slice image at_byte (at_byte + entry_size) 0 16 (omega arith) ∙ rw here refl

module _ (image : List ℕ) (array entry_size total : ℕ) (long : 128 ≤ entry_size) where
  entries-AreSlots :
      (n i : ℕ)
      → i * entry_size + n * entry_size ≤ total
      → AreSlots image array entry_size i n
          (entries (slice image array (array + total)) entry_size n i)
  unfolding entries
  entries-AreSlots zero i room = no_more
  entries-AreSlots (suc n) i room =
      let here = array + i * entry_size in
      let next : (i + 1) * entry_size ≡ i * entry_size + entry_size =
        add-mul i 1 entry_size ∙ omega arith in
      let left = suc-mul n entry_size in
      let rest = entries-AreSlots n (i + 1) (omega (arith, next, left, room)) in
      let cut : slice (slice image array (array + total)) (i * entry_size)
            (i * entry_size + entry_size)
          ≡ slice image here (here + entry_size) =
        slice-slice image array (array + total) (i * entry_size) (i * entry_size + entry_size)
          (omega (arith, left, room))
        ∙ ap (slice image here) (omega arith) in
      elim (Bool-cases (all_zero (slice image here (here + 16)))) [
        | inl zero_type ↦
            rw (cut, entry_type image here entry_size i long, zero_type)
              (free (all_zero-All _ zero_type) rest)
        | inr other ↦
            rw (cut, entry_type image here entry_size i long, other)
              (used (λ all. cc (All-all_zero _ all, other))
                (entry-IsPartition image here entry_size i long) rest)
      ]

header-entry_size :
    (sector : List ℕ) (h : Header) → parse_header_sector sector ≡ ok h → 128 ≤ h.entry_size
unfolding parse_header_sector
header-entry_size sector h accepted = ground arith

array_read :
    (sector : List ℕ) (h : Header) (image : List ℕ) (ps : List Partition) (buf : List ℕ)
    → parse_header_sector sector ≡ ok h
    → h.entries_lba < 2 ^ 55
    → saturating_mul h.num_entries h.entry_size ≤ max_array
    → mul64 h.entries_lba sector_size + saturating_mul h.num_entries h.entry_size ≤ length image
    → buf
      ≡ slice image
          (mul64 h.entries_lba sector_size)
          (mul64 h.entries_lba sector_size + saturating_mul h.num_entries h.entry_size)
    → scan_entries buf h.entry_size h.num_entries 0 [] ≡ ps
    → (h.num_entries * h.entry_size ≤ 1024 * 1024)
      × (h.entries_lba * 512 + h.num_entries * h.entry_size ≤ length image)
      × AreSlots image (h.entries_lba * 512) h.entry_size 0 h.num_entries ps
array_read sector h image ps buf accepted near small inside is e =
    let exact : saturating_mul h.num_entries h.entry_size ≡ h.num_entries * h.entry_size =
      omega arith in
    let offset : mul64 h.entries_lba sector_size ≡ h.entries_lba * 512 = omega arith in
    let contents : ps
        ≡ entries
            (slice image (h.entries_lba * 512) (h.entries_lba * 512 + h.num_entries * h.entry_size))
            h.entry_size h.num_entries 0 =
      sym e
      ∙ scan_entries-entries buf h.entry_size h.num_entries 0 []
      ∙ rw (is, exact, offset) refl in
    (
      omega arith,
      omega arith,
      rw contents (
          entries-AreSlots image (h.entries_lba * 512) h.entry_size (h.num_entries * h.entry_size)
            (header-entry_size sector h accepted) h.num_entries 0 (omega arith)),
    )

-- A successful `read_entries` with an accepted header whose array begins at a sector below 2 ^ 55:
-- the array is at most 1 MiB long and lies in the image at that sector, and the partitions are those
-- of its entries in use, in order, each as it stands at its place in the image.
pub read_entries-AreSlots :
    (sector : List ℕ) (h : Header) (r r' : Reader) {ps : List Partition}
    → parse_header_sector sector ≡ ok h
    → h.entries_lba < 2 ^ 55
    → read_entries h r ≡ (ok ps, r')
    → (h.num_entries * h.entry_size ≤ 1024 * 1024)
      × (h.entries_lba * 512 + h.num_entries * h.entry_size ≤ length r.image)
      × AreSlots r.image (h.entries_lba * 512) h.entry_size 0 h.num_entries ps
unfolding read_entries
read_entries-AreSlots sector h r r' {ps} accepted near e =
    elim (Bool-cases (ltb max_array (saturating_mul h.num_entries h.entry_size))) [
      | inl big ↦ cc (rw big at e)
      | inr small ↦
          let off = mul64 h.entries_lba sector_size in
          let total = saturating_mul h.num_entries h.entry_size in
          let (buf, got, e₁) =
            >>=-eq-ok (map_error io (read_at off total))
              (λ buf. lift (ok (scan_entries buf h.entry_size h.num_entries 0 []))) r
              (rw small at e) in
          let (inside, is, _) =
            read_at-eq-ok off total r (map_error-eq-ok io (read_at off total) r got).0 in
          array_read sector h r.image ps buf accepted near (ground arith) inside is
            (cc (ap (λ (x : Result Error (List Partition) × Reader). x.0) e₁))
    ]
