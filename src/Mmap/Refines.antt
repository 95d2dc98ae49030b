-- ===== src/Mmap/Refines.antt =====
-- src/image_io/mmap.rs against the reader that the parsers are modelled with.
use isomage.Prelude.{
  ℕ, ◌+◌, ◌-◌, ◌^◌, ◌<◌, ◌≡◌, refl, ap, length, min, arith, Bool-cases, inl, inr, ◌==◌, List, [],
  ok, ==_iff,
}
use isomage.Bytes.{slice}
use isomage.Reader.{Reader, seek_start, seek_end, seek_current}
use isomage.Reader
use isomage.Mmap.{
  MmapImage, pos, start, current, end, read, seek, new_pos, plus, not_negative, read_at,
}

-- What a parser sees of a mapped image.
unfoldable pub view : MmapImage → Reader
view m = record { image = m.mmap; pos = m.cursor }

slice_empty : (bytes : List ℕ) (at_pos : ℕ) → [] ≡ slice bytes at_pos (at_pos + 0)
unfolding slice
slice_empty bytes at_pos = let nothing : at_pos + 0 - at_pos ≡ 0 = omega arith in rw nothing

-- Reading gives the bytes, and leaves the cursor, as the reader does.
read-view :
    (size : ℕ) (m : MmapImage)
    → ((read size m).0 ≡ (Reader.read size (view m)).0)
      × (view (read size m).1 ≡ (Reader.read size (view m)).1)
unfolding read isomage.Reader.read view slice
read-view size m =
    let remaining : length m.mmap - min m.cursor (length m.mmap) ≡ length m.mmap - m.cursor =
      omega arith in
    elim (Bool-cases (length m.mmap - m.cursor == 0)) [
      | inl at_end ↦
          let gone : length m.mmap - m.cursor ≡ 0 = (==_iff _ _).0 at_end in
          let none_read : min size (length m.mmap - m.cursor) ≡ 0 = omega arith in
          rw (remaining, at_end, none_read)
            (
              ap ok (slice_empty m.mmap m.cursor),
              ap (λ p. record { image = m.mmap; pos = p }) (omega arith),
            )
      | inr inside ↦ rw (remaining, inside) (refl, refl)
    ]

-- Seeking in a mapped image does what the reader does: from the start with any `u64`, by a step
-- forward that stays below 2 ^ 63, and to the end of an image of fewer than 2 ^ 63 bytes.
seek-view :
    (k n : ℕ) (m : MmapImage)
    → m.cursor + n < 2 ^ 63
    → length m.mmap < 2 ^ 63
    → (view (seek (start k) m).1 ≡ (seek_start k (view m)).1)
      × ((seek (start k) m).0 ≡ (seek_start k (view m)).0)
      × (view (seek (current (pos n)) m).1 ≡ (seek_current n (view m)).1)
      × (view (seek (end (pos 0)) m).1 ≡ (seek_end (view m)).1)
      × ((seek (current (pos n)) m).0 ≡ (seek_current n (view m)).0)
      × ((seek (end (pos 0)) m).0 ≡ (seek_end (view m)).0)
unfolding seek new_pos plus not_negative view seek_start seek_current seek_end
seek-view k n m h h' =
    (ground arith, ground arith, ground arith, ground arith, ground arith, ground arith)

-- The slice that `read_at` borrows is what a seek and `read_exact` copy, with the same error at the
-- end of the image, where the offset is below 2 ^ 63 and the end of the range below 2 ^ 64.
read_at-view :
    (m : MmapImage) (offset size : ℕ)
    → offset < 2 ^ 63
    → offset + size < 2 ^ 64
    → read_at m offset size ≡ (Reader.read_at offset size (view m)).0
unfolding read_at isomage.Reader.read_at isomage.Reader.read_exact view
read_at-view m offset size h h' = ground arith

-- A mapped image and the reader do the same. Reading gives the same bytes and cursor; seeking from the
-- start to any offset, forward from the cursor to a position below 2 ^ 63, and to the end of an image
-- of fewer than 2 ^ 63 bytes returns the same position and leaves the same cursor; and for an offset below 2 ^ 63 and a range that
-- ends below 2 ^ 64 the slice that `read_at` borrows is what a seek and `read_exact` copy, with the
-- same error at the end of the image.
pub operations-view :
    (size k n offset : ℕ) (m : MmapImage)
    → m.cursor + n < 2 ^ 63
    → length m.mmap < 2 ^ 63
    → offset < 2 ^ 63
    → offset + size < 2 ^ 64
    → (((read size m).0 ≡ (Reader.read size (view m)).0)
        × (view (read size m).1 ≡ (Reader.read size (view m)).1))
      × ((view (seek (start k) m).1 ≡ (seek_start k (view m)).1)
          × ((seek (start k) m).0 ≡ (seek_start k (view m)).0)
          × (view (seek (current (pos n)) m).1 ≡ (seek_current n (view m)).1)
          × (view (seek (end (pos 0)) m).1 ≡ (seek_end (view m)).1)
          × ((seek (current (pos n)) m).0 ≡ (seek_current n (view m)).0)
          × ((seek (end (pos 0)) m).0 ≡ (seek_end (view m)).0))
      × (read_at m offset size ≡ (Reader.read_at offset size (view m)).0)
operations-view size k n offset m step_near short near ends =
    (read-view size m, seek-view k n m step_near short, read_at-view m offset size near ends)
