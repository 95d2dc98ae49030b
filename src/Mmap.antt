-- ===== src/Mmap.antt =====
-- src/image_io/mmap.rs: the memory-mapped image. The mapping itself is the list of its bytes.
pub mod Refines
use isomage.Prelude.{
  ℕ, zero, suc, ◌+◌, ◌-◌, ◌^◌, List, Option, none, some, ltb, leb, ◌==◌, if◌then◌else◌, [], length,
  min, Result, ok, err,
}
use isomage.Bytes.{slice}
use isomage.Reader.{IoError, unexpected_eof, invalid_input}

pub record MmapImage : Type 0 where
  pub mmap : List ℕ
  pub cursor : ℕ

-- A signed offset: `pos n` is n, and `negsuc n` is -(n + 1).
pub data ℤ : Type 0 where
  pos negsuc : ℕ → ℤ

pub data SeekFrom : Type 0 where
  start : ℕ → SeekFrom
  current : ℤ → SeekFrom
  end : ℤ → SeekFrom

unfoldable pub len : MmapImage → ℕ
len m = length m.mmap

-- `read` into a buffer of `size` bytes.
unfoldable pub read : ℕ → MmapImage → Result IoError (List ℕ) × MmapImage
read size m =
    let remaining = length m.mmap - min m.cursor (length m.mmap) in
    let n = min size remaining in
    if remaining == 0
    then (ok [], m)
    else (ok (slice m.mmap m.cursor (m.cursor + n)), record m { cursor = m.cursor + n })

-- An `i64` that is not negative.
unfoldable pub not_negative : ℕ → Option ℕ
not_negative n = if ltb n (2 ^ 63) then some n else none

-- `base as i64 + n`, if the wrapped sum is not negative.
unfoldable pub plus : ℕ → ℤ → Option ℕ
plus base (pos n) = not_negative (base + n)
plus base (negsuc n) = if ltb n base then not_negative (base - suc n) else none

unfoldable pub new_pos : SeekFrom → MmapImage → Option ℕ
new_pos (start n) m = not_negative n
new_pos (current n) m = plus m.cursor n
new_pos (end n) m = plus (length m.mmap) n

unfoldable pub seek : SeekFrom → MmapImage → Result IoError ℕ × MmapImage
seek from m = elim (new_pos from m) [
  | none ↦ (err invalid_input, m)
  | some n ↦ (ok n, record m { cursor = n })
]

-- `read_at` of `RandomAccess`; `checked_add` is on 64 bits.
unfoldable pub read_at : MmapImage → ℕ → ℕ → Result IoError (List ℕ)
read_at m offset size =
    if ltb (offset + size) (2 ^ 64)
    then (if leb (offset + size) (length m.mmap)
        then ok (slice m.mmap offset (offset + size))
        else err unexpected_eof)
    else err unexpected_eof
