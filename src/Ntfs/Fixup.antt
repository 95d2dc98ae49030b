-- ===== src/Ntfs/Fixup.antt =====
-- src/formats/ntfs.rs, `apply_fixup`: what a record holds after its fix-up.
use isomage.Prelude.{ℕ, suc, ◌+◌, ◌-◌, ◌*◌, ◌≤◌, ◌<◌, ◌≡◌, ◌≢◌, List, length, arith}
use isomage.Bytes.{le16}
use isomage.Ntfs.Record.{fixup_loop}

-- The loop over the sectors from `i` on, with the array in front of the end of the first sector.
module _ (usa_offset : ℕ) where
  fixup_loop-end :
      (left i : ℕ) (buf : List ℕ)
      → length buf < i * 512
      → fixup_loop usa_offset (suc left) i buf ≡ buf
  unfolding fixup_loop
  fixup_loop-end left i buf outside = ground arith

-- Byte `j` is not one of the last two bytes of a sector, counted from 1, that lies in the record and
-- has an entry in the array.
abbrev pub IsOther : List ℕ → ℕ → Type 0
IsOther buf j =
    (t : ℕ)
    → 1 ≤ t
    → t < le16 buf 6
    → t * 512 ≤ length buf
    → (j ≢ t * 512 - 2) × (j ≢ t * 512 - 2 + 1)
