-- ===== src/Gpt/Entries.antt =====
-- src/formats/gpt.rs: the partitions that the loop over the entries collects.
use isomage.Prelude.{
  ℕ, zero, suc, ◌+◌, ◌*◌, ◌%◌, ◌^◌, ◌≤◌, ◌<◌, ◌≡◌, ◌∙◌, refl, sym, Bool, true, false, List, [], ◌∷◌,
  ◌++◌, arith, if◌then◌else◌, ok, Bool-cases, inl, inr,
}
use mathlib.Core.List.{append-nil, append_assoc}
use isomage.Bytes.{slice, le64, all_zero}
use isomage.Gpt.{Partition, Header, parse_header_sector, scan_entries, entry_partition, sector_size}

-- The partition entries in use from entry `i` on, in slot order.
unfoldable pub entries : List ℕ → ℕ → ℕ → ℕ → List Partition
entries buf entry_size zero i = []
entries buf entry_size (suc n) i =
    let entry = slice buf (i * entry_size) (i * entry_size + entry_size) in
    let rest = entries buf entry_size n (i + 1) in
    if all_zero (slice entry 0 16) then rest else entry_partition i entry ∷ rest

pushed :
    (b : Bool) (ps rest : List Partition) (p : Partition)
    → (if b then ps else ps ++ p ∷ []) ++ rest ≡ ps ++ (if b then rest else p ∷ rest)
pushed true ps rest p = refl
pushed false ps rest p = append_assoc ps (p ∷ []) rest

pub scan_entries-entries :
    (buf : List ℕ) (entry_size n i : ℕ) (ps : List Partition)
    → scan_entries buf entry_size n i ps ≡ ps ++ entries buf entry_size n i
unfolding scan_entries entries
scan_entries-entries buf z zero i ps = sym (append-nil ps)
scan_entries-entries buf z (suc n) i ps =
    let entry = slice buf (i * z) (i * z + z) in
    let empty = all_zero (slice entry 0 16) in
    scan_entries-entries buf z n (i + 1) (if empty then ps else ps ++ entry_partition i entry ∷ [])
    ∙ pushed empty ps (entries buf z n (i + 1)) (entry_partition i entry)

-- The indices ascend, from `lo` on and below `hi`.
abbrev pub Ascending : ℕ → ℕ → List Partition → Type 0
Ascending lo hi [] = Unit {0}
Ascending lo hi (p ∷ ps) = (lo ≤ p.index) × (p.index < hi) × Ascending (p.index + 1) hi ps

Ascending-weaken :
    (lo mid hi : ℕ) (ps : List Partition) → lo ≤ mid → Ascending mid hi ps → Ascending lo hi ps
Ascending-weaken lo mid hi [] h a = tt
Ascending-weaken lo mid hi (p ∷ ps) h (l, u, rest) = (omega arith, u, rest)

entries-Ascending : (buf : List ℕ) (z n i hi : ℕ) → i + n ≤ hi → Ascending i hi (entries buf z n i)
unfolding entries entry_partition
entries-Ascending buf z zero i hi h = tt
entries-Ascending buf z (suc n) i hi h =
    let rest = entries-Ascending buf z n (i + 1) hi (omega arith) in
    elim (Bool-cases (all_zero (slice (slice buf (i * z) (i * z + z)) 0 16))) [
      | inl e ↦ rw e (Ascending-weaken i (i + 1) hi _ (omega arith) rest)
      | inr e ↦ rw e (omega arith, omega arith, rest)
    ]

-- With a header that `parse_header_sector` accepts, the 128 bytes that the loop reads of each
-- entry lie in the array, and the entry's slice too.
entry_inside :
    (sector : List ℕ) (h : Header) (i : ℕ)
    → parse_header_sector sector ≡ ok h
    → i < h.num_entries
    → (128 ≤ h.entry_size) × (i * h.entry_size + h.entry_size ≤ h.num_entries * h.entry_size)
unfolding parse_header_sector
entry_inside sector h i e lt = (ground arith, grind arith)

-- The first byte of a partition is computed with an overflow, if the entry's first sector is far
-- enough out: it wraps around to a smaller offset.
entry_partition-start_wraps :
    (i : ℕ) (entry : List ℕ)
    → 2 ^ 55 ≤ le64 entry 32
    → ((entry_partition i entry).start < le64 entry 32 * sector_size)
      × ((entry_partition i entry).start ≡ le64 entry 32 % 2 ^ 55 * sector_size)
unfolding entry_partition
entry_partition-start_wraps i entry h = (omega arith, omega arith)
