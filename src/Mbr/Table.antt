-- ===== src/Mbr/Table.antt =====
-- What `parse_sector` returns, against the four slots read one by one at their offsets in the
-- sector.
use isomage.Prelude.{
  ℕ, zero, suc, ◌+◌, ◌*◌, ◌^◌, ◌%◌, Option-cases, inl, inr, ◌≤◌, ◌<◌, ◌≡◌, ◌∙◌, refl, sym, Bool,
  true, false, ◌&&◌, ◌||◌, not, List, [], ◌∷◌, ◌++◌, Option, none, some, arith, ltb, ◌==◌,
  if◌then◌else◌, length, ok, err, All,
}
use mathlib.Core.List.{append-nil, append_assoc}
use isomage.Bytes.{IsByte, byte, byte-slice, le32, le32-slice, le32-lt}
use isomage.Mbr.{
  Partition, too_short, bad_signature, protective_mbr, Scan, scan_slot, scan_slots, parse_sector,
  sector_size,
}

-- Slot `i` of the partition table: nothing, if its type code and its sector count are both 0.
unfoldable pub slot : List ℕ → ℕ → Option Partition
slot sector i =
    let off = 0x1be + 16 * i in
    if (byte sector (off + 4) == 0) && (le32 sector (off + 12) == 0)
    then none
    else some (record {
      index = i;
      status = byte sector (off + 0);
      type_code = byte sector (off + 4);
      start = le32 sector (off + 8) * 512;
      len = le32 sector (off + 12) * 512;
    })

-- The slots in use among `n` slots from slot `i` on, in slot order.
unfoldable pub slots : List ℕ → ℕ → ℕ → List Partition
slots sector zero i = []
slots sector (suc n) i =
    let rest = slots sector n (i + 1) in elim (slot sector i) [ none ↦ rest | some p ↦ p ∷ rest ]

-- The table of a GPT disk: one partition, of type 0xEE.
unfoldable pub is_protective : List Partition → Bool
is_protective [] = false
is_protective (p ∷ []) = p.type_code == 0xee
is_protective (p ∷ q ∷ ps) = false

all_protective : List Partition → Bool
all_protective [] = true
all_protective (p ∷ ps) = (p.type_code == 0xee) && all_protective ps

any : List Partition → Bool
any [] = false
any (p ∷ ps) = true

scan_slot_lem :
    (sector : List ℕ) (i : ℕ) (s : Scan)
    → scan_slot sector i s ≡ elim (slot sector i) [
      | none ↦ s
      | some p ↦ record {
        partitions = s.partitions ++ p ∷ [];
        all_ee = (p.type_code == 0xee) && s.all_ee;
        had_any = true;
      }
    ]
unfolding slot
scan_slot_lem sector i s =
    let a = 0x1be + 16 * i in
    unfold scan_slot in
    ground (
      arith,
      byte-slice sector a (a + 16) 0 (omega arith),
      byte-slice sector a (a + 16) 4 (omega arith),
      le32-slice sector a (a + 16) 8 (omega arith),
      le32-slice sector a (a + 16) 12 (omega arith),
    )

-- The loop's variables after `n` more rounds.
abbrev after : Scan → List Partition → Scan
after s ps = record {
  partitions = s.partitions ++ ps;
  all_ee = all_protective ps && s.all_ee;
  had_any = any ps || s.had_any;
}

after_nil : (s : Scan) → after s [] ≡ s
unfolding all_protective any
after_nil s =
    λ i. record { partitions = append-nil s.partitions i; all_ee = s.all_ee; had_any = s.had_any }

after_cons :
    (s : Scan) (p : Partition) (ps : List Partition)
    → after
        (record {
          partitions = s.partitions ++ p ∷ [];
          all_ee = (p.type_code == 0xee) && s.all_ee;
          had_any = true;
        })
        ps
      ≡ after s (p ∷ ps)
unfolding all_protective any
after_cons s p ps = ground (arith, append_assoc s.partitions (p ∷ []) ps)

slots-none :
    (sector : List ℕ) (n i : ℕ)
    → slot sector i ≡ none
    → slots sector (suc n) i ≡ slots sector n (i + 1)
unfolding slots
slots-none sector n i e = rw (e, slots)

slots-some :
    (sector : List ℕ) (n i : ℕ) {p : Partition}
    → slot sector i ≡ some p
    → slots sector (suc n) i ≡ p ∷ slots sector n (i + 1)
unfolding slots
slots-some sector n i e = rw (e, slots)

scan_slots_step :
    (sector : List ℕ) (n i : ℕ) (s : Scan)
    → ((t : Scan) → scan_slots sector n (i + 1) t ≡ after t (slots sector n (i + 1)))
    → scan_slots sector (suc n) i s ≡ after s (slots sector (suc n) i)
unfolding scan_slots
scan_slots_step sector n i s ih = ih (scan_slot sector i s) ∙ (elim (Option-cases (slot sector i)) [
  | inl e ↦ rw (slots-none sector n i e, scan_slot_lem, e)
  | inr (p, e) ↦
      rw (slots-some sector n i e, scan_slot_lem, e) (after_cons s p (slots sector n (i + 1)))
])

scan_slots_lem :
    (sector : List ℕ) (n i : ℕ) (s : Scan) → scan_slots sector n i s ≡ after s (slots sector n i)
scan_slots_lem sector zero i s = unfold scan_slots slots in sym (after_nil s)
scan_slots_lem sector (suc n) i s =
    scan_slots_step sector n i s (λ t. scan_slots_lem sector n (i + 1) t)

flags-is_protective :
    (ps : List Partition)
    → ((any ps || false) && (all_protective ps && true) && (length ps == 1)) ≡ is_protective ps
unfolding any all_protective is_protective
flags-is_protective [] = refl
flags-is_protective (p ∷ []) = ground arith
flags-is_protective (p ∷ q ∷ ps) = ground arith

-- `parse_sector` checks the length and the signature, in this order, then returns the slots in
-- use in slot order; a table that holds one partition, of type 0xEE, is an error.
pub parse_sector-slots :
    (sector : List ℕ)
    → parse_sector sector ≡ (
        if ltb (length sector) sector_size
        then err too_short
        else if not (byte sector 0x1fe == 0x55) || not (byte sector 0x1ff == 0xaa)
        then err bad_signature
        else if is_protective (slots sector 4 0)
        then err protective_mbr
        else ok (slots sector 4 0))
unfolding parse_sector
parse_sector-slots sector =
    let start : Scan = record { partitions = []; all_ee = true; had_any = false } in
    ground (arith, scan_slots_lem sector 4 0 start, flags-is_protective (slots sector 4 0))

-- A byte range that a `u64` holds: in whole sectors, below 2 ^ 42.
pub record IsRange (p : Partition) : Type 0 where
  pub slot_lt : p.index < 4
  pub start_whole : p.start % 512 ≡ 0
  pub len_whole : p.len % 512 ≡ 0
  pub end_lt : p.start + p.len < 2 ^ 42

slot-IsRange :
    (sector : List ℕ) (i : ℕ) {p : Partition}
    → All IsByte sector
    → i < 4
    → slot sector i ≡ some p
    → IsRange p
unfolding slot
slot-IsRange sector i {p} hb h e =
    let off = 0x1be + 16 * i in
    ground (arith, le32-lt sector (off + 8) hb, le32-lt sector (off + 12) hb)

slots-IsRange :
    (sector : List ℕ) (n i : ℕ) → All IsByte sector → n + i ≤ 4 → All IsRange (slots sector n i)
slots-IsRange sector zero i hb h = unfold slots in tt
slots-IsRange sector (suc n) i hb h =
    let rest = slots-IsRange sector n (i + 1) hb (omega arith) in
    elim (Option-cases (slot sector i)) [
      | inl e ↦ rw (slots-none sector n i e) rest
      | inr (p, e) ↦ rw (slots-some sector n i e) (slot-IsRange sector i hb (omega arith) e, rest)
    ]

-- Every partition that `parse_sector` returns for a sector of bytes is a whole number of sectors in one of the four
-- slots, and its end is far from the limit of a `u64`.
parse_sector-IsRange :
    (sector : List ℕ) {ps : List Partition}
    → All IsByte sector
    → parse_sector sector ≡ ok ps
    → All IsRange ps
parse_sector-IsRange sector {ps} hb e =
    ground (arith, parse_sector-slots sector, slots-IsRange sector 4 0 hb (omega arith))
