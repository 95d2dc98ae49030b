-- ===== src/Udf/Loops.antt =====
-- src/udf.rs: the loops over allocation descriptors.
use isomage.Prelude.{
  ℕ, zero, suc, ◌+◌, ◌/◌, ◌%◌, ◌^◌, ◌≤◌, ◌<◌, ◌≢◌, ap, ◌&&◌, List, [], ◌∷◌, ◌++◌, Option, none,
  some, length, ltb, leb, ◌==◌, arith, Bool-cases, inl, inr, Result, ok, err, if◌then◌else◌,
}
use isomage.Bytes.{le32}
use isomage.Udf.Allocation.{
  Error, no_extents, no_fuel, ExtentAd, FileAllocation, ad_loop, from_loop, by_ad_type,
  check_allocation, allocation_at, get_file_allocation,
}

-- Descriptors of `width` bytes.
ad_loop_fuel :
    (fuel width : ℕ) (fe_buffer : List ℕ) (limit pos : ℕ) (extents : List ExtentAd) (total : ℕ)
    → 1 ≤ width
    → 1 ≤ fuel
    → length fe_buffer < fuel + pos
    → ad_loop fuel width fe_buffer limit pos extents total ≢ err no_fuel
unfolding ad_loop
ad_loop_fuel zero width fe_buffer limit pos extents total wide some_fuel h = absurd (omega arith)
ad_loop_fuel (suc fuel) width fe_buffer limit pos extents total wide some_fuel h =
    let len = le32 fe_buffer pos % 2 ^ 30 in
    let extent : ExtentAd = record { len = len; location = le32 fe_buffer (pos + 4) } in
    let extents' = if le32 fe_buffer pos / 2 ^ 30 == 0 then extents ++ extent ∷ [] else extents in
    elim (Bool-cases (leb (pos + width) (length fe_buffer) && ltb pos limit)) [
      | inr over ↦ rw over (λ e. cc)
      | inl more ↦
          let rest =
            ad_loop_fuel fuel width fe_buffer limit (pos + width) extents' (total + len) wide
              (ground arith) (omega arith) in
          ground (arith, rest)
    ]

from_loop-ne : (x : Result Error (List ExtentAd × ℕ)) → x ≢ err no_fuel → from_loop x ≢ err no_fuel
unfolding from_loop
from_loop-ne (ok found) h e = cc
from_loop-ne (err e') h e =
    h (ap (λ (y : Result Error FileAllocation). elim y [ ok a ↦ ok ([], 0) | err e'' ↦ err e'' ]) e)

check_allocation-ne :
    (x : Result Error FileAllocation) → x ≢ err no_fuel → check_allocation x ≢ err no_fuel
unfolding check_allocation
check_allocation-ne (ok alloc) h = checked alloc.extents alloc.inline_data
  where
    checked :
        (extents : List ExtentAd) (inline_data : Option (List ℕ))
        → (let x : Result Error FileAllocation = elim extents [
          | extent ∷ others ↦ ok alloc
          | [] ↦ elim inline_data [ none ↦ err no_extents | some bytes ↦ ok alloc ]
        ] in
            x)
          ≢ err no_fuel
    checked [] none e = cc
    checked [] (some bytes) e = cc
    checked (extent ∷ others) inline_data e = cc
check_allocation-ne (err e') h = h

by_ad_type-ne :
    (ad_type : ℕ) (fe_buffer : List ℕ) (ad_offset ad_length : ℕ)
    → by_ad_type ad_type fe_buffer ad_offset ad_length ≢ err no_fuel
unfolding by_ad_type
by_ad_type-ne ad_type fe_buffer ad_offset ad_length =
    let loop : (width : ℕ)
        → 1 ≤ width
        → from_loop (
            ad_loop (suc (length fe_buffer)) width fe_buffer (ad_offset + ad_length) ad_offset [] 0)
          ≢ err no_fuel =
      λ width wide. from_loop-ne _ (
        ad_loop_fuel (suc (length fe_buffer)) width fe_buffer (ad_offset + ad_length) ad_offset [] 0
          wide (omega arith) (omega arith)) in
    ground (arith, loop 8 (omega arith), loop 16 (omega arith))

-- Whatever the bytes of a file entry are, the loop over its descriptors ends within its fuel.
pub get_file_allocation_fuel : (fe_buffer : List ℕ) → get_file_allocation fe_buffer ≢ err no_fuel
unfolding get_file_allocation allocation_at
get_file_allocation_fuel fe_buffer =
    let at_base : (a b c : ℕ) → allocation_at fe_buffer a b c ≢ err no_fuel =
      λ a b c. check_allocation-ne _ (by_ad_type-ne _ fe_buffer _ _) in
    ground (arith, at_base 168 172 176, at_base 208 212 216)
