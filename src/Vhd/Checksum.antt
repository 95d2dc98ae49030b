-- ===== src/Vhd/Checksum.antt =====
-- The footer checksum of src/formats/vhd.rs against its description: the ones' complement of the
-- sum of all bytes but the four of the checksum.
use isomage.Prelude.{
  ℕ, zero, suc, ◌+◌, ◌-◌, ◌%◌, ◌^◌, ◌≤◌, ◌<◌, ◌≡◌, ◌∙◌, ◌↔◌, refl, true, List, [], ◌∷◌, arith, take,
  drop, Bool-cases, inl, inr, leb, ltb, ◌&&◌, ◌==◌, if◌then◌else◌,
}
use native.Mathlib.Nat.{zero-add}
use isomage.Bytes.{be32}
use isomage.Vhd.{sum_bytes, verify_checksum}

-- The plain sum of the bytes from index `i` on, without those of the checksum field.
counted : ℕ → List ℕ → ℕ
counted i [] = 0
counted i (b ∷ bs) =
    let rest = counted (i + 1) bs in if leb 64 i && ltb i 68 then rest else b + rest

-- The plain sum of a list.
unfoldable pub sum : List ℕ → ℕ
sum [] = 0
sum (b ∷ bs) = b + sum bs

sum_bytes-counted :
    (i acc : ℕ) (bs : List ℕ) → acc < 2 ^ 32 → sum_bytes i acc bs ≡ (acc + counted i bs) % 2 ^ 32
unfolding sum_bytes counted
sum_bytes-counted i acc [] h = omega arith
sum_bytes-counted i acc (b ∷ bs) h = elim (Bool-cases (leb 64 i && ltb i 68)) [
  | inl skip ↦ rw skip (sum_bytes-counted (i + 1) acc bs h)
  | inr add ↦ rw add (sum_bytes-counted (i + 1) ((acc + b) % 2 ^ 32) bs (omega arith) ∙ omega arith)
]

-- Behind the field nothing is left out; before it the sum splits where the field begins.
counted_behind : (i : ℕ) (bs : List ℕ) → 68 ≤ i → counted i bs ≡ sum bs
unfolding counted sum
counted_behind i [] h = refl
counted_behind i (b ∷ bs) h = ground (arith, counted_behind (i + 1) bs)

counted_field : (n i : ℕ) (bs : List ℕ) → i + n ≡ 68 → 64 ≤ i → counted i bs ≡ sum (drop n bs)
unfolding counted sum
counted_field zero i bs e h = counted_behind i bs (omega arith)
counted_field (suc n) i [] e h = refl
counted_field (suc n) i (b ∷ bs) e h = ground (arith, counted_field n (i + 1) bs)

counted_before :
    (n i : ℕ) (bs : List ℕ) → i + n ≡ 64 → counted i bs ≡ sum (take n bs) + sum (drop (n + 4) bs)
unfolding counted sum
counted_before zero i bs e = omega (arith, counted_field 4 i bs (omega arith) (omega arith))
counted_before (suc n) i [] e =
    let more : suc n + 4 ≡ suc (n + 4) = omega arith in rw more (omega arith)
counted_before (suc n) i (b ∷ bs) e =
    let more : suc n + 4 ≡ suc (n + 4) = omega arith in
    rw more (ground (arith, counted_before n (i + 1) bs))

complement_iff : (s b : ℕ) → s < 2 ^ 32 → ((2 ^ 32 - 1 - s == b) ≡ true) ↔ (s + b ≡ 2 ^ 32 - 1)
complement_iff s b h = (λ e. ground arith, λ e. ground arith)

sum_bytes-sum :
    (buf : List ℕ) → sum_bytes 0 0 buf ≡ (sum (take 64 buf) + sum (drop 68 buf)) % 2 ^ 32
sum_bytes-sum buf =
    sum_bytes-counted 0 0 buf (omega arith) ∙ rw (counted_before 64 0 buf (omega arith), zero-add)

-- A footer passes the check exactly if the sum of the bytes outside the checksum field, taken as
-- a `u32`, and the field's big-endian value add up to 2 ^ 32 - 1.
verify_checksum_iff :
    (buf : List ℕ)
    → (verify_checksum buf ≡ true)
      ↔ ((sum (take 64 buf) + sum (drop 68 buf)) % 2 ^ 32 + be32 buf 64 ≡ 2 ^ 32 - 1)
unfolding verify_checksum
verify_checksum_iff buf = rw (sum_bytes-sum buf) (complement_iff _ (be32 buf 64) (omega arith))
