-- ===== src/Iso9660/RockRidge.antt =====
-- src/iso9660.rs: on which system use areas the search for a Rock Ridge name returns.
use isomage.Prelude.{
  ℕ, zero, suc, ◌+◌, ◌%◌, ◌≤◌, ◌<◌, ◌≡◌, ◌≢◌, ◌⊎◌, refl, List, [], ◌++◌, Option, length, ltb, leb,
  ◌||◌, arith, Bool-cases, inl, inr, true, false, Result, ok, err,
}
use isomage.Text.{Str, codes, str_eq, str_eq_iff}
use isomage.Bytes.{byte, slice}
use isomage.Iso9660.Record.{
  Error, panic, su_start_of, nm_part, entry_part, su_loop, name_of_parts, extract_rock_ridge_name,
}

-- From `offset` on: the entries that follow each other, each behind the end of the one before, up to
-- the first that is too short for its header or does not end in the area; and those that are marked
-- as alternate names have room for their flags.
pub data HasFlags (area : List ℕ) : ℕ → Type 0 where
  no_entry :
      {offset : ℕ}
      → (length area < offset + 4)
        ⊎ ((byte area (offset + 2) < 4) ⊎ (length area < offset + byte area (offset + 2)))
      → HasFlags area offset
  entry :
      {offset : ℕ}
      → 4 ≤ byte area (offset + 2)
      → offset + byte area (offset + 2) ≤ length area
      → (slice area offset (offset + 2) ≡ codes "NM" → 5 ≤ byte area (offset + 2))
      → HasFlags area (offset + byte area (offset + 2))
      → HasFlags area offset

entry_part_total :
    (area : List ℕ) (offset : ℕ) (e : Error)
    → 4 ≤ byte area (offset + 2)
    → offset + byte area (offset + 2) ≤ length area
    → (slice area offset (offset + 2) ≡ codes "NM" → 5 ≤ byte area (offset + 2))
    → entry_part area offset (byte area (offset + 2)) ≢ err e
unfolding entry_part nm_part
entry_part_total area offset e header inside has =
    elim (Bool-cases (str_eq (slice area offset (offset + 2)) (codes "NM"))) [
      | inl marked ↦
          let room : 5 ≤ byte area (offset + 2) = has ((str_eq_iff _ _).0 marked) in
          ground (arith, room, marked)
      | inr other ↦ rw other (λ eq. cc)
    ]

after_part :
    (x : Result Error (List ℕ)) (k : List ℕ → Result Error (List ℕ)) (e : Error)
    → ((e' : Error) → x ≢ err e')
    → ((part : List ℕ) → k part ≢ err e)
    → (let y : Result Error (List ℕ) = elim x [ err e' ↦ err e' | ok part ↦ k part ] in y) ≢ err e
after_part (ok part) k e h h' = h' part
after_part (err e') k e h h' = absurd (h e' refl)

su_loop_total :
    (fuel : ℕ) (area : List ℕ) (offset : ℕ) (parts : List ℕ) (e : Error)
    → HasFlags area offset
    → length area < fuel + offset
    → 1 ≤ fuel
    → su_loop fuel area offset parts ≢ err e
unfolding su_loop
su_loop_total zero area offset parts e has h some_fuel = absurd (omega arith)
su_loop_total (suc fuel) area offset parts e (no_entry last) h some_fuel = ground (arith, last)
su_loop_total (suc fuel) area offset parts e (entry header inside has rest) h some_fuel =
    let long : ltb (length area) (offset + 4) ≡ false = ground arith in
    let good : (ltb (byte area (offset + 2)) 4
          || ltb (length area) (offset + byte area (offset + 2)))
        ≡ false =
      ground (arith, header, inside) in
    rw (long, good)
      (after_part (entry_part area offset (byte area (offset + 2)))
        (λ part. su_loop fuel area (offset + byte area (offset + 2)) (parts ++ part)) e
        (λ e'. entry_part_total area offset e' header inside has)
        (λ part.
          su_loop_total fuel area (offset + byte area (offset + 2)) (parts ++ part) e rest
            (omega (arith, header)) (omega (arith, header, inside))))

-- If, among the entries of the system use area that the search comes to, each that is marked as an
-- alternate name is at least five bytes long, the search for a Rock Ridge name returns: it neither
-- panics nor runs out of fuel.
pub extract_rock_ridge_name_total :
    (bytes : List ℕ) (record_length filename_length : ℕ) (e : Error)
    → HasFlags (slice bytes (su_start_of filename_length) record_length) 0
    → extract_rock_ridge_name bytes record_length filename_length ≢ err e
unfolding extract_rock_ridge_name
extract_rock_ridge_name_total bytes record_length filename_length e has =
    let area = slice bytes (su_start_of filename_length) record_length in
    elim (Bool-cases (leb record_length (su_start_of filename_length))) [
      | inl none_left ↦ rw none_left (λ eq. cc)
      | inr some_left ↦ rw some_left (
          named (su_loop (suc (length area)) area 0 [])
            (λ e'. su_loop_total (suc (length area)) area 0 [] e' has (omega arith) (omega arith)))
    ]
  where
    named :
        (x : Result Error (List ℕ))
        → ((e' : Error) → x ≢ err e')
        → (let y : Result Error (Option Str) = elim x [
          | err e' ↦ err e'
          | ok parts ↦ ok (name_of_parts parts)
        ] in
            y)
          ≢ err e
    named (ok parts) h eq = cc
    named (err e') h eq = h e' refl

-- A record whose system use area begins with an alternate name entry of only four bytes makes the
-- search panic, unless the byte behind the entry has a flag for `.` or `..`.
pub extract_rock_ridge_name-panic :
    (bytes : List ℕ) (record_length filename_length : ℕ)
    → su_start_of filename_length < record_length
    → (let area = slice bytes (su_start_of filename_length) record_length in
        (4 ≤ length area)
        × (slice area 0 2 ≡ codes "NM")
        × (byte area 2 ≡ 4)
        × (byte area 4 % 8 < 2))
    → extract_rock_ridge_name bytes record_length filename_length ≡ err panic
unfolding extract_rock_ridge_name su_loop entry_part nm_part
extract_rock_ridge_name-panic bytes record_length filename_length inside (long, sig, four, flags) =
    let area = slice bytes (su_start_of filename_length) record_length in
    let marked : str_eq (slice area 0 2) (codes "NM") ≡ true = (str_eq_iff _ _).1 sig in
    let long' : ltb (length area) 4 ≡ false = ground arith in ground (arith, flags, four)
