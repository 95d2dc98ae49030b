-- ===== src/Ntfs/Walk.antt =====
-- src/formats/ntfs.rs: the walks over attributes and runs, and the records that are too short.
use isomage.Prelude.{
  ℕ, zero, suc, ◌+◌, ◌*◌, ◌^◌, ◌≤◌, ◌<◌, ◌≡◌, ◌⊎◌, Bool-cases, ==_iff, false, sym, inl, inr, refl,
  ◌∙◌, ap, List, [], Option, ◌==◌, length, Result, ok, err, arith,
}
use isomage.Bytes.{byte, slice, length-slice, byte-slice, le16, le32}
use isomage.Reader.{
  Reader, M, seek_start, read_exact, map_error, lift, pure, ◌>>=◌, stream_position,
}
use isomage.Reader.Laws.{bind_ok, bind_err, seek_start_near, read_exact_inside}
use isomage.Ntfs.Record.{
  Error, panic, io, BootSector, parse_boot_sector, record_size_of, check_record, after_record,
  read_mft_record,
}
use isomage.Ntfs.Attributes.{attribute_loop}
use isomage.Ntfs.{
  record_offset, mft_loop, slot_info, push_info, read_boot_sector, too_short_error,
  detect_and_parse, max_records, max_levels, root_or_error, build_tree_recursive, root_mft_record,
}
use isomage.Text.{codes}
use isomage.Tree.{TreeNode}

==-pos : (a : ℕ) → (a == 0) ≡ false → 0 < a
==-pos a h = ground arith

attribute_loop-step :
    (fuel more pos : ℕ) (buf : List ℕ)
    → attribute_loop more buf (pos + le32 buf (pos + 4))
      ≡ attribute_loop fuel buf (pos + le32 buf (pos + 4))
    → attribute_loop (suc more) buf pos ≡ attribute_loop (suc fuel) buf pos
unfolding attribute_loop
attribute_loop-step fuel more pos buf e = rw e refl

-- The walk stops at an attribute without a length, and behind the record.
attribute_loop-zero :
    (fuel more pos : ℕ) (buf : List ℕ)
    → le32 buf (pos + 4) ≡ 0
    → attribute_loop (suc more) buf pos ≡ attribute_loop (suc fuel) buf pos
unfolding attribute_loop
attribute_loop-zero fuel more pos buf e = ground arith

attribute_loop-behind :
    (fuel pos : ℕ) (buf : List ℕ) → length buf ≤ pos → attribute_loop fuel buf pos ≡ ok []
unfolding attribute_loop
attribute_loop-behind zero pos buf h = refl
attribute_loop-behind (suc fuel) pos buf h = ground arith

-- The walk over the attributes has stopped by itself when its fuel is used up: with fuel for every
-- byte that is left, more fuel gives the same.
pub attribute_loop_fuel :
    (fuel more pos : ℕ) (buf : List ℕ)
    → length buf ≤ pos + fuel
    → fuel ≤ more
    → attribute_loop more buf pos ≡ attribute_loop fuel buf pos
attribute_loop_fuel zero more pos buf enough le =
    attribute_loop-behind more pos buf (omega arith)
    ∙ sym (attribute_loop-behind zero pos buf (omega arith))
attribute_loop_fuel (suc fuel) zero pos buf enough le = absurd (omega arith)
attribute_loop_fuel (suc fuel) (suc more) pos buf enough le =
    elim (Bool-cases (le32 buf (pos + 4) == 0)) [
      | inl stop ↦ attribute_loop-zero fuel more pos buf ((==_iff _ 0).0 stop)
      | inr long ↦ attribute_loop-step fuel more pos buf (
          attribute_loop_fuel fuel more (pos + le32 buf (pos + 4)) buf
            (omega (arith, ==-pos (le32 buf (pos + 4)) long)) (omega arith))
    ]

-- A record of fewer than four bytes has no room for the signature.
check_record-short : (buf : List ℕ) → length buf < 4 → check_record buf ≡ err panic
unfolding check_record
check_record-short buf short = ground arith

boot_record_size :
    (buf : List ℕ) (boot : BootSector)
    → parse_boot_sector buf ≡ ok boot
    → boot.mft_record_size ≡ record_size_of (byte buf 64) (le16 buf 11 * byte buf 13)
unfolding parse_boot_sector
boot_record_size buf boot h = ground arith

tiny_size :
    (cpfrs cluster_size : ℕ) → (cpfrs ≡ 0) ⊎ (cpfrs ≡ 255) → record_size_of cpfrs cluster_size ≤ 2
unfolding record_size_of
tiny_size cpfrs cluster_size (inl e) = rw e (omega arith)
tiny_size cpfrs cluster_size (inr e) = rw e (omega arith)

read_mft_record-short :
    (offset n : ℕ) (r : Reader)
    → n < 4
    → offset < 2 ^ 63
    → offset + n ≤ length r.image
    → (read_mft_record offset n r).0 ≡ err panic
unfolding read_mft_record after_record
read_mft_record-short offset n r short near within =
    ap (λ (x : Result Error (Option (List ℕ)) × Reader). x.0)
      (bind_ok (map_error io (seek_start offset)) (λ _ r'. after_record (read_exact n r')) r
          (seek_start_near io offset r near)
        ∙ ap after_record (read_exact_inside n (record r { pos = offset }) within))
    ∙ check_record-short (slice r.image offset (offset + n))
        (omega (arith, length-slice r.image offset (offset + n) within))

mft_loop-panic :
    (buf : List ℕ) (boot : BootSector) (base left : ℕ) (r : Reader)
    → parse_boot_sector buf ≡ ok boot
    → (byte buf 64 ≡ 0) ⊎ (byte buf 64 ≡ 255)
    → record_offset base boot 0 < 2 ^ 63
    → record_offset base boot 0 + 2 ≤ length r.image
    → (mft_loop base boot (suc left) 0 r).0 ≡ err panic
unfolding mft_loop
mft_loop-panic buf boot base left r accepted tiny near within =
    let tiny_record : boot.mft_record_size ≤ 2 =
      rw (boot_record_size buf boot accepted)
        (tiny_size (byte buf 64) (le16 buf 11 * byte buf 13) tiny) in
    bind_err (read_mft_record (record_offset base boot 0) boot.mft_record_size)
      (λ slot. lift (slot_info base boot 0 slot) >>= λ info.
        mft_loop base boot left 1 >>= λ records. pure (push_info info records))
      r
      (read_mft_record-short (record_offset base boot 0) boot.mft_record_size r (omega arith) near
        (omega arith))

read_boot_sector_inside :
    (r : Reader) (boot : BootSector)
    → r.pos < 2 ^ 63
    → r.pos + 512 ≤ length r.image
    → parse_boot_sector (slice r.image r.pos (r.pos + 512)) ≡ ok boot
    → read_boot_sector r.pos r ≡ (ok boot, record r { pos = r.pos + 512 })
unfolding read_boot_sector
read_boot_sector_inside r boot near within accepted =
    bind_ok (map_error io (seek_start r.pos))
      (λ _. map_error too_short_error (read_exact 512) >>= λ boot_buf.
        lift (parse_boot_sector boot_buf))
      r (seek_start_near io r.pos r near)
    ∙ bind_ok (map_error too_short_error (read_exact 512))
        (λ boot_buf. lift (parse_boot_sector boot_buf)) (record r { pos = r.pos })
        (ap (λ x. map_error too_short_error (λ r'. x) (record r { pos = r.pos }))
          (read_exact_inside 512 (record r { pos = r.pos }) within))
    ∙ ap
        (λ (x : Result Error BootSector).
          let y : Result Error BootSector × Reader = (x, record r { pos = r.pos + 512 }) in y)
        accepted

-- A boot sector that is accepted with 0 or -1 in byte 64 makes the parser panic, if the table of
-- files begins in the image.
pub detect_and_parse-panic :
    (r : Reader) (boot : BootSector)
    → r.pos < 2 ^ 63
    → r.pos + 512 ≤ length r.image
    → parse_boot_sector (slice r.image r.pos (r.pos + 512)) ≡ ok boot
    → (byte r.image (r.pos + 64) ≡ 0) ⊎ (byte r.image (r.pos + 64) ≡ 255)
    → record_offset r.pos boot 0 < 2 ^ 63
    → record_offset r.pos boot 0 + 2 ≤ length r.image
    → (detect_and_parse r).0 ≡ err panic
unfolding detect_and_parse stream_position
detect_and_parse-panic r boot near within accepted tiny first first_within =
    let same : byte (slice r.image r.pos (r.pos + 512)) 64 ≡ byte r.image (r.pos + 64) =
      byte-slice r.image r.pos (r.pos + 512) 64 (omega arith) in
    let tail : ℕ → BootSector → M Error TreeNode = λ base boot.
      (mft_loop base boot max_records 0 >>= λ records.
      lift (root_or_error (build_tree_recursive records max_levels root_mft_record (codes "/")))) in
    ap (λ (x : Result Error TreeNode × Reader). x.0)
      (bind_ok (read_boot_sector r.pos) (tail r.pos) r
        (read_boot_sector_inside r boot near within accepted))
    ∙ bind_err (mft_loop r.pos boot max_records 0)
        (λ records.
          lift
            (root_or_error (build_tree_recursive records max_levels root_mft_record (codes "/"))))
        (record r { pos = r.pos + 512 })
        (mft_loop-panic (slice r.image r.pos (r.pos + 512)) boot r.pos 1000000
          (record r { pos = r.pos + 512 }) accepted (rw same tiny) first first_within)
