-- ===== src/Cat/Bytes.antt =====
-- src/lib.rs: what `cat_node` writes.
use isomage.Prelude.{
  ℕ, zero, suc, ◌+◌, ◌-◌, ◌*◌, ◌/◌, ◌^◌, ◌≤◌, ◌<◌, ◌≡◌, refl, ap, ◌∙◌, false, List, [], ◌++◌, ◌==◌,
  length, min, max, leb, leb→le, arith, Bool-cases, inl, inr, le→leb, lt→ltb, ok, err,
}
use mathlib.Core.List.{append-nil, append_assoc}
use isomage.Text.{Str}
use isomage.Bytes.{slice, slice-append}
use isomage.Reader.{Reader, unexpected_eof, seek_start, read_exact}
use isomage.Tree.{new_file_with_location}
use isomage.Cat.{
  Writer, io, chunk_size, Outcome, after_write, after_read, cat_loop, after_seek, cat_extent,
  cat_node,
}

-- A `Vec<u8>`: every write succeeds and appends.
unfoldable pub vec_writer : Writer (List ℕ)
vec_writer = record { write_all = λ buf w. (ok tt, w ++ buf) }

read_inside :
    (n : ℕ) (r : Reader)
    → r.pos + n ≤ length r.image
    → read_exact n r ≡ (ok (slice r.image r.pos (r.pos + n)), record r { pos = r.pos + n })
unfolding read_exact
read_inside n r h = rw (le→leb _ _ h) refl

slice_empty : (bytes : List ℕ) (at_pos : ℕ) → slice bytes at_pos (at_pos + 0) ≡ []
unfolding slice
slice_empty bytes at_pos = let nothing : at_pos + 0 - at_pos ≡ 0 = omega arith in rw nothing

-- Nothing is left to copy.
done :
    (r : Reader) (w : List ℕ) (remaining : ℕ)
    → remaining ≡ 0
    → ◌≡◌ {A = Outcome (List ℕ)}
        (ok tt, r, w)
        (ok tt, record r { pos = r.pos + remaining }, w ++ slice r.image r.pos (r.pos + remaining))
done r w remaining e =
    rw (e, slice_empty r.image r.pos, append-nil)
      (ap (λ p. (ok tt, record { image = r.image; pos = p }, w)) (omega arith))

-- A chunk that is appended to a vector.
chunk_written :
    (next : Reader → List ℕ → Outcome (List ℕ)) (r : Reader) (w buf : List ℕ)
    → after_read vec_writer next (ok buf, r) w ≡ next r (w ++ buf)
unfolding after_read after_write vec_writer
chunk_written next r w buf = refl

cat_loop-bytes :
    (fuel remaining : ℕ) (r : Reader) (w : List ℕ)
    → remaining ≤ fuel * chunk_size
    → r.pos + remaining ≤ length r.image
    → cat_loop vec_writer (suc fuel) remaining r w
      ≡ (ok tt, record r { pos = r.pos + remaining }, w ++ slice r.image r.pos (r.pos + remaining))
unfolding cat_loop
cat_loop-bytes zero remaining r w h inside =
    let empty : remaining ≡ 0 = omega arith in rw empty (done r w 0 refl)
cat_loop-bytes (suc fuel) remaining r w h inside = elim (Bool-cases (remaining == 0)) [
  | inl empty ↦ rw empty (done r w remaining (ground arith))
  | inr more ↦
      let n = min remaining chunk_size in
      let r' : Reader = record r { pos = r.pos + n } in
      let w' = w ++ slice r.image r.pos (r.pos + n) in
      let joined : r.pos + n + (remaining - n) ≡ r.pos + remaining = omega arith in
      rw more (
        ap (λ x. after_read vec_writer (cat_loop vec_writer (suc fuel) (remaining - n)) x w)
          (read_inside n r (omega arith))
        ∙ chunk_written (cat_loop vec_writer (suc fuel) (remaining - n)) r' w
            (slice r.image r.pos (r.pos + n))
        ∙ cat_loop-bytes fuel (remaining - n) r' w' (omega arith) (omega arith)
        ∙ rw joined (
            ap (λ bytes. (ok tt, record r { pos = r.pos + remaining }, bytes))
              (append_assoc w _ _
                ∙ ap (λ bytes. w ++ bytes)
                    (slice-append r.image r.pos (r.pos + n) (r.pos + remaining) (omega arith)
                      (omega arith)))))
]

-- For a file whose extent lies in the image, below offset 2 ^ 63, `cat_node` appends exactly the
-- bytes of the extent to a vector, and succeeds.
pub cat_node-bytes :
    (location len : ℕ) (name : Str) (size : ℕ) (r : Reader) (w : List ℕ)
    → location < 2 ^ 63
    → location + len ≤ length r.image
    → cat_node vec_writer (new_file_with_location name size location len) r w
      ≡ (ok tt, record r { pos = location + len }, w ++ slice r.image location (location + len))
unfolding cat_node cat_extent after_seek new_file_with_location seek_start
cat_node-bytes location len name size r w near inside =
    rw (lt→ltb _ _ near) (
      cat_loop-bytes (len / chunk_size + 1) len (record r { pos = location }) w (omega arith)
        inside)

read_outside :
    (n : ℕ) (r : Reader)
    → leb (r.pos + n) (length r.image) ≡ false
    → read_exact n r ≡ (err unexpected_eof, record r { pos = max r.pos (length r.image) })
unfolding read_exact
read_outside n r h = rw h refl

failed :
    (next : Reader → List ℕ → Outcome (List ℕ)) (w : List ℕ) (r : Reader)
    → (after_read vec_writer next (err unexpected_eof, r) w).0 ≡ err (io unexpected_eof)
unfolding after_read
failed next w r = refl

cat_loop-eof :
    (fuel remaining : ℕ) (r : Reader) (w : List ℕ)
    → remaining ≤ fuel * chunk_size
    → r.pos ≤ length r.image
    → length r.image < r.pos + remaining
    → (cat_loop vec_writer (suc fuel) remaining r w).0 ≡ err (io unexpected_eof)
unfolding cat_loop
cat_loop-eof zero remaining r w h start behind = absurd (omega arith)
cat_loop-eof (suc fuel) remaining r w h start behind =
    let n = min remaining chunk_size in
    let next = cat_loop vec_writer (suc fuel) (remaining - n) in
    let more : (remaining == 0) ≡ false = ground arith in
    elim (Bool-cases (leb (r.pos + n) (length r.image))) [
      | inl inside ↦
          let r' : Reader = record r { pos = r.pos + n } in
          let chunk = slice r.image r.pos (r.pos + n) in
          rw more (
            ap (λ x. (after_read vec_writer next x w).0) (read_inside n r (leb→le _ _ inside))
            ∙ ap (λ x. x.0) (chunk_written next r' w chunk)
            ∙ cat_loop-eof fuel (remaining - n) r' (w ++ chunk) (omega arith) (leb→le _ _ inside)
                (omega arith))
      | inr outside ↦ rw more (
          ap (λ x. (after_read vec_writer next x w).0) (read_outside n r outside) ∙ failed next w _)
    ]

-- Where the extent of a file begins in the image, below offset 2 ^ 63, and reaches behind its end,
-- `cat_node` to a vector returns the error of the read at the end of the image.
pub cat_node-eof :
    (location len : ℕ) (name : Str) (size : ℕ) (r : Reader) (w : List ℕ)
    → location < 2 ^ 63
    → location ≤ length r.image
    → length r.image < location + len
    → (cat_node vec_writer (new_file_with_location name size location len) r w).0
      ≡ err (io unexpected_eof)
unfolding cat_node cat_extent after_seek new_file_with_location seek_start
cat_node-eof location len name size r w near start behind = rw (lt→ltb _ _ near) (
    cat_loop-eof (len / chunk_size + 1) len (record r { pos = location }) w (omega arith) start
      behind)
