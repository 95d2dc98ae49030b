-- ===== src/Tar/Progress.antt =====
-- src/formats/tar.rs: the progress of the loop of `scan_entries`.
use isomage.Prelude.{
  ℕ, zero, suc, ◌+◌, ◌-◌, ◌*◌, ◌/◌, ◌≤◌, ◌<◌, Bool-cases, leb, leb→le, inl, inr, true, false, ap,
  sym, subst, max, ◌≡◌, ◌≢◌, refl, ◌∙◌, ◌&&◌, ◌||◌, not, Option, none, List, ltb, ◌==◌, length,
  Result, ok, err, arith,
}
use isomage.Word.{div_ceil}
use isomage.Bytes.{byte, slice, all_zero}
use isomage.Reader.{
  Reader, unexpected_eof, M, ◌>>=◌, ◌>>◌, pure, map_error, seek_start, seek_current, read_exact,
}
use isomage.Reader.Forward.{
  IsForward, MovesForward, fail-MovesForward, pure-MovesForward, if-MovesForward, >>=-MovesForward,
  map_error-MovesForward, seek_current-MovesForward, read_exact-MovesForward,
}
use isomage.Tar.{block_size, Error, not_tar, io, has_ustar_magic, parse_octal, parse_pax}
use isomage.Tar.Scan.{
  State, Step, stop, again, TarEntry, push_entry, skip_padding, read_body, apply_pax,
  after_long_name, header_block, is_none, no_entries, block_step, after_read, after_step, scan_step,
  scan_loop, scan_entries, initial,
}

skip-MovesForward : (n : ℕ) → MovesForward (map_error {F = Error} io (seek_current n))
skip-MovesForward n = map_error-MovesForward io (seek_current n) (seek_current-MovesForward n)

module _ {A B : Type 0} where
  then_pure-MovesForward :
      (m : M Error A) (f : A → B) → MovesForward m → MovesForward (m >>= λ a. pure (f a))
  then_pure-MovesForward m f h =
      >>=-MovesForward m (λ a. pure (f a)) h (λ a. pure-MovesForward Error B (f a))

skip_padding-MovesForward : (n : ℕ) (body : List ℕ) → MovesForward (skip_padding n body)
unfolding skip_padding
skip_padding-MovesForward n body =
    let leftover = div_ceil n block_size * block_size - n in
    if-MovesForward (ltb 0 leftover) (map_error io (seek_current leftover) >> pure body) (pure body)
      (then_pure-MovesForward (map_error io (seek_current leftover)) (λ _. body)
        (skip-MovesForward leftover))
      (pure-MovesForward Error (List ℕ) body)

read_body-MovesForward : (n : ℕ) → MovesForward (read_body n)
unfolding read_body
read_body-MovesForward n =
    >>=-MovesForward (map_error io (read_exact n)) (skip_padding n)
      (map_error-MovesForward io (read_exact n) (read_exact-MovesForward n))
      (skip_padding-MovesForward n)

header_block-MovesForward :
    (block : List ℕ) (pos : ℕ) (st : State) → MovesForward (header_block block pos st)
unfolding header_block
header_block-MovesForward block pos st =
    let t = byte block 156 in
    let n = parse_octal (slice block 124 136) in
    let skip = skip-MovesForward (div_ceil n block_size * block_size) in
    if-MovesForward (t == b'L') _ _
      (then_pure-MovesForward (read_body n) (after_long_name st) (read_body-MovesForward n))
      (if-MovesForward (t == b'K') _ _
        (then_pure-MovesForward _ (λ _. again (record st { consecutive_zero = 0 })) skip)
        (if-MovesForward ((t == b'x') || (t == b'g')) _ _
          (then_pure-MovesForward (read_body n) (λ body. again (apply_pax (parse_pax body) st))
            (read_body-MovesForward n))
          (then_pure-MovesForward _ (λ _. again (push_entry block (pos + block_size) st)) skip)))

block_step-MovesForward :
    (block : List ℕ) (pos : ℕ) (st : State) → MovesForward (block_step block pos st)
unfolding block_step
block_step-MovesForward block pos st =
    if-MovesForward (all_zero block) _ _
      (if-MovesForward (ltb (st.consecutive_zero + 1) 2) _ _
        (pure-MovesForward Error Step
          (again (record st { consecutive_zero = st.consecutive_zero + 1 })))
        (pure-MovesForward Error Step stop))
      (if-MovesForward
        (not (has_ustar_magic block) && no_entries st.entries && is_none st.pending_name) _ _
        (fail-MovesForward Error Step not_tar) (header_block-MovesForward block pos st))

read_exact_inside :
    (n : ℕ) (r : Reader)
    → leb (r.pos + n) (length r.image) ≡ true
    → read_exact n r ≡ (ok (slice r.image r.pos (r.pos + n)), record r { pos = r.pos + n })
unfolding read_exact
read_exact_inside n r h = rw h refl

read_exact_outside :
    (n : ℕ) (r : Reader)
    → leb (r.pos + n) (length r.image) ≡ false
    → read_exact n r ≡ (err unexpected_eof, record r { pos = max r.pos (length r.image) })
unfolding read_exact
read_exact_outside n r h = rw h refl

stop-again : (st : State) → ◌≢◌ {A = Result Error Step} (ok stop) (ok (again st))
stop-again st e = cc

-- A turn that goes on has read a whole block.
scan_step-again :
    (st st' : State) (r : Reader)
    → (scan_step st r).0 ≡ ok (again st')
    → (r.pos + 512 ≤ length r.image) × IsForward (record r { pos = r.pos + 512 }) (scan_step st r).1
unfolding scan_step after_read
scan_step-again st st' r e = elim (Bool-cases (leb (r.pos + 512) (length r.image))) [
  | inl inside ↦
      let block = slice r.image r.pos (r.pos + 512) in
      let after = ap (after_read st r.pos) (read_exact_inside 512 r inside) in
      (
        leb→le _ _ inside,
        subst (λ x. IsForward (record r { pos = r.pos + 512 }) x.1) (sym after)
            (block_step-MovesForward block r.pos st (record r { pos = r.pos + 512 })),
      )
  | inr outside ↦
      let ended = ap (λ x. (after_read st r.pos x).0) (read_exact_outside 512 r outside) in
      absurd (stop-again st' (sym ended ∙ e))
]

after_step-some :
    (next : State → M Error (Option (List TarEntry))) (st : State) (x : Result Error Step × Reader)
    → ((st' : State) → x.0 ≡ ok (again st') → (next st' x.1).0 ≢ ok none)
    → (after_step next st x).0 ≢ ok none
unfolding after_step
after_step-some next st (err e, r) h eq = cc
after_step-some next st (ok stop, r) h eq = cc
after_step-some next st (ok (again st'), r) h eq = h st' refl eq

-- With one turn more than the blocks that are left, the fuel suffices.
scan_loop_fuel :
    (fuel : ℕ) (st : State) (r : Reader)
    → length r.image < fuel * 512 + r.pos
    → 1 ≤ fuel
    → (scan_loop fuel st r).0 ≢ ok none
unfolding scan_loop
scan_loop_fuel zero st r h h1 = omega (arith, h1)
scan_loop_fuel (suc fuel) st r h h1 = after_step-some (scan_loop fuel) st (scan_step st r) (λ st' e.
    let (inside, (same, on)) = scan_step-again st st' r e in
    scan_loop_fuel fuel st' (scan_step st r).1 (omega (arith, h, inside, on, ap length same))
      (omega (arith, h, inside)))

-- `scan_entries` never runs out of its fuel: on every image its loop ends, with the entries or
-- with an error.
pub scan_entries_fuel : (r : Reader) → (scan_entries r).0 ≢ ok none
unfolding scan_entries seek_start
scan_entries_fuel r =
    scan_loop_fuel (length r.image / 512 + 1) initial (record r { pos = 0 }) (omega arith)
      (omega arith)
