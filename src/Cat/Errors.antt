-- ===== src/Cat/Errors.antt =====
-- src/lib.rs: the errors that `cat_node` does not return.
use isomage.Prelude.{
  ℕ, zero, suc, ◌+◌, ◌-◌, ◌*◌, ◌/◌, ◌≤◌, ◌≡◌, ◌≢◌, true, false, List, Option, none, some, ◌==◌, min,
  arith, Bool-cases, inl, inr, Result, ok, err,
}
use isomage.Reader.{Reader, IoError, seek_start, read_exact}
use isomage.Tree.{TreeNode, node}
use isomage.Cat.{
  WriteError, broken_pipe, other, Writer, Error, write, no_fuel, chunk_size, Outcome, after_write,
  after_read, cat_loop, after_seek, cat_extent, cat_node,
}

data NotReturned : Error → Type 0 where
  out_of_fuel : NotReturned no_fuel
  closed_pipe : NotReturned (write broken_pipe)

module _ {W : Type 0} (writer : Writer W) where
  after_write-ne :
      (next : Reader → W → Outcome W) (r : Reader) (x : Result WriteError (Unit {0}) × W)
      {e : Error}
      → NotReturned e
      → ((w : W) → (next r w).0 ≢ err e)
      → (after_write writer next r x).0 ≢ err e
  unfolding after_write
  after_write-ne next r (ok done, w) bad h eq = h w eq
  after_write-ne next r (err broken_pipe, w) bad h eq = cc
  after_write-ne next r (err other, w) out_of_fuel h eq = cc
  after_write-ne next r (err other, w) closed_pipe h eq = cc

  after_read-ne :
      (next : Reader → W → Outcome W) (x : Result IoError (List ℕ) × Reader) (w : W) {e : Error}
      → NotReturned e
      → ((r : Reader) (w' : W) → (next r w').0 ≢ err e)
      → (after_read writer next x w).0 ≢ err e
  unfolding after_read
  after_read-ne next (ok buf, r) w bad h eq =
      after_write-ne next r (writer.write_all buf w) bad (h r) eq
  after_read-ne next (err e', r) w out_of_fuel h eq = cc
  after_read-ne next (err e', r) w closed_pipe h eq = cc

  cat_loop-ne :
      (fuel remaining : ℕ) (r : Reader) (w : W) {e : Error}
      → NotReturned e
      → remaining ≤ fuel * chunk_size
      → (cat_loop writer (suc fuel) remaining r w).0 ≢ err e
  unfolding cat_loop
  cat_loop-ne zero remaining r w bad h =
      let empty : (remaining == 0) ≡ true = ground arith in rw empty (λ eq. cc)
  cat_loop-ne (suc fuel) remaining r w bad h = elim (Bool-cases (remaining == 0)) [
    | inl empty ↦ rw empty (λ eq. cc)
    | inr more ↦
        let n = min remaining chunk_size in
        rw more (
          after_read-ne (cat_loop writer (suc fuel) (remaining - n)) (read_exact n r) w bad
            (λ r' w'. cat_loop-ne fuel (remaining - n) r' w' bad (omega arith)))
  ]

  after_seek-ne :
      (len : ℕ) (x : Result IoError ℕ × Reader) (w : W) {e : Error}
      → NotReturned e
      → (after_seek writer len x w).0 ≢ err e
  unfolding after_seek
  after_seek-ne len (ok start, r) w bad eq =
      cat_loop-ne (len / chunk_size + 1) len r w bad (omega arith) eq
  after_seek-ne len (err e', r) w out_of_fuel eq = cc
  after_seek-ne len (err e', r) w closed_pipe eq = cc

  cat_extent-ne :
      (location len : Option ℕ) (r : Reader) (w : W) {e : Error}
      → NotReturned e
      → (cat_extent writer location len r w).0 ≢ err e
  unfolding cat_extent
  cat_extent-ne (some location) (some len) r w bad eq =
      after_seek-ne len (seek_start location r) w bad eq
  cat_extent-ne none len r w out_of_fuel eq = cc
  cat_extent-ne none len r w closed_pipe eq = cc
  cat_extent-ne (some location) none r w out_of_fuel eq = cc
  cat_extent-ne (some location) none r w closed_pipe eq = cc

  cat_node-ne :
      (t : TreeNode) (r : Reader) (w : W) {e : Error}
      → NotReturned e
      → (cat_node writer t r w).0 ≢ err e
  unfolding cat_node
  cat_node-ne (node name size false children location len) r w bad eq =
      cat_extent-ne location len r w bad eq
  cat_node-ne (node name size true children location len) r w out_of_fuel eq = cc
  cat_node-ne (node name size true children location len) r w closed_pipe eq = cc

-- With any writer `cat_node` ends within its fuel, and a broken pipe is never its error.
pub cat_node-no_error :
    (W : Type 0) (writer : Writer W) (t : TreeNode) (r : Reader) (w : W)
    → ((cat_node writer t r w).0 ≢ err no_fuel)
      × ((cat_node writer t r w).0 ≢ err (write broken_pipe))
cat_node-no_error W writer t r w =
    (cat_node-ne writer t r w out_of_fuel, cat_node-ne writer t r w closed_pipe)
