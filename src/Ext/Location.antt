-- ===== src/Ext/Location.antt =====
-- src/formats/ext.rs: the location of a file with direct blocks, and the blocks that it has.
use isomage.Prelude.{
  ℕ, zero, suc, ◌+◌, ◌*◌, ◌/◌, ◌%◌, ◌^◌, ◌≤◌, ◌<◌, ◌≡◌, refl, sym, ap, ap₂, ◌∙◌, true, false, ◌||◌,
  List, [], ◌∷◌, ◌++◌, some, ltb, leb, ◌==◌, length, take, get_or, arith, leb→le, le→leb,
  Bool-cases, inl, inr, ok,
}
use mathlib.Core.List.{append-nil, append_assoc}
use native.Mathlib.Nat.{div-add-mod, mod-lt}
use isomage.Word.{add64, mul64, div_ceil}
use isomage.Reader.{Reader, M, pure}
use isomage.Ext.Layout.{Error, Superblock, Inode, block_size}
use isomage.Ext.Blocks.{
  push_blocks, indirect, double_loop, triple_loop, collect_classical_blocks, Covered,
}
use isomage.Ext.Directory.{run, is_run, classical_location}

power_positive : (k : ℕ) → 0 < 2 ^ k
power_positive zero = omega arith
power_positive (suc k) = omega (arith, power_positive k)

block_size_positive : (sb : Superblock) → 0 < block_size sb
unfolding block_size
block_size_positive sb = omega (arith, power_positive sb.log_block_size)

-- As many blocks as the size needs, and no fewer.
div_ceil_bounds :
    (size b : ℕ)
    → 0 < b
    → (size ≤ div_ceil size b * b) × ((n : ℕ) → div_ceil size b ≡ suc n → n * b < size)
div_ceil_bounds size b pos =
    let whole = div-add-mod size b in
    let rest = mod-lt size pos in
    elim (Bool-cases (leb (size % b) 0)) [
      | inl exact ↦
          let none_left = leb→le (size % b) 0 exact in
          rw exact (
            omega (arith, whole, none_left),
            λ n e. omega (arith, whole, none_left, pos, ap (λ q. b * q) e),
          )
      | inr part ↦ rw part (
        omega (arith, whole, rest),
        λ n e.
            let e' : size / b ≡ n = omega (arith, e) in
            let more : 0 < size % b = ground arith in
            omega (arith, whole, more, ap (λ q. b * q) e'),
      )
    ]

is_run-head :
    (blk first : ℕ) (blks : List ℕ)
    → is_run first (blk ∷ blks) ≡ true
    → (blk ≡ first) × (is_run (suc first) blks ≡ true)
unfolding is_run
is_run-head blk first blks h = ground arith

module _ (sb : Superblock) where
  -- Nothing is added once the size is covered.
  push_blocks-covered :
      (size : ℕ) (blks blocks : List ℕ) (covered : ℕ)
      → size ≤ covered
      → (push_blocks sb size blks (blocks, covered)).0 ≡ (blocks, covered)
  unfolding push_blocks
  push_blocks-covered size [] blocks covered h = refl
  push_blocks-covered size (blk ∷ blks) blocks covered h =
      let over : ((blk == 0) || leb size covered) ≡ true = ground arith in rw over refl

  times_suc : (m : ℕ) → suc m * block_size sb ≡ block_size sb + m * block_size sb
  times_suc m = omega arith

  push_blocks-run :
      (size n k first : ℕ) (blks blocks : List ℕ) (covered : ℕ)
      → k ≤ n
      → k ≤ length blks
      → 1 ≤ first
      → is_run first (take k blks) ≡ true
      → size ≤ covered + k * block_size sb
      → ((m : ℕ) → k ≡ suc m → covered + m * block_size sb < size)
      → (push_blocks sb size (take n blks) (blocks, covered)).0
        ≡ (blocks ++ run first k, covered + k * block_size sb)
  unfolding push_blocks is_run run
  push_blocks-run size n zero first blks blocks covered fits long pos runs enough least =
      push_blocks-covered size (take n blks) blocks covered (omega arith)
      ∙ ap₂ (λ x y. (x, y)) (sym (append-nil blocks)) (omega arith)
  push_blocks-run size zero (suc k) first blks blocks covered fits long pos runs enough least =
      absurd (omega arith)
  push_blocks-run size (suc n) (suc k) first [] blocks covered fits long pos runs enough least =
      absurd (omega arith)
  push_blocks-run size (suc n) (suc k) first (blk ∷ blks) blocks covered fits long pos runs enough
        least =
      let (same, following) = is_run-head blk first (take k blks) runs in
      let here : ((blk == 0) || leb size covered) ≡ false =
        let below = least k refl in ground (arith, below, same) in
      let wider : suc k * block_size sb ≡ block_size sb + k * block_size sb = omega arith in
      rw here (
        push_blocks-run size n k (suc first) blks (blocks ++ blk ∷ []) (covered + block_size sb)
          (omega arith) (omega arith) (omega arith) following (omega (arith, enough, wider))
          (λ m e. omega (arith, least (suc m) (ap suc e), times_suc m))
        ∙ ap₂ (λ x y. (x, y))
            (append_assoc blocks (blk ∷ []) (run (suc first) k)
              ∙ ap (λ b. blocks ++ b ∷ run (suc first) k) same)
            (omega arith))

indirect-covered :
    (sb : Superblock) (base_offset size p : ℕ) (loop : List ℕ → Covered → M Error Covered)
    (acc : Covered)
    → size ≤ acc.1
    → indirect sb base_offset size p loop acc ≡ pure acc
unfolding indirect
indirect-covered sb base_offset size p loop acc h = rw (le→leb size acc.1 h) refl

-- Where a file of block pointers gets a location, its data are the consecutive blocks from there,
-- as many as its size needs: those that following the pointers gives, without a read.
pub classical_location-collect_classical_blocks :
    (sb : Superblock) (base_offset : ℕ) (inode : Inode) (offset : ℕ) (r : Reader)
    → length inode.i_block ≡ 15
    → 0 < inode.size
    → classical_location sb base_offset inode ≡ some offset
    → (let first = get_or inode.i_block 0 0 in
        (offset ≡ add64 base_offset (mul64 first (block_size sb)))
        × (collect_classical_blocks sb base_offset inode inode.size r
            ≡ (ok (run first (div_ceil inode.size (block_size sb))), r)))
unfolding classical_location collect_classical_blocks
classical_location-collect_classical_blocks sb base_offset inode offset r all some_bytes located =
    let first = get_or inode.i_block 0 0 in
    let needed = div_ceil inode.size (block_size sb) in
    let few : ltb 12 needed ≡ false = ground (arith, located) in
    let used : (first == 0) ≡ false = ground (arith, located) in
    let runs : is_run first (take needed inode.i_block) ≡ true = ground (arith, located) in
    let b = block_size sb in
    let (enough, least) = div_ceil_bounds inode.size b (block_size_positive sb) in
    let pushed =
      push_blocks-run sb inode.size 12 needed first inode.i_block [] 0 (ground arith) (ground arith)
        (ground arith) runs (omega (arith, enough)) (λ m e. omega (arith, least m e)) in
    let data_blocks : Covered = (run first needed, 0 + needed * b) in
    let indirect_covered : (p : ℕ) (loop : List ℕ → Covered → M Error Covered)
        → indirect sb base_offset inode.size p loop data_blocks ≡ pure data_blocks =
      λ p loop.
        indirect-covered sb base_offset inode.size p loop data_blocks (omega (arith, enough)) in
    (
      ground (arith, located),
      rw
          (
            pushed,
            indirect_covered (get_or inode.i_block 12 0)
                (λ ptrs acc. pure (push_blocks sb inode.size ptrs acc).0),
          )
          (rw (indirect_covered (get_or inode.i_block 13 0) (double_loop sb base_offset inode.size))
            (rw
              (indirect_covered (get_or inode.i_block 14 0) (triple_loop sb base_offset inode.size))
              refl)),
    )
