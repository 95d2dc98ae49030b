-- ===== src/Ext/Blocks.antt =====
-- src/formats/ext.rs: which blocks hold the data of an inode, by its extent tree or by its block
-- pointers.
use isomage.Prelude.{
  ℕ, zero, suc, ◌+◌, ◌*◌, ◌/◌, ◌%◌, ◌^◌, Bool, true, false, ◌||◌, not, List, [], ◌∷◌, ◌++◌, Option,
  none, some, ltb, leb, ◌==◌, if◌then◌else◌, length, take, get_or,
}
use isomage.Bytes.{le16, le32}
use isomage.Reader.{M, ◌>>=◌, pure}
use isomage.Ext.Layout.{Error, Superblock, Inode, block_size, read_block}

pub record Extent : Type 0 where
  pub len : ℕ
  pub phys : ℕ
  pub unwritten : Bool

abbrev pub extent_magic : ℕ
extent_magic = 0xF30A

-- The number of entries, and the depth.
unfoldable pub parse_extent_header : List ℕ → Option (ℕ × ℕ)
parse_extent_header bytes =
    if ltb (length bytes) 12
    then none
    else if not (le16 bytes 0 == extent_magic)
    then none
    else some (le16 bytes 2, le16 bytes 6)

unfoldable pub leaf_extent : List ℕ → ℕ → Extent
leaf_extent bytes off = record {
  len = le16 bytes (off + 4) % 2 ^ 15;
  phys = le16 bytes (off + 6) * 2 ^ 32 + le32 bytes (off + 8);
  unwritten = le16 bytes (off + 4) / 2 ^ 15 % 2 == 1;
}

-- The entries that are left, from `off` on.
unfoldable pub leaf_loop : ℕ → List ℕ → ℕ → List Extent
leaf_loop zero bytes off = []
leaf_loop (suc entries) bytes off =
    let rest = leaf_loop entries bytes (off + 12) in
    if ltb (length bytes) (off + 12) then [] else leaf_extent bytes off ∷ rest

unfoldable pub parse_leaf_extents : List ℕ → ℕ → List Extent
parse_leaf_extents bytes entries = leaf_loop entries bytes 12

unfoldable pub idx_loop : ℕ → List ℕ → ℕ → List ℕ
idx_loop zero bytes off = []
idx_loop (suc entries) bytes off =
    let rest = idx_loop entries bytes (off + 12) in
    let leaf = le16 bytes (off + 8) * 2 ^ 32 + le32 bytes (off + 4) in
    if ltb (length bytes) (off + 12) then [] else leaf ∷ rest

-- The blocks of the children.
unfoldable pub parse_idx_entries : List ℕ → ℕ → List ℕ
parse_idx_entries bytes entries = idx_loop entries bytes 12

unfoldable pub word_bytes : List ℕ → List ℕ
word_bytes [] = []
word_bytes (w ∷ ws) = w % 256 ∷ w / 256 % 256 ∷ w / 2 ^ 16 % 256 ∷ w / 2 ^ 24 % 256 ∷ word_bytes ws

unfoldable pub pointers : ℕ → List ℕ → ℕ → List ℕ
pointers zero buf off = []
pointers (suc count) buf off = le32 buf off ∷ pointers count buf (off + 4)

-- The blocks so far, and how many bytes they cover.
abbrev pub Covered : Type 0
Covered = List ℕ × ℕ

module _ (sb : Superblock) where
  -- Whether a zero pointer or the size ended the loop.
  unfoldable pub push_blocks : ℕ → List ℕ → Covered → Covered × Bool
  push_blocks size [] acc = (acc, false)
  push_blocks size (blk ∷ blks) (blocks, covered) =
      let rest = push_blocks size blks (blocks ++ blk ∷ [], covered + block_size sb) in
      if (blk == 0) || leb size covered then ((blocks, covered), true) else rest

module _ (sb : Superblock) (base_offset : ℕ) where
  -- The extents of the children, one after the other; `collect` takes those of one child.
  unfoldable pub child_loop : (List ℕ → M Error (List Extent)) → List ℕ → M Error (List Extent)
  child_loop collect [] = pure []
  child_loop collect (leaf ∷ leaves) = do
    block_buf ← read_block sb base_offset leaf
    child_extents ← collect block_buf
    rest ← child_loop collect leaves
    pure (child_extents ++ rest)

  unfoldable pub of_header : M Error (List Extent) → List ℕ → Option (ℕ × ℕ) → M Error (List Extent)
  of_header inner node_data none = pure []
  of_header inner node_data (some (entries, depth)) =
      if depth == 0 then pure (parse_leaf_extents node_data entries) else inner

  abbrev entries_of : Option (ℕ × ℕ) → ℕ
  entries_of none = 0
  entries_of (some (entries, depth)) = entries

  unfoldable pub collect_extents : ℕ → List ℕ → M Error (List Extent)
  collect_extents zero node_data = of_header (pure []) node_data (parse_extent_header node_data)
  collect_extents (suc remaining_depth) node_data =
      of_header
        (child_loop (collect_extents remaining_depth)
          (parse_idx_entries node_data (entries_of (parse_extent_header node_data))))
        node_data (parse_extent_header node_data)

  -- The extents of an inode, whose pointers are the root of the tree.
  unfoldable pub inode_extents : Inode → M Error (List Extent)
  inode_extents inode = collect_extents 5 (word_bytes inode.i_block)

  unfoldable pub read_ptr_block : ℕ → M Error (List ℕ)
  read_ptr_block block_num = do
    buf ← read_block sb base_offset block_num
    pure (pointers (length buf / 4) buf 0)

  unfoldable pub double_loop : ℕ → List ℕ → Covered → M Error Covered
  double_loop size [] acc = pure acc
  double_loop size (l1ptr ∷ l1) acc =
      let step : M Error Covered = read_ptr_block l1ptr >>= λ l2.
      let pushed = push_blocks sb size l2 acc in
      if pushed.1 then pure pushed.0 else double_loop size l1 pushed.0 in
      if (l1ptr == 0) || leb size acc.1 then pure acc else step

  -- The middle loop of the triple pointers, and whether it ends the outer loop too.
  unfoldable pub middle_loop : ℕ → List ℕ → Covered → M Error (Covered × Bool)
  middle_loop size [] acc = pure (acc, false)
  middle_loop size (l2ptr ∷ l2) acc =
      let step : M Error (Covered × Bool) = read_ptr_block l2ptr >>= λ l3.
      let pushed = push_blocks sb size l3 acc in
      if pushed.1 then pure (pushed.0, false) else middle_loop size l2 pushed.0 in
      if (l2ptr == 0) || leb size acc.1 then pure (acc, true) else step

  unfoldable pub triple_loop : ℕ → List ℕ → Covered → M Error Covered
  triple_loop size [] acc = pure acc
  triple_loop size (l1ptr ∷ l1) acc =
      let step : M Error Covered = read_ptr_block l1ptr >>= λ l2.
      middle_loop size l2 acc >>= λ pushed.
      if pushed.1 then pure pushed.0 else triple_loop size l1 pushed.0 in
      if (l1ptr == 0) || leb size acc.1 then pure acc else step

  -- One level of indirection, unless the size is covered or the pointer is zero.
  unfoldable pub indirect : ℕ → ℕ → (List ℕ → Covered → M Error Covered) → Covered → M Error Covered
  indirect size pointer loop acc =
      if leb size acc.1 || (pointer == 0)
      then pure acc
      else (read_ptr_block pointer >>= λ ptrs. loop ptrs acc)

  unfoldable pub collect_classical_blocks : Inode → ℕ → M Error (List ℕ)
  collect_classical_blocks inode size = do
    single ←
        indirect size (get_or inode.i_block 12 0)
          (λ ptrs acc. pure (push_blocks sb size ptrs acc).0)
          (push_blocks sb size (take 12 inode.i_block) ([], 0)).0
    double ← indirect size (get_or inode.i_block 13 0) (double_loop size) single
    triple ← indirect size (get_or inode.i_block 14 0) (triple_loop size) double
    pure triple.0
