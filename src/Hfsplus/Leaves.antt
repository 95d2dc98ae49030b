-- ===== src/Hfsplus/Leaves.antt =====
-- src/formats/hfsplus.rs, `read_catalog_leaf_records`: the chain of the leaves.
use isomage.Prelude.{
  ℕ, zero, suc, ◌+◌, ◌*◌, ◌^◌, ◌≤◌, ◌<◌, ◌≡◌, ◌≢◌, refl, ◌↔◌, inl, inr, sym, subst, ◌∙◌, ap, List,
  [], ◌++◌, false, ◌==◌, if◌then◌else◌, length, Result, ok, arith, Bool-cases, ==_iff,
}
use mathlib.Core.List.{append_assoc}
use isomage.Bytes.{slice, be32}
use isomage.Word.{add64}
use isomage.Reader.{Reader, M, pure}
use isomage.Reader.Laws.{bind_ok, first-eq-ok, seek_read_inside, seek_read-eq-ok}
use isomage.Hfsplus.Catalog.{Error, CatalogRecord}
use isomage.Hfsplus.{read_field, eof_error, leaf_records, leaf_loop}

-- The bytes at an offset that can be read.
abbrev pub IsReadable : List ℕ → ℕ → ℕ → Type 0
IsReadable image offset n = (offset < 2 ^ 63) × (offset + n ≤ length image)

pub read_field_inside :
    (offset n : ℕ) (r : Reader)
    → IsReadable r.image offset n
    → read_field offset n r
      ≡ (ok (slice r.image offset (offset + n)), record r { pos = offset + n })
unfolding read_field
read_field_inside offset n r (near, inside) =
    seek_read_inside Error.io eof_error offset n r near inside

pub read_field-eq-ok :
    (offset n : ℕ) (r : Reader) {buf : List ℕ}
    → (read_field offset n r).0 ≡ ok buf
    → IsReadable r.image offset n
unfolding read_field
read_field-eq-ok offset n r h = seek_read-eq-ok Error.io eof_error offset n r h

==-ne : {a b : ℕ} → (a == b) ≡ false → a ≢ b
==-ne h = ground arith

ne-== : {a b : ℕ} → a ≢ b → (a == b) ≡ false
ne-== h = ground arith

module _ (block_size cat_offset node_size : ℕ) (image : List ℕ) where
  abbrev node_offset : ℕ → ℕ
  node_offset first_leaf = add64 cat_offset (first_leaf * node_size)

  abbrev node_at : ℕ → List ℕ
  node_at first_leaf = slice image (node_offset first_leaf) (node_offset first_leaf + node_size)

  -- The chain from a node on: its nodes, `n` of them, can be read, each but the last names the next,
  -- and the records are those of the leaves among them, in order.
  pub data IsChain : ℕ → ℕ → List CatalogRecord → Type 0 where
    last :
        {n first_leaf : ℕ} {records : List CatalogRecord}
        → IsReadable image (node_offset first_leaf) node_size
        → be32 (node_at first_leaf) 0 ≡ 0
        → n ≡ 1
        → records ≡ leaf_records block_size (node_at first_leaf)
        → IsChain n first_leaf records
    next :
        {n first_leaf : ℕ} {records : List CatalogRecord} (m : ℕ) (rest : List CatalogRecord)
        → IsReadable image (node_offset first_leaf) node_size
        → be32 (node_at first_leaf) 0 ≢ 0
        → n ≡ suc m
        → records ≡ leaf_records block_size (node_at first_leaf) ++ rest
        → IsChain m (be32 (node_at first_leaf) 0) rest
        → IsChain n first_leaf records

  abbrev at : ℕ → Reader
  at pos = record { image = image; pos = pos }

  abbrev loop : ℕ → ℕ → List CatalogRecord → M Error (List CatalogRecord)
  loop = leaf_loop block_size cat_offset node_size

  -- What the loop does after a node.
  abbrev after_node : ℕ → List CatalogRecord → List ℕ → M Error (List CatalogRecord)
  after_node rounds acc node_buf =
      if be32 node_buf 0 == 0
      then pure (acc ++ leaf_records block_size node_buf)
      else loop rounds (be32 node_buf 0) (acc ++ leaf_records block_size node_buf)

  -- The loop on a node that can be read.
  leaf_loop-readable :
      (rounds first_leaf : ℕ) (acc : List CatalogRecord) (pos : ℕ)
      → IsReadable image (node_offset first_leaf) node_size
      → loop (suc rounds) first_leaf acc (at pos)
        ≡ after_node rounds acc (node_at first_leaf) (at (node_offset first_leaf + node_size))
  unfolding leaf_loop
  leaf_loop-readable rounds first_leaf acc pos readable =
      bind_ok (read_field (node_offset first_leaf) node_size) (after_node rounds acc) (at pos)
        (read_field_inside (node_offset first_leaf) node_size (at pos) readable)

  -- A round that leads to a result has read its node.
  IsReadable-leaf_loop :
      (rounds first_leaf : ℕ) (acc : List CatalogRecord) (pos : ℕ) {out : List CatalogRecord}
      → (loop (suc rounds) first_leaf acc (at pos)).0 ≡ ok out
      → IsReadable image (node_offset first_leaf) node_size
  unfolding leaf_loop
  IsReadable-leaf_loop rounds first_leaf acc pos h =
      let (node_buf, done) =
        first-eq-ok (read_field (node_offset first_leaf) node_size) (after_node rounds acc) (at pos)
          h in
      read_field-eq-ok (node_offset first_leaf) node_size (at pos) done

  leaf_loop-IsChain :
      (rounds first_leaf : ℕ) (acc : List CatalogRecord) (pos : ℕ) (out : List CatalogRecord)
      → (loop rounds first_leaf acc (at pos)).0 ≡ ok out
      → (n : ℕ) × (n ≤ rounds)
        × (records : List CatalogRecord) × (out ≡ acc ++ records)
        × IsChain n first_leaf records
  unfolding leaf_loop
  leaf_loop-IsChain zero first_leaf acc pos out h = cc
  leaf_loop-IsChain (suc rounds) first_leaf acc pos out h =
      let readable = IsReadable-leaf_loop rounds first_leaf acc pos h in
      let h' : (after_node rounds acc (node_at first_leaf)
            (at (node_offset first_leaf + node_size))).0
          ≡ ok out =
        subst (λ (x : Result Error (List CatalogRecord) × Reader). x.0 ≡ ok out)
          (leaf_loop-readable rounds first_leaf acc pos readable) h in
      elim (Bool-cases (be32 (node_at first_leaf) 0 == 0)) [
        | inl end ↦
            let got : ok (acc ++ leaf_records block_size (node_at first_leaf)) ≡ ok out =
              rw end at h' in
            (
              1,
              omega arith,
              leaf_records block_size (node_at first_leaf),
              (cc),
              last readable ((==_iff _ _).0 end) refl refl,
            )
        | inr more ↦
            let (m, le, rest, eq, chain) =
              leaf_loop-IsChain rounds (be32 (node_at first_leaf) 0)
                (acc ++ leaf_records block_size (node_at first_leaf))
                (node_offset first_leaf + node_size) out (rw more at h') in
            (
              suc m,
              omega (arith, le),
              leaf_records block_size (node_at first_leaf) ++ rest,
              eq ∙ append_assoc acc (leaf_records block_size (node_at first_leaf)) rest,
              next m rest readable (==-ne more) refl refl chain,
            )
      ]

  IsChain-leaf_loop :
      {n first_leaf : ℕ} {records : List CatalogRecord}
      → IsChain n first_leaf records
      → (rounds : ℕ) (acc : List CatalogRecord) (pos : ℕ) → n ≤ rounds
      → (loop rounds first_leaf acc (at pos)).0 ≡ ok (acc ++ records)
  unfolding leaf_loop
  IsChain-leaf_loop (last readable end one same) zero acc pos le = absurd (omega (arith, one))
  IsChain-leaf_loop (last {first_leaf = f} readable end one same) (suc rounds) acc pos le =
      ap (λ (x : Result Error (List CatalogRecord) × Reader). x.0)
        (leaf_loop-readable rounds f acc pos readable)
      ∙ rw ((==_iff _ _).1 end) (ap (λ records. ok (acc ++ records)) (sym same))
  IsChain-leaf_loop (next m rest readable more one same chain) zero acc pos le =
      absurd (omega (arith, one))
  IsChain-leaf_loop (next {first_leaf = f} m rest readable more one same chain) (suc rounds) acc pos
        le =
      ap (λ (x : Result Error (List CatalogRecord) × Reader). x.0)
        (leaf_loop-readable rounds f acc pos readable)
      ∙ rw (ne-== more) (
          IsChain-leaf_loop chain rounds (acc ++ leaf_records block_size (node_at f))
            (node_offset f + node_size) (omega (arith, one))
          ∙ ap ok (
              append_assoc acc (leaf_records block_size (node_at f)) rest
              ∙ ap (λ records. acc ++ records) (sym same)))

  -- The walk gives exactly the records of the chain from the first leaf, if it has at most as many
  -- nodes as there are rounds.
  pub leaf_loop_iff :
      (rounds first_leaf pos : ℕ) (out : List CatalogRecord)
      → ((loop rounds first_leaf [] (at pos)).0 ≡ ok out)
        ↔ ((n : ℕ) × (n ≤ rounds) × IsChain n first_leaf out)
  leaf_loop_iff rounds first_leaf pos out = (
    λ h.
        (let (n, le, records, eq, chain) = leaf_loop-IsChain rounds first_leaf [] pos out h in
          (n, le, subst (IsChain n first_leaf) (sym eq) chain)),
    λ (n, le, chain). IsChain-leaf_loop chain rounds [] pos le,
  )
