-- ===== src/Udf/Contents.antt =====
-- src/udf.rs with src/lib.rs: what is copied of a file with several extents.
use isomage.Prelude.{
  ℕ, ◌+◌, ◌*◌, ◌^◌, ◌≤◌, ◌<◌, ◌≡◌, refl, sym, ap, ap₂, subst, ◌∙◌, List, [], ◌∷◌, ◌++◌, length,
  arith, Result, ok,
}
use mathlib.Core.List.{append-nil}
use isomage.Text.{Str}
use isomage.Bytes.{slice, slice-append}
use isomage.Reader.{Reader, ◌>>=◌, pure, map_error, read_at}
use isomage.Reader.Laws.{>>=-eq-ok, map_error-eq-ok, read_at-eq-ok, read_at-near}
use isomage.Udf.Allocation.{Error, io, ExtentAd, FileAllocation}
use isomage.Udf.Directory.{sector_size, read_extents, file_node}
use isomage.Cat.{cat_node}
use isomage.Cat.Bytes.{vec_writer, cat_node-bytes}

abbrev pub sum_lengths : List ExtentAd → ℕ
sum_lengths [] = 0
sum_lengths (extent ∷ extents) = extent.len + sum_lengths extents

-- Each extent begins where the one before it ends.
abbrev pub RunsOn : ℕ → List ExtentAd → Type 0
RunsOn start [] = Unit {0}
RunsOn start (extent ∷ []) = Unit {0}
RunsOn start (extent ∷ next ∷ extents) =
    ((start + extent.location) * sector_size + extent.len ≡ (start + next.location) * sector_size)
    × RunsOn start (next ∷ extents)

ok-pair_inj :
    {A : Type 0} {a b : A} {r r' : Reader}
    → ◌≡◌ {A = Result Error A × Reader} (ok a, r) (ok b, r')
    → (a ≡ b) × (r ≡ r')
ok-pair_inj h = (cc, cc)

-- What reading the first extent and then the others has read.
record FirstRead (start : ℕ) (extent : ExtentAd) (extents : List ExtentAd) (r : Reader)
    (bytes : List ℕ) (r' : Reader) : Type 0 where
  pub near : (start + extent.location) * sector_size < 2 ^ 63
  pub inside : (start + extent.location) * sector_size + extent.len ≤ length r.image
  pub rest : List ℕ
  pub joined :
      bytes
      ≡ slice r.image
          ((start + extent.location) * sector_size)
          ((start + extent.location) * sector_size + extent.len)
        ++ rest
  pub others :
      read_extents start extents
        (record r { pos = (start + extent.location) * sector_size + extent.len })
      ≡ (ok rest, r')

read_extents-FirstRead :
    (start : ℕ) (extent : ExtentAd) (extents : List ExtentAd) (r : Reader) (bytes : List ℕ)
    (r' : Reader)
    → read_extents start (extent ∷ extents) r ≡ (ok bytes, r')
    → FirstRead start extent extents r bytes r'
unfolding read_extents
read_extents-FirstRead start extent extents r bytes r' h =
    let from = (start + extent.location) * sector_size in
    let (chunk, read_chunk, h₁) =
      >>=-eq-ok (map_error io (read_at from extent.len))
        (λ chunk. read_extents start extents >>= λ rest. pure (chunk ++ rest)) r h in
    let (rest, read_rest, h₂) =
      >>=-eq-ok (read_extents start extents) (λ rest. pure (chunk ++ rest))
        (map_error io (read_at from extent.len) r).1 h₁ in
    let (read_ok, same) = map_error-eq-ok io (read_at from extent.len) r read_chunk in
    let (inside, is_slice, moved) = read_at-eq-ok from extent.len r read_ok in
    let (e, e') = ok-pair_inj h₂ in
    record {
      near = read_at-near from extent.len r read_ok;
      inside = inside;
      rest = rest;
      joined = sym e ∙ ap (λ c. c ++ rest) is_slice;
      others =
          subst (λ q. read_extents start extents q ≡ (ok rest, r')) (same ∙ moved)
            (ap₂ (λ a b. (a, b)) read_rest e');
    }

-- Extents that run on are read as one slice.
read_extents-slice :
    (start : ℕ) (extent : ExtentAd) (extents : List ExtentAd) (r : Reader) (bytes : List ℕ)
    (r' : Reader)
    → RunsOn start (extent ∷ extents)
    → read_extents start (extent ∷ extents) r ≡ (ok bytes, r')
    → (let from = (start + extent.location) * sector_size in
        let upto = from + (extent.len + sum_lengths extents) in
        (from < 2 ^ 63) × (upto ≤ length r.image) × (bytes ≡ slice r.image from upto))
unfolding read_extents
read_extents-slice start extent [] r bytes r' runs h =
    let first = read_extents-FirstRead start extent [] r bytes r' h in
    let from = (start + extent.location) * sector_size in
    let held = slice r.image from (from + extent.len) in
    let alone : extent.len + 0 ≡ extent.len = omega arith in
    let (nothing, same) = ok-pair_inj first.others in
    rw alone (
      first.near,
      first.inside,
      first.joined ∙ ap (λ rest. held ++ rest) (sym nothing) ∙ append-nil _,
    )
read_extents-slice start extent (next ∷ extents) r bytes r' (meets, runs) h =
    let first = read_extents-FirstRead start extent (next ∷ extents) r bytes r' h in
    let from = (start + extent.location) * sector_size in
    let (near, inside, is_slice) =
      read_extents-slice start next extents
        (record r { pos = (start + extent.location) * sector_size + extent.len }) first.rest r' runs
        first.others in
    let whole : from + (extent.len + (next.len + sum_lengths extents))
        ≡ (start + next.location) * sector_size + (next.len + sum_lengths extents) =
      omega arith in
    rw whole (
      first.near,
      inside,
      first.joined
          ∙ rw (is_slice, meets)
              (slice-append r.image from ((start + next.location) * sector_size) _ (omega arith)
                (omega arith)),
    )

-- Where the extents of a file run on, the lengths of the extents add up to its length, and the
-- extents can be read, `cat_node` appends to a vector exactly what the extents hold, in order.
pub cat_node-read_extents :
    (start : ℕ) (name : Str) (alloc : FileAllocation) (first : ExtentAd) (extents : List ExtentAd)
    (r r' : Reader) (bytes w : List ℕ)
    → alloc.extents ≡ first ∷ extents
    → alloc.total_length ≡ sum_lengths (first ∷ extents)
    → RunsOn start (first ∷ extents)
    → read_extents start (first ∷ extents) r ≡ (ok bytes, r')
    → ((cat_node vec_writer (file_node start name alloc) r w).0 ≡ ok tt)
      × ((cat_node vec_writer (file_node start name alloc) r w).2 ≡ w ++ bytes)
unfolding file_node
cat_node-read_extents start name alloc first extents r r' bytes w are sums runs h =
    let (near, inside, is_slice) = read_extents-slice start first extents r bytes r' runs h in
    let from = (start + first.location) * sector_size in
    let copied =
      cat_node-bytes from alloc.total_length name alloc.total_length r w near (rw sums inside) in
    rw (are, copied, is_slice, sums) (refl, refl)
