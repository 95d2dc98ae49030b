-- ===== src/Fat/Extent.antt =====
-- src/formats/fat.rs: the location of a file, and the bytes of the file's clusters.
use isomage.Prelude.{
  ℕ, suc, ◌+◌, ◌-◌, ◌*◌, ◌≤◌, ◌<◌, ◌≡◌, ◌∙◌, ap, true, List, [], ◌∷◌, ◌++◌, arith, length, leb,
  leb→le, ◌%◌, take, All, Bool-cases, inl, inr, Result, ok, some,
}
use mathlib.Core.List.{append_assoc}
use native.Mathlib.Nat.{div-add-mod, mod-lt}
use isomage.Word.{div_ceil}
use isomage.Bytes.{slice, slice-append, take-slice}
use isomage.Reader.{Reader, map_error, read_at}
use isomage.Reader.Laws.{>>=-eq-ok, map_error-eq-ok, read_at-eq-ok}
use isomage.Reader.Keeps.{map_error-KeepsImage, read_at-KeepsImage}
use isomage.Tree.{file_location, size, new_file, new_file_with_location}
use isomage.Fat.Bpb.{Error, io, Context}
use isomage.Fat.Chain.{cluster_abs}
use isomage.Fat.Dir.{read_clusters, RawEntry}
use isomage.Fat.Build.{is_contiguous, file_node}

cluster_abs-suc :
    (ctx : Context) (c : ℕ)
    → 2 ≤ c
    → cluster_abs ctx (c + 1) ≡ cluster_abs ctx c + ctx.bytes_per_cluster
unfolding cluster_abs
cluster_abs-suc ctx c h = let e : c + 1 - 2 ≡ suc (c - 2) = omega arith in rw e (omega arith)

-- One more cluster behind what has been read.
read_clusters_step :
    (ctx : Context) (buf : List ℕ) (c : ℕ) (cs : List ℕ) (r r' : Reader) {out : List ℕ}
    → read_clusters ctx buf (c ∷ cs) r ≡ (ok out, r')
    → (r₁ : Reader) × (r₁.image ≡ r.image)
      × (read_clusters ctx
            (buf ++ slice r.image (cluster_abs ctx c) (cluster_abs ctx c + ctx.bytes_per_cluster))
            cs
            r₁
          ≡ (ok out, r'))
unfolding read_clusters
read_clusters_step ctx buf c cs r r' e =
    let m = map_error io (read_at (cluster_abs ctx c) ctx.bytes_per_cluster) in
    let (bytes, got, e₁) = >>=-eq-ok m (λ bytes. read_clusters ctx (buf ++ bytes) cs) r e in
    let (_, is, _) =
      read_at-eq-ok (cluster_abs ctx c) ctx.bytes_per_cluster r
        (map_error-eq-ok io (read_at (cluster_abs ctx c) ctx.bytes_per_cluster) r got).0 in
    (
      (m r).1,
      map_error-KeepsImage io (read_at (cluster_abs ctx c) ctx.bytes_per_cluster)
          (read_at-KeepsImage (cluster_abs ctx c) ctx.bytes_per_cluster) r,
      rw (← is) e₁,
    )

-- The bytes from the first byte of `c` on, `n` clusters long.
abbrev run : Context → List ℕ → ℕ → ℕ → List ℕ
run ctx image c n = slice image (cluster_abs ctx c) (cluster_abs ctx c + n * ctx.bytes_per_cluster)

run-suc :
    (ctx : Context) (image : List ℕ) (c n : ℕ)
    → 2 ≤ c
    → slice image (cluster_abs ctx c) (cluster_abs ctx c + ctx.bytes_per_cluster)
        ++ run ctx image (c + 1) n
      ≡ run ctx image c (suc n)
run-suc ctx image c n h =
    let next = cluster_abs-suc ctx c h in
    let far : cluster_abs ctx c + ctx.bytes_per_cluster + n * ctx.bytes_per_cluster
        ≡ cluster_abs ctx c + suc n * ctx.bytes_per_cluster =
      omega arith in
    rw next (
      rw far (
        slice-append image (cluster_abs ctx c) (cluster_abs ctx c + ctx.bytes_per_cluster) _
          (omega arith) (omega arith)))

run_one :
    (ctx : Context) (image : List ℕ) (c : ℕ)
    → slice image (cluster_abs ctx c) (cluster_abs ctx c + ctx.bytes_per_cluster)
      ≡ run ctx image c 1
run_one ctx image c =
    let e : ctx.bytes_per_cluster ≡ 1 * ctx.bytes_per_cluster = omega arith in
    ap (λ k. slice image (cluster_abs ctx c) (cluster_abs ctx c + k)) e

read_clusters_done :
    (ctx : Context) (buf : List ℕ) (r r' : Reader) {out : List ℕ}
    → read_clusters ctx buf [] r ≡ (ok out, r')
    → out ≡ buf
unfolding read_clusters
read_clusters_done ctx buf r r' e = cc (ap (λ (p : Result Error (List ℕ) × Reader). p.0) e)

contiguous_inv :
    (c d : ℕ) (cs : List ℕ)
    → is_contiguous (c ∷ d ∷ cs) ≡ true
    → (d ≡ c + 1) × (is_contiguous (d ∷ cs) ≡ true)
unfolding is_contiguous
contiguous_inv c d cs h = ground arith

read_clusters-run :
    (ctx : Context) (cs : List ℕ) (c : ℕ) (buf : List ℕ) (r r' : Reader) {out : List ℕ}
    → 2 ≤ c
    → is_contiguous (c ∷ cs) ≡ true
    → read_clusters ctx buf (c ∷ cs) r ≡ (ok out, r')
    → out ≡ buf ++ run ctx r.image c (length (c ∷ cs))
read_clusters-run ctx [] c buf r r' h con e =
    let (r₁, _, e₁) = read_clusters_step ctx buf c [] r r' e in
    rw (← run_one ctx r.image c) (read_clusters_done ctx _ r₁ r' e₁)
read_clusters-run ctx (d ∷ cs) c buf r r' h con e =
    let (r₁, same, e₁) = read_clusters_step ctx buf c (d ∷ cs) r r' e in
    let (next, con') = contiguous_inv c d cs con in
    let ih =
      read_clusters-run ctx cs d
        (buf ++ slice r.image (cluster_abs ctx c) (cluster_abs ctx c + ctx.bytes_per_cluster)) r₁ r'
        (omega arith) con' e₁ in
    ih
    ∙ rw (same, next)
        (rw append_assoc (ap (λ bs. buf ++ bs) (run-suc ctx r.image c (length (d ∷ cs)) h)))

le-div_ceil : (a b : ℕ) → 0 < b → a ≤ div_ceil a b * b
le-div_ceil a b h = elim (Bool-cases (leb (a % b) 0)) [
  | inl whole ↦ rw whole (omega (arith, div-add-mod a b, leb→le (a % b) 0 whole))
  | inr part ↦ rw part (omega (arith, div-add-mod a b, mod-lt a h))
]

file_size-le :
    (ctx : Context) (size n : ℕ)
    → 0 < ctx.bytes_per_cluster
    → div_ceil size ctx.bytes_per_cluster ≤ n
    → size ≤ n * ctx.bytes_per_cluster
file_size-le ctx size n h k = grind (arith, le-div_ceil size ctx.bytes_per_cluster h)

located :
    (ctx : Context) (entry : RawEntry) (c : ℕ) (cs : List ℕ) {loc : ℕ}
    → file_location (file_node ctx entry (c ∷ cs)) ≡ some loc
    → (loc ≡ cluster_abs ctx c)
      × (is_contiguous (c ∷ cs) ≡ true)
      × (div_ceil entry.file_size ctx.bytes_per_cluster ≤ length (c ∷ cs))
unfolding file_node new_file new_file_with_location
located ctx entry c cs h = ground arith

-- With a cluster size that is not 0 and cluster numbers from 2 on: where `file_node` gives a file
-- a location and the clusters of its chain can be read, their bytes, one after the other, begin
-- with the `file_size` bytes at that location of the image.
pub file_node-location :
    (ctx : Context) (entry : RawEntry) (chain : List ℕ) (r r' : Reader) {bytes : List ℕ} {loc : ℕ}
    → 0 < ctx.bytes_per_cluster
    → All (λ c. 2 ≤ c) chain
    → file_location (file_node ctx entry chain) ≡ some loc
    → read_clusters ctx [] chain r ≡ (ok bytes, r')
    → take entry.file_size bytes ≡ slice r.image loc (loc + entry.file_size)
file_node-location ctx entry [] r r' pos all at_loc e =
    absurd (unfold file_node new_file in cc at_loc)
file_node-location ctx entry (c ∷ cs) r r' {bytes} {loc} pos (h, _) at_loc e =
    let (first, con, enough) = located ctx entry c cs at_loc in
    let fits = file_size-le ctx entry.file_size (length (c ∷ cs)) pos enough in
    rw (read_clusters-run ctx cs c [] r r' h con e, first)
      (take-slice r.image (cluster_abs ctx c) _ entry.file_size (omega (arith, fits)))
