-- ===== src/Fat/Chain.antt =====
-- src/formats/fat.rs: entries of the file allocation table, and the chains of clusters in it.
use isomage.Prelude.{
  ℕ, zero, suc, ◌+◌, ◌-◌, ◌*◌, ◌/◌, ◌%◌, ◌^◌, Bool, ◌||◌, List, [], ◌∷◌, ◌++◌, ltb, ◌==◌,
  if◌then◌else◌, length, min, Result, ok, err,
}
use isomage.Bytes.{le16, le32}
use isomage.Reader.{Reader, M, ◌>>=◌, lift, map_error, read_at}
use isomage.Fat.Bpb.{Error, io, FatType, fat12, fat16, fat32, is_eoc, is_bad_cluster, Context}

unfoldable pub cluster_abs : Context → ℕ → ℕ
cluster_abs ctx cluster =
    ctx.base_offset + ctx.data_start_rel + (cluster - 2) * ctx.bytes_per_cluster

-- Where the entry of a cluster begins in the table, and how many bytes are read there.
unfoldable pub entry_offset : FatType → ℕ → ℕ
entry_offset fat12 cluster = cluster + cluster / 2
entry_offset fat16 cluster = cluster * 2
entry_offset fat32 cluster = cluster * 4

unfoldable pub entry_width : FatType → ℕ
entry_width fat12 = 2
entry_width fat16 = 2
entry_width fat32 = 4

-- The entry in the bytes read: 12 bits at one end of a word, 16 bits, or 28 bits.
unfoldable pub decode_entry : FatType → ℕ → List ℕ → ℕ
decode_entry fat12 cluster buf =
    if cluster % 2 == 0 then le16 buf 0 % 2 ^ 12 else le16 buf 0 / 2 ^ 4
decode_entry fat16 cluster buf = le16 buf 0
decode_entry fat32 cluster buf = le32 buf 0 % 2 ^ 28

unfoldable pub fat_entry : Context → ℕ → M Error ℕ
fat_entry ctx cluster = do
  buf ← map_error io (
      read_at (ctx.base_offset + ctx.fat_start_rel + entry_offset ctx.fat_type cluster)
        (entry_width ctx.fat_type))
  lift (ok (decode_entry ctx.fat_type cluster buf))

-- Where the walk stops: no data cluster, the end of a chain, or a bad cluster.
unfoldable pub is_stop : Context → ℕ → Bool
is_stop ctx cluster =
    ltb cluster 2
    || ltb (min (ctx.total_clusters + 1) (2 ^ 32 - 1)) cluster
    || is_eoc ctx.fat_type cluster
    || is_bad_cluster ctx.fat_type cluster

-- The loop, on fuel.
unfoldable pub chain_loop : ℕ → Context → List ℕ → ℕ → Reader → Result Error (List ℕ) × Reader
chain_loop zero ctx chain cluster r = (ok chain, r)
chain_loop (suc fuel) ctx chain cluster r =
    let chain' = chain ++ cluster ∷ [] in
    let next = fat_entry ctx cluster r in
    let rest : Result Error (List ℕ) × Reader = elim next.0 [
      | err e ↦ (err e, next.1)
      | ok c ↦ chain_loop fuel ctx chain' c next.1
    ] in
    if is_stop ctx cluster
    then (ok chain, r)
    else if ltb ctx.total_clusters (length chain')
    then (ok chain', r)
    else rest

-- The loop stops once a chain is longer than `total_clusters`, which is before this fuel.
unfoldable pub cluster_chain : Context → ℕ → M Error (List ℕ)
cluster_chain ctx start = chain_loop (ctx.total_clusters + 2) ctx [] start
