-- ===== src/Fat/Walk.antt =====
-- src/formats/fat.rs: the walk along a cluster chain.
use isomage.Prelude.{
  ℕ, zero, suc, ◌+◌, ◌≤◌, ◌≡◌, ◌∙◌, refl, sym, ap, subst, true, false, List, [], ◌∷◌, ◌++◌, ltb,
  if◌then◌else◌, arith, length, length-append, All, All-append, Bool-cases, inl, inr, Result, ok,
  err,
}
use isomage.Reader.{Reader}
use isomage.Fat.Bpb.{Error, Context}
use isomage.Fat.Chain.{is_stop, fat_entry, chain_loop, cluster_chain}

-- A cluster of the data area.
abbrev pub IsData : Context → ℕ → Type 0
IsData ctx c = (2 ≤ c) × (c ≤ ctx.total_clusters + 1)

is_stop-IsData : (ctx : Context) (c : ℕ) → is_stop ctx c ≡ false → IsData ctx c
unfolding is_stop
is_stop-IsData ctx c h = ground arith

abbrev Walked : Type 0
Walked = Result Error (List ℕ) × Reader

-- The next cluster, or the error that ends the walk.
abbrev follow : Result Error ℕ → Reader → (ℕ → Walked) → Walked
follow res r₁ f = elim res [ err e ↦ (err e, r₁) | ok c ↦ f c ]

follow_cong :
    (res : Result Error ℕ) (r₁ : Reader) (f g : ℕ → Walked)
    → ((c : ℕ) → f c ≡ g c)
    → follow res r₁ f ≡ follow res r₁ g
follow_cong (ok c) r₁ f g h = h c
follow_cong (err e) r₁ f g h = refl

chain_loop_stop :
    (fuel : ℕ) (ctx : Context) (chain : List ℕ) (cluster : ℕ) (r : Reader)
    → is_stop ctx cluster ≡ true
    → chain_loop (suc fuel) ctx chain cluster r ≡ (ok chain, r)
unfolding chain_loop
chain_loop_stop fuel ctx chain cluster r stop = rw stop

chain_loop_full :
    (fuel : ℕ) (ctx : Context) (chain : List ℕ) (cluster : ℕ) (r : Reader)
    → ltb ctx.total_clusters (length (chain ++ cluster ∷ [])) ≡ true
    → chain_loop (suc fuel) ctx chain cluster r
      ≡ (if is_stop ctx cluster then (ok chain, r) else (ok (chain ++ cluster ∷ []), r))
unfolding chain_loop
chain_loop_full fuel ctx chain cluster r full = rw full

chain_loop_more :
    (fuel : ℕ) (ctx : Context) (chain : List ℕ) (cluster : ℕ) (r : Reader)
    → ltb ctx.total_clusters (length (chain ++ cluster ∷ [])) ≡ false
    → chain_loop (suc fuel) ctx chain cluster r ≡ (
        if is_stop ctx cluster
        then (ok chain, r)
        else follow
            (fat_entry ctx cluster r).0
            (fat_entry ctx cluster r).1
            (λ c. chain_loop fuel ctx (chain ++ cluster ∷ []) c (fat_entry ctx cluster r).1))
unfolding chain_loop
chain_loop_more fuel ctx chain cluster r more = rw more

-- One more unit of fuel changes nothing, once there is one unit for each cluster that may follow.
chain_loop_fuel :
    (fuel : ℕ) (ctx : Context) (chain : List ℕ) (cluster : ℕ) (r : Reader)
    → ctx.total_clusters + 1 ≤ fuel + length chain
    → length chain ≤ ctx.total_clusters
    → chain_loop (suc fuel) ctx chain cluster r ≡ chain_loop fuel ctx chain cluster r
chain_loop_fuel zero ctx chain cluster r h room = absurd (omega arith)
chain_loop_fuel (suc fuel) ctx chain cluster r h room =
    let chain' = chain ++ cluster ∷ [] in
    let longer = length-append chain (cluster ∷ []) in
    elim (Bool-cases (ltb ctx.total_clusters (length chain'))) [
      | inl full ↦
          chain_loop_full (suc fuel) ctx chain cluster r full
          ∙ sym (chain_loop_full fuel ctx chain cluster r full)
      | inr more ↦
          chain_loop_more (suc fuel) ctx chain cluster r more
          ∙ ap (λ (w : Walked). if is_stop ctx cluster then (ok chain, r) else w)
              (follow_cong (fat_entry ctx cluster r).0 (fat_entry ctx cluster r).1 _ _ (λ c.
                chain_loop_fuel fuel ctx chain' c (fat_entry ctx cluster r).1
                  (omega (arith, longer)) (ground arith)))
          ∙ sym (chain_loop_more fuel ctx chain cluster r more)
    ]

-- The walk ends: with any fuel beyond `total_clusters + 1` it gives what `cluster_chain` gives,
-- so the fuel never decides the result.
pub cluster_chain_fuel :
    (extra : ℕ) (ctx : Context) (start : ℕ) (r : Reader)
    → chain_loop (ctx.total_clusters + 1 + extra) ctx [] start r ≡ cluster_chain ctx start r
unfolding cluster_chain
cluster_chain_fuel zero ctx start r =
    let e : ctx.total_clusters + 1 + 0 ≡ ctx.total_clusters + 1 = omega arith in
    let e' : ctx.total_clusters + 2 ≡ suc (ctx.total_clusters + 1) = omega arith in
    rw (e, e')
      (sym (chain_loop_fuel (ctx.total_clusters + 1) ctx [] start r (omega arith) (omega arith)))
cluster_chain_fuel (suc k) ctx start r =
    let e : ctx.total_clusters + 1 + suc k ≡ suc (ctx.total_clusters + 1 + k) = omega arith in
    rw e (
      chain_loop_fuel (ctx.total_clusters + 1 + k) ctx [] start r (omega arith) (omega arith)
      ∙ cluster_chain_fuel k ctx start r)

abbrev IsValidChain : Context → List ℕ → Type 0
IsValidChain ctx res = All (IsData ctx) res × (length res ≤ ctx.total_clusters + 1)

returned :
    (ctx : Context) (chain : List ℕ) (r r' : Reader) {res : List ℕ}
    → IsValidChain ctx chain
    → (let w : Walked = (ok chain, r) in w) ≡ (ok res, r')
    → IsValidChain ctx res
returned ctx chain r r' {res} v e =
    let same : chain ≡ res = cc (ap (λ (w : Walked). w.0) e) in subst (IsValidChain ctx) same v

followed_valid :
    (ctx : Context) (res : Result Error ℕ) (r₁ r' : Reader) (f : ℕ → Walked) {chain : List ℕ}
    → ((c : ℕ) → f c ≡ (ok chain, r') → IsValidChain ctx chain)
    → follow res r₁ f ≡ (ok chain, r')
    → IsValidChain ctx chain
followed_valid ctx (ok c) r₁ r' f h e = h c e
followed_valid ctx (err x) r₁ r' f h e = absurd (cc (ap (λ (w : Walked). w.0) e))

chain_loop_valid :
    (fuel : ℕ) (ctx : Context) (chain : List ℕ) (cluster : ℕ) (r r' : Reader) {res : List ℕ}
    → All (IsData ctx) chain
    → length chain ≤ ctx.total_clusters
    → chain_loop fuel ctx chain cluster r ≡ (ok res, r')
    → IsValidChain ctx res
chain_loop_valid zero ctx chain cluster r r' all room e =
    unfold chain_loop in returned ctx chain r r' (all, omega arith) e
chain_loop_valid (suc fuel) ctx chain cluster r r' {res} all room e =
    let chain' = chain ++ cluster ∷ [] in
    let longer = length-append chain (cluster ∷ []) in
    elim (Bool-cases (is_stop ctx cluster)) [
      | inl stop ↦
          returned ctx chain r r' (all, omega arith)
            (sym (chain_loop_stop fuel ctx chain cluster r stop) ∙ e)
      | inr go ↦
          let data' =
            All-append (IsData ctx) chain (cluster ∷ []) all (is_stop-IsData ctx cluster go, tt) in
          elim (Bool-cases (ltb ctx.total_clusters (length chain'))) [
            | inl full ↦
                returned ctx chain' r r' (data', omega (arith, longer))
                  (rw go at (sym (chain_loop_full fuel ctx chain cluster r full) ∙ e))
            | inr more ↦
                followed_valid ctx (fat_entry ctx cluster r).0 (fat_entry ctx cluster r).1 r'
                  (λ c. chain_loop fuel ctx chain' c (fat_entry ctx cluster r).1)
                  (λ c e'.
                    chain_loop_valid fuel ctx chain' c (fat_entry ctx cluster r).1 r' data'
                      (ground arith) e')
                  (rw go at (sym (chain_loop_more fuel ctx chain cluster r more) ∙ e))
          ]
    ]

-- Every cluster of a chain that is read without an error is in the data area, and it has at most one cluster more than
-- the area, also where the table holds a cycle.
pub cluster_chain-IsData :
    (ctx : Context) (start : ℕ) (r r' : Reader) {chain : List ℕ}
    → cluster_chain ctx start r ≡ (ok chain, r')
    → All (IsData ctx) chain × (length chain ≤ ctx.total_clusters + 1)
unfolding cluster_chain
cluster_chain-IsData ctx start r r' e =
    chain_loop_valid (ctx.total_clusters + 2) ctx [] start r r' tt (omega arith) e
