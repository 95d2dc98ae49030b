-- ===== src/Gpt/Names.antt =====
-- The names that `to_tree` of src/formats/gpt.rs gives to partitions, and how `find_node` resolves them.
use isomage.Prelude.{
  ℕ, ◌+◌, ◌%◌, ◌^◌, ◌≤◌, ◌<◌, ◌≡◌, ◌∙◌, ◌≢◌, inl, inr, refl, ap, true, List, [], ◌∷◌, ◌++◌, arith,
  ◌==◌, All, All-append, Bool-cases, map, none, some,
}
use isomage.Text.{Str, codes, str_eq, str_eq_iff, str_eq_refl, is_empty, is_ascii_alphanumeric}
use isomage.Text.Decimal.{decimal, decimal-injective, IsDigit, decimal-IsDigit}
use isomage.Tree.{TreeNode, node, name, size, add_child, children, find_node, add_sizes}
use isomage.Tree.Build.{of_list, add_all, IsFile, calculate-add_all, add_sizes-of_list, sum}
use isomage.Tree.Find.{
  NoSlash, IsComponent, component, PlainNames, PlainNamesAll, join, walk, followed, first_named,
  find_node-join,
}
use isomage.Gpt.{
  Partition, safe_char, sanitize, partition_name, partition_node, add_partitions, to_tree,
}
use isomage.Gpt.Entries.{Ascending}

no_dash : (b e d : Str) → All IsDigit d → d ≡ b ++ b'-' ∷ e → ⊥
no_dash [] e [] h q = cc
no_dash [] e (x ∷ d) (h, t) q = ground arith
no_dash (y ∷ b) e [] h q = cc
no_dash (y ∷ b) e (x ∷ d) (h, t) q = no_dash b e d t (cc)

-- What stands behind the last dash is decided by the whole text.
suffix_eq : (a b d e : Str) → All IsDigit d → All IsDigit e → a ++ b'-' ∷ d ≡ b ++ b'-' ∷ e → d ≡ e
suffix_eq [] [] d e hd he p = cc
suffix_eq [] (y ∷ b) d e hd he p = absurd (no_dash b e d hd (cc))
suffix_eq (x ∷ a) [] d e hd he p = absurd (no_dash a d e he (cc))
suffix_eq (x ∷ a) (y ∷ b) d e hd he p = suffix_eq a b d e hd he (cc)

partition_name-injective :
    (p q : Partition)
    → p.index < 2 ^ 64
    → q.index < 2 ^ 64
    → partition_name p ≡ partition_name q
    → p.index ≡ q.index
unfolding partition_name
partition_name-injective p q hp hq e =
    decimal-injective p.index q.index hp hq
      (suffix_eq _ _ _ _ (decimal-IsDigit p.index) (decimal-IsDigit q.index) e)

safe_char-ne-slash : (c : ℕ) → safe_char c ≢ b'/'
unfolding is_ascii_alphanumeric
safe_char-ne-slash c = ground arith

sanitize-NoSlash : (s : Str) → NoSlash (sanitize s)
unfolding sanitize
sanitize-NoSlash [] = tt
sanitize-NoSlash (c ∷ cs) = (safe_char-ne-slash c, sanitize-NoSlash cs)

digits-NoSlash : (s : Str) → All IsDigit s → NoSlash s
digits-NoSlash [] h = tt
digits-NoSlash (c ∷ cs) (h, t) = (omega arith, digits-NoSlash cs t)

dashed-IsComponent : (a d : Str) → NoSlash a → NoSlash d → IsComponent (a ++ b'-' ∷ d)
dashed-IsComponent [] d h k = component b'-' d (omega arith) k
dashed-IsComponent (x ∷ a) d (h, t) k =
    component x (a ++ b'-' ∷ d) h (All-append _ a (b'-' ∷ d) t (omega arith, k))

partition_name-IsComponent : (p : Partition) → IsComponent (partition_name p)
unfolding partition_name
partition_name-IsComponent p =
    let digits = digits-NoSlash _ (decimal-IsDigit p.index) in
    elim (Bool-cases (is_empty p.name)) [
      | inl e ↦ rw e (
          dashed-IsComponent (codes "partition-" ++ decimal p.index) _
            (All-append _ (codes "partition-") _ (omega arith) digits) digits)
      | inr e ↦ rw e (dashed-IsComponent _ _ (sanitize-NoSlash p.name) digits)
    ]

name-partition_node : (p : Partition) → name (partition_node p) ≡ partition_name p
unfolding partition_node
name-partition_node p = ground arith

partition_node-IsFile : (p : Partition) → IsFile (partition_node p)
unfolding partition_node
partition_node-IsFile p = ground arith

nodes-IsFile : (ps : List Partition) → All IsFile (map partition_node ps)
nodes-IsFile [] = tt
nodes-IsFile (p ∷ ps) = (partition_node-IsFile p, nodes-IsFile ps)

add_partitions-add_all :
    (root : TreeNode) (ps : List Partition)
    → add_partitions root ps ≡ add_all root (map partition_node ps)
unfolding add_partitions add_all
add_partitions-add_all root [] = refl
add_partitions-add_all root (p ∷ ps) = add_partitions-add_all (add_child root (partition_node p)) ps

to_tree_lem :
    (ps : List Partition)
    → to_tree ps
      ≡ node
          (codes "/")
          (add_sizes 0 (of_list (map partition_node ps)))
          true
          (of_list (map partition_node ps))
          none
          none
unfolding to_tree
to_tree_lem ps = rw add_partitions-add_all (calculate-add_all _ _ (nodes-IsFile ps))

size-partition_node : (p : Partition) → size (partition_node p) ≡ p.len
unfolding partition_node
size-partition_node p = ground arith

unfoldable total_len : List Partition → ℕ
total_len [] = 0
total_len (p ∷ ps) = p.len + total_len ps

sum-nodes : (ps : List Partition) → sum (map size (map partition_node ps)) ≡ total_len ps
unfolding total_len
sum-nodes [] = refl
sum-nodes (p ∷ ps) = omega (arith, size-partition_node p, sum-nodes ps)

-- The root's size is the sum of the partitions' lengths, as a `u64`.
size-to_tree : (ps : List Partition) → size (to_tree ps) ≡ total_len ps % 2 ^ 64
size-to_tree ps =
    ap size (to_tree_lem ps) ∙ add_sizes-of_list (map partition_node ps) ∙ rw (sum-nodes ps)

Ascending-middle :
    (lo hi : ℕ) (before : List Partition) (p : Partition) (after : List Partition)
    → Ascending lo hi (before ++ p ∷ after)
    → (lo ≤ p.index) × (p.index < hi)
Ascending-middle lo hi [] p after (l, u, _) = (l, u)
Ascending-middle lo hi (q ∷ before) p after (l, u, rest) =
    let (l', u') = Ascending-middle (q.index + 1) hi before p after rest in (omega arith, u')

first_named-partition :
    (lo hi : ℕ) (before : List Partition) (p : Partition) (after : List Partition)
    → Ascending lo hi (before ++ p ∷ after)
    → hi ≤ 2 ^ 64
    → first_named (of_list (map partition_node (before ++ p ∷ after))) (partition_name p)
      ≡ some (partition_node p)
unfolding first_named
first_named-partition lo hi [] p after a h =
    rw (name-partition_node p, str_eq_refl (partition_name p))
first_named-partition lo hi (q ∷ before) p after (l, u, rest) h =
    let (l', u') = Ascending-middle (q.index + 1) hi before p after rest in
    rw (name-partition_node q) (elim (Bool-cases (str_eq (partition_name q) (partition_name p))) [
      | inl same ↦ absurd (
          omega (
            arith,
            partition_name-injective q p (omega arith) (omega arith) ((str_eq_iff _ _).0 same),
          ))
      | inr other ↦ rw other (first_named-partition (q.index + 1) hi before p after rest h)
    ])

partition_node-PlainNames :
    (p : Partition) → NoSlash (partition_name p) → PlainNames (partition_node p)
unfolding partition_node PlainNames
partition_node-PlainNames p h = elim (Bool-cases (p.len == 0)) [
  | inl e ↦ rw e (inl h, tt)
  | inr e ↦ rw e (inl h, tt)
]

IsComponent-NoSlash : {c : Str} → IsComponent c → NoSlash c
IsComponent-NoSlash (component x xs h t) = (h, t)

nodes-PlainNames : (ps : List Partition) → PlainNamesAll (of_list (map partition_node ps))
unfolding PlainNames
nodes-PlainNames [] = tt
nodes-PlainNames (p ∷ ps) = (
  partition_node-PlainNames p (IsComponent-NoSlash (partition_name-IsComponent p)),
  nodes-PlainNames ps,
)

root_PlainNames :
    (ps : List Partition) (total : ℕ)
    → PlainNames (node (codes "/") total true (of_list (map partition_node ps)) none none)
unfolding PlainNames
root_PlainNames ps total = (inr refl, nodes-PlainNames ps)

followed_root : {c : Str} → IsComponent c → followed (codes "/") (c ∷ []) ≡ c ∷ []
unfolding followed str_eq
followed_root (component x xs h t) = ground arith

walk_one :
    (t : TreeNode) (c : Str) {u : TreeNode}
    → first_named (children t) c ≡ some u
    → walk t (c ∷ []) ≡ some u
unfolding walk
walk_one t c e = rw (e, walk)

-- In a list of partitions with ascending indices below 2 ^ 64, every partition is resolved by
-- `find_node` under the name that `to_tree` gives it, whatever the labels are.
pub find_node-to_tree :
    (lo hi : ℕ) (before : List Partition) (p : Partition) (after : List Partition)
    → Ascending lo hi (before ++ p ∷ after)
    → hi ≤ 2 ^ 64
    → find_node (to_tree (before ++ p ∷ after)) (partition_name p) ≡ some (partition_node p)
unfolding join
find_node-to_tree lo hi before p after a h =
    let ps = before ++ p ∷ after in
    let total = add_sizes 0 (of_list (map partition_node ps)) in
    let is = partition_name-IsComponent p in
    rw (to_tree_lem ps) (
      find_node-join _ (partition_name p ∷ []) (root_PlainNames ps total) (is, tt)
      ∙ ap (walk (node (codes "/") total true (of_list (map partition_node ps)) none none))
          (followed_root is)
      ∙ walk_one _ _ (first_named-partition lo hi before p after a h))
