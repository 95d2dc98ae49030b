-- ===== src/Tree/Size.antt =====
-- `calculate_directory_size` of src/tree.rs: what the sizes are, and what else changes.
use isomage.Prelude.{
  ℕ, ◌+◌, ◌%◌, ◌^◌, ◌<◌, ◌≡◌, refl, ap, ap₂, ◌∙◌, true, false, arith, if◌then◌else◌,
}
use isomage.Tree.{
  TreeNode, node, Children, nil, cons, size, add_sizes, calculate_directory_size,
  calculate_children,
}

-- The sum of the sizes of all files below a node, itself included, as a plain number.
unfoldable mutual
  pub total_size : TreeNode → ℕ
  total_size (node n s d cs loc len) = if d then total_sizes cs else s

  pub total_sizes : Children → ℕ
  total_sizes nil = 0
  total_sizes (cons c cs) = total_size c + total_sizes cs

-- Every node's size is a `u64`.
unfoldable mutual
  pub SizesFit : TreeNode → Type 0
  SizesFit (node n s d cs loc len) = (s < 2 ^ 64) × SizesFitAll cs

  pub SizesFitAll : Children → Type 0
  SizesFitAll nil = Unit {0}
  SizesFitAll (cons c cs) = SizesFit c × SizesFitAll cs

mutual
  unfolding total_size total_sizes SizesFit SizesFitAll add_sizes calculate_directory_size
      calculate_children

  size_total :
      (t : TreeNode) → SizesFit t → size (calculate_directory_size t) ≡ total_size t % 2 ^ 64
  size_total (node n s true cs loc len) h = add_sizes-total cs 0 h.1 (omega arith) ∙ omega arith
  size_total (node n s false cs loc len) h = omega arith

  add_sizes-total :
      (cs : Children) (acc : ℕ)
      → SizesFitAll cs
      → acc < 2 ^ 64
      → add_sizes acc (calculate_children cs) ≡ (acc + total_sizes cs) % 2 ^ 64
  add_sizes-total nil acc h fits = omega arith
  add_sizes-total (cons c cs) acc h fits =
      add_sizes-total cs ((acc + size (calculate_directory_size c)) % 2 ^ 64) h.1 (omega arith)
      ∙ omega (arith, size_total c h.0)

mutual
  unfolding calculate_directory_size calculate_children

  calculate_twice :
      (t : TreeNode)
      → calculate_directory_size (calculate_directory_size t) ≡ calculate_directory_size t
  calculate_twice (node n s true cs loc len) =
      ap (λ ds. node n (add_sizes 0 ds) true ds loc len) (calculate_children_twice cs)
  calculate_twice (node n s false cs loc len) = refl

  calculate_children_twice :
      (cs : Children) → calculate_children (calculate_children cs) ≡ calculate_children cs
  calculate_children_twice nil = refl
  calculate_children_twice (cons c cs) = ap₂ cons (calculate_twice c) (calculate_children_twice cs)

-- Calculating the sizes a second time changes nothing.
calculate_directory_size_idem :
    (t : TreeNode)
    → calculate_directory_size (calculate_directory_size t) ≡ calculate_directory_size t
calculate_directory_size_idem t = calculate_twice t
