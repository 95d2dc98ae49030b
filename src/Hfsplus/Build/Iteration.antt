-- ===== src/Hfsplus/Build/Iteration.antt =====
-- src/formats/hfsplus.rs, `build_tree`: the order in which the hash map is iterated.
use isomage.Prelude.{ℕ, zero, suc, ◌≡◌, ◌≢◌, refl, ap, ◌∙◌, List, [], ◌∷◌, arith}
use mathlib.Core.List.{reverse}
use isomage.Text.{Str, codes}
use isomage.Tree.{TreeNode, new_directory, add_child, push, calculate_directory_size}
use isomage.Hfsplus.Catalog.{CatalogRecord, folder}
use isomage.Hfsplus.Build.{
  folder_map_of, NodeMap, get_node, remove_node, add_to_node, folder_nodes, dir_children,
  attach_found, attach_pair, attach_pass, attach_dirs, Order, attach_all, attach_files, file_items,
  root_or_empty, sort_children_recursive, build_tree, FolderMap, root_folder_cnid,
}

-- One iteration, and those on an empty list.
attach_dirs-pass :
    (iters : ℕ) (remaining : List (ℕ × ℕ)) (nodes : NodeMap) {nodes' : NodeMap}
    {pending : List (ℕ × ℕ)}
    → attach_pass remaining nodes ≡ (nodes', pending)
    → attach_dirs (suc iters) remaining nodes ≡ attach_dirs iters pending nodes'
unfolding attach_dirs
attach_dirs-pass iters remaining nodes e =
    ap (λ (x : NodeMap × List (ℕ × ℕ)). attach_dirs iters x.1 x.0) e

attach_dirs-nil : (iters : ℕ) (nodes : NodeMap) → attach_dirs iters [] nodes ≡ nodes
unfolding attach_dirs attach_pass
attach_dirs-nil zero nodes = refl
attach_dirs-nil (suc iters) nodes = attach_dirs-nil iters nodes

-- A folder `a` in the root, and a folder `b` in it.
module _ (m n : Str) (a b : ℕ) (a_other : a ≢ 2) (b_other : b ≢ 2) (differ : a ≢ b) where
  abbrev nested : List CatalogRecord
  nested = folder 2 m a ∷ folder a n b ∷ []

  abbrev found : FolderMap
  found = (2, codes "/", 0) ∷ (a, m, 2) ∷ (b, n, a) ∷ []

  folder_map_of-nested : folder_map_of nested ≡ found
  unfolding folder_map_of
  folder_map_of-nested = ground arith

  dir_children-found : dir_children found ≡ (2, a) ∷ (a, b) ∷ []
  unfolding dir_children
  dir_children-found = ground arith

  abbrev loose : NodeMap
  loose = (2, new_directory (codes "/")) ∷ (a, new_directory m) ∷ (b, new_directory n) ∷ []

  abbrev parent_first : NodeMap
  parent_first =
      (2, add_child (new_directory (codes "/")) (new_directory m)) ∷ (b, new_directory n) ∷ []

  pass-parent_first : attach_pass ((2, a) ∷ (a, b) ∷ []) loose ≡ (parent_first, (a, b) ∷ [])
  unfolding attach_pass attach_pair attach_found get_node add_to_node remove_node
  pass-parent_first = ground arith

  pass_again : attach_pass ((a, b) ∷ []) parent_first ≡ (parent_first, (a, b) ∷ [])
  unfolding attach_pass attach_pair attach_found get_node add_to_node remove_node
  pass_again = ground arith

  abbrev child_first : NodeMap
  child_first =
      (2, add_child (new_directory (codes "/")) (add_child (new_directory m) (new_directory n)))
      ∷ []

  pass-child_first : attach_pass ((a, b) ∷ (2, a) ∷ []) loose ≡ (child_first, [])
  unfolding attach_pass attach_pair attach_found get_node add_to_node remove_node
  pass-child_first = ground arith

  attach_dirs-parent_first : attach_dirs 4 ((2, a) ∷ (a, b) ∷ []) loose ≡ parent_first
  unfolding attach_dirs
  attach_dirs-parent_first =
      attach_dirs-pass 3 ((2, a) ∷ (a, b) ∷ []) loose pass-parent_first
      ∙ attach_dirs-pass 2 ((a, b) ∷ []) parent_first pass_again
      ∙ attach_dirs-pass 1 ((a, b) ∷ []) parent_first pass_again
      ∙ attach_dirs-pass 0 ((a, b) ∷ []) parent_first pass_again

  attach_dirs-child_first : attach_dirs 4 ((a, b) ∷ (2, a) ∷ []) loose ≡ child_first
  attach_dirs-child_first =
      attach_dirs-pass 3 ((a, b) ∷ (2, a) ∷ []) loose pass-child_first
      ∙ attach_dirs-nil 3 child_first

  attach_all-found :
      (order : Order) (pairs : List (ℕ × ℕ))
      → order ((2, a) ∷ (a, b) ∷ []) ≡ pairs
      → attach_all order (folder_map_of nested) ≡ attach_dirs 4 pairs loose
  unfolding attach_all folder_nodes
  attach_all-found order pairs e = rw (folder_map_of-nested, dir_children-found, e)

  -- What the last steps make of the nodes.
  abbrev finish : NodeMap → TreeNode
  finish nodes =
      calculate_directory_size
        (sort_children_recursive (root_or_empty (get_node nodes root_folder_cnid)))

  build_tree-finish :
      (order : Order) → build_tree order nested ≡ finish (attach_all order (folder_map_of nested))
  unfolding build_tree attach_files file_items
  build_tree-finish order = refl

  -- A folder in the root and a folder in that one, both without files: if the map of the folders is
  -- iterated in the order in which they stand in the catalog, the tree has only the outer one; in
  -- the reverse order it has both.
  pub build_tree-nested :
      (build_tree (λ pairs. pairs) nested
        ≡ calculate_directory_size (add_child (new_directory (codes "/")) (new_directory m)))
      × (build_tree reverse nested
          ≡ calculate_directory_size (
              add_child
                (new_directory (codes "/"))
                (add_child (new_directory m) (new_directory n))))
  unfolding get_node root_or_empty sort_children_recursive new_directory add_child push
  build_tree-nested = (
    build_tree-finish (λ pairs. pairs)
        ∙ ap finish (
            attach_all-found (λ pairs. pairs) ((2, a) ∷ (a, b) ∷ []) refl
            ∙ attach_dirs-parent_first),
    build_tree-finish reverse
        ∙ ap finish
            (attach_all-found reverse ((a, b) ∷ (2, a) ∷ []) refl ∙ attach_dirs-child_first),
  )
