-- ===== src/Hfsplus/Build/Attach.antt =====
-- src/formats/hfsplus.rs, `build_tree`: which directories and files are attached where.
use isomage.Prelude.{
  ℕ, zero, suc, ◌≡◌, ◌≢◌, refl, List, [], ◌∷◌, ◌++◌, Option, none, some, arith, All,
}
use isomage.Tree.{TreeNode, add_child}
use isomage.Hfsplus.Build.{
  FolderMap, NodeMap, get_node, remove_node, add_to_node, attach_found, attach_pair, attach_pass,
  attach_dirs, get_folder, path_loop, cnid_path, attach_files, root_folder_cnid, add_by_path,
}

get_node-remove_node-none :
    (nodes : NodeMap) (k c : ℕ) → get_node nodes c ≡ none → get_node (remove_node nodes k) c ≡ none
unfolding get_node remove_node
get_node-remove_node-none [] k c h = refl
get_node-remove_node-none ((j, n) ∷ nodes) k c h =
    ground (arith, get_node-remove_node-none nodes k c)

get_node-add_to_node-none :
    (nodes : NodeMap) (k c : ℕ) (child : TreeNode)
    → get_node nodes c ≡ none
    → get_node (add_to_node nodes k child) c ≡ none
unfolding get_node add_to_node
get_node-add_to_node-none [] k c child h = refl
get_node-add_to_node-none ((j, n) ∷ nodes) k c child h =
    ground (arith, get_node-add_to_node-none nodes k c child)

-- A pair never brings a number back.
attach_found-absent :
    (p k c : ℕ) (nodes : NodeMap) (x y : Option TreeNode)
    → get_node nodes c ≡ none
    → get_node (attach_found p k nodes x y).0 c ≡ none
unfolding attach_found
attach_found-absent p k c nodes none y h = h
attach_found-absent p k c nodes (some n) none h = h
attach_found-absent p k c nodes (some n) (some m) h =
    get_node-add_to_node-none (remove_node nodes k) p c n (get_node-remove_node-none nodes k c h)

attach_pair-absent :
    (p k c : ℕ) (nodes : NodeMap)
    → get_node nodes c ≡ none
    → get_node (attach_pair p k nodes).0 c ≡ none
unfolding attach_pair
attach_pair-absent p k c nodes h =
    attach_found-absent p k c nodes (get_node nodes k) (get_node nodes p) h

get_node-remove_node_ne :
    (nodes : NodeMap) (k c : ℕ) → k ≢ c → get_node (remove_node nodes k) c ≡ get_node nodes c
unfolding get_node remove_node
get_node-remove_node_ne [] k c h = refl
get_node-remove_node_ne ((j, n) ∷ nodes) k c h = ground (arith, get_node-remove_node_ne nodes k c)

get_node-add_to_node_present :
    (nodes : NodeMap) (k c : ℕ) (child : TreeNode)
    → get_node nodes c ≢ none
    → get_node (add_to_node nodes k child) c ≢ none
unfolding get_node add_to_node
get_node-add_to_node_present [] k c child h = h
get_node-add_to_node_present ((j, n) ∷ nodes) k c child h =
    ground (arith, get_node-add_to_node_present nodes k c child)

-- A number whose parents in the list are all absent.
abbrev IsOrphan : ℕ → NodeMap → List (ℕ × ℕ) → Type 0
IsOrphan c nodes remaining =
    All (λ (pair : ℕ × ℕ). pair.1 ≡ c → get_node nodes pair.0 ≡ none) remaining

attach_found-present :
    (p k c : ℕ) (nodes : NodeMap) (x y : Option TreeNode)
    → (k ≡ c → y ≡ none)
    → get_node nodes c ≢ none
    → get_node (attach_found p k nodes x y).0 c ≢ none
unfolding attach_found
attach_found-present p k c nodes none y absent h = h
attach_found-present p k c nodes (some n) none absent h = h
attach_found-present p k c nodes (some n) (some m) absent h =
    let differ : k ≢ c = λ same. (let gone : some m ≡ none = absent same in cc) in
    get_node-add_to_node_present (remove_node nodes k) p c n
      (rw (get_node-remove_node_ne nodes k c differ) h)

attach_pair-present :
    (p k c : ℕ) (nodes : NodeMap)
    → (k ≡ c → get_node nodes p ≡ none)
    → get_node nodes c ≢ none
    → get_node (attach_pair p k nodes).0 c ≢ none
unfolding attach_pair
attach_pair-present p k c nodes absent h =
    attach_found-present p k c nodes (get_node nodes k) (get_node nodes p) absent h

attach_pair-IsOrphan :
    (p k c : ℕ) (nodes : NodeMap) (remaining : List (ℕ × ℕ))
    → IsOrphan c nodes remaining
    → IsOrphan c (attach_pair p k nodes).0 remaining
attach_pair-IsOrphan p k c nodes [] all = tt
attach_pair-IsOrphan p k c nodes ((q, j) ∷ remaining) (h, all) = (
  λ same. attach_pair-absent p k q nodes (h same),
  attach_pair-IsOrphan p k c nodes remaining all,
)

-- What is still pending is the pair itself.
found-IsOrphan :
    (p k c : ℕ) (nodes nodes' : NodeMap) (x y : Option TreeNode)
    → (k ≡ c → get_node nodes' p ≡ none)
    → IsOrphan c nodes' (attach_found p k nodes x y).1
unfolding attach_found
found-IsOrphan p k c nodes nodes' none y h = (h, tt)
found-IsOrphan p k c nodes nodes' (some n) none h = (h, tt)
found-IsOrphan p k c nodes nodes' (some n) (some m) h = tt

pending-IsOrphan :
    (p k c : ℕ) (nodes nodes' : NodeMap)
    → (k ≡ c → get_node nodes' p ≡ none)
    → IsOrphan c nodes' (attach_pair p k nodes).1
unfolding attach_pair
pending-IsOrphan p k c nodes nodes' h =
    found-IsOrphan p k c nodes nodes' (get_node nodes k) (get_node nodes p) h

append-IsOrphan :
    (c : ℕ) (nodes : NodeMap) (xs ys : List (ℕ × ℕ))
    → IsOrphan c nodes xs
    → IsOrphan c nodes ys
    → IsOrphan c nodes (xs ++ ys)
append-IsOrphan c nodes [] ys all all' = all'
append-IsOrphan c nodes (x ∷ xs) ys (h, all) all' = (h, append-IsOrphan c nodes xs ys all all')

attach_pass-absent :
    (remaining : List (ℕ × ℕ)) (c : ℕ) (nodes : NodeMap)
    → get_node nodes c ≡ none
    → get_node (attach_pass remaining nodes).0 c ≡ none
unfolding attach_pass
attach_pass-absent [] c nodes h = h
attach_pass-absent ((p, k) ∷ remaining) c nodes h =
    attach_pass-absent remaining c (attach_pair p k nodes).0 (attach_pair-absent p k c nodes h)

attach_pass-present :
    (remaining : List (ℕ × ℕ)) (c : ℕ) (nodes : NodeMap)
    → IsOrphan c nodes remaining
    → get_node nodes c ≢ none
    → (get_node (attach_pass remaining nodes).0 c ≢ none)
      × IsOrphan c (attach_pass remaining nodes).0 (attach_pass remaining nodes).1
unfolding attach_pass
attach_pass-present [] c nodes all h = (h, tt)
attach_pass-present ((p, k) ∷ remaining) c nodes (gone, all) h =
    let nodes' = (attach_pair p k nodes).0 in
    let (stays, pending) =
      attach_pass-present remaining c nodes' (attach_pair-IsOrphan p k c nodes remaining all)
        (attach_pair-present p k c nodes gone h) in
    (
      stays,
      append-IsOrphan c _ (attach_pair p k nodes).1 _
          (pending-IsOrphan p k c nodes _ (λ same.
            attach_pass-absent remaining p nodes' (attach_pair-absent p k p nodes (gone same))))
          pending,
    )

-- A directory whose parent is no longer among the nodes, since the parent was attached before, is
-- attached nowhere, however many iterations follow: it stays a node of its own.
attach_dirs-IsOrphan :
    (iters c : ℕ) (remaining : List (ℕ × ℕ)) (nodes : NodeMap)
    → IsOrphan c nodes remaining
    → get_node nodes c ≢ none
    → get_node (attach_dirs iters remaining nodes) c ≢ none
unfolding attach_dirs
attach_dirs-IsOrphan zero c remaining nodes all h = h
attach_dirs-IsOrphan (suc iters) c remaining nodes all h =
    let (stays, pending) = attach_pass-present remaining c nodes all h in
    attach_dirs-IsOrphan iters c (attach_pass remaining nodes).1 (attach_pass remaining nodes).0
      pending stays

-- One step up from a number that is no folder ends the path.
path_loop-unknown :
    (guard : ℕ) (folders : FolderMap) (cur : ℕ)
    → get_folder folders cur ≡ none
    → path_loop (suc guard) folders cur [] ≡ []
unfolding path_loop
path_loop-unknown guard folders cur unknown = ground arith

cnid_path-unknown :
    (folders : FolderMap) (parent : ℕ)
    → parent ≢ root_folder_cnid
    → get_folder folders parent ≡ none
    → cnid_path parent folders ≡ []
unfolding cnid_path
cnid_path-unknown folders parent differs unknown =
    ground (arith, path_loop-unknown 999 folders parent unknown)

-- A file whose parent is neither the root nor a folder of the catalog becomes a child of the root.
pub attach_files-unknown :
    (folders : FolderMap) (parent : ℕ) (file_node root : TreeNode) (items : List (ℕ × TreeNode))
    → parent ≢ root_folder_cnid
    → get_folder folders parent ≡ none
    → attach_files folders ((parent, file_node) ∷ items) root
      ≡ attach_files folders items (add_child root file_node)
unfolding attach_files add_by_path
attach_files-unknown folders parent file_node root items differs unknown =
    rw (cnid_path-unknown folders parent differs unknown)
