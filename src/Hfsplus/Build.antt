-- ===== src/Hfsplus/Build.antt =====
-- src/formats/hfsplus.rs: the tree of a list of catalog records. The hash maps are association
-- lists; the order in which one is iterated is a parameter where the result depends on it.
pub mod Attach
pub mod Iteration
pub mod Sort
use isomage.Prelude.{
  ℕ, zero, suc, ◌+◌, Bool, true, false, ◌&&◌, ◌||◌, List, [], ◌∷◌, ◌++◌, Option, none, some, ◌==◌,
  if◌then◌else◌, length,
}
use isomage.Text.{Str, codes, str_eq}
use isomage.Tree.{
  TreeNode, Children, node, nil, cons, name, is_directory, new_file, new_file_with_location,
  new_directory, add_child, calculate_directory_size,
}
use isomage.Tar.Build.{str_leb}
use isomage.Hfsplus.Catalog.{CatalogRecord, folder, file, thread}

abbrev pub root_folder_cnid : ℕ
root_folder_cnid = 2

-- From the number of a folder to its name and the number of its parent.
abbrev pub FolderMap : Type 0
FolderMap = List (ℕ × Str × ℕ)

unfoldable pub insert_folder : ℕ → Str → ℕ → FolderMap → FolderMap
insert_folder cnid name parent [] = (cnid, name, parent) ∷ []
insert_folder cnid name parent ((k, n, p) ∷ folders) =
    if k == cnid
    then (cnid, name, parent) ∷ folders
    else (k, n, p) ∷ insert_folder cnid name parent folders

unfoldable pub get_folder : FolderMap → ℕ → Option (Str × ℕ)
get_folder [] cnid = none
get_folder ((k, n, p) ∷ folders) cnid = if k == cnid then some (n, p) else get_folder folders cnid

-- Pass 1.
unfoldable pub collect_folders : List CatalogRecord → FolderMap → FolderMap
unfolding insert_folder
collect_folders [] folders = folders
collect_folders (folder parent_cnid name cnid ∷ records) folders =
    collect_folders records
      (if cnid == root_folder_cnid then folders else insert_folder cnid name parent_cnid folders)
collect_folders (file parent_cnid name cnid file_length location ∷ records) folders =
    collect_folders records folders
collect_folders (thread cnid_key record_type ∷ records) folders = collect_folders records folders

unfoldable pub folder_map_of : List CatalogRecord → FolderMap
unfolding collect_folders
folder_map_of records = collect_folders records ((root_folder_cnid, codes "/", 0) ∷ [])

-- Pass 2: the nodes by number.
abbrev pub NodeMap : Type 0
NodeMap = List (ℕ × TreeNode)

unfoldable pub get_node : NodeMap → ℕ → Option TreeNode
get_node [] cnid = none
get_node ((k, n) ∷ nodes) cnid = if k == cnid then some n else get_node nodes cnid

unfoldable pub remove_node : NodeMap → ℕ → NodeMap
remove_node [] cnid = []
remove_node ((k, n) ∷ nodes) cnid = if k == cnid then nodes else (k, n) ∷ remove_node nodes cnid

-- `entry(cnid).and_modify(|p| p.add_child(child))`.
unfoldable pub add_to_node : NodeMap → ℕ → TreeNode → NodeMap
add_to_node [] cnid child = []
add_to_node ((k, n) ∷ nodes) cnid child =
    if k == cnid then (k, add_child n child) ∷ nodes else (k, n) ∷ add_to_node nodes cnid child

unfoldable pub folder_nodes : FolderMap → NodeMap
folder_nodes [] = []
folder_nodes ((k, n, p) ∷ folders) = (k, new_directory n) ∷ folder_nodes folders

-- Pass 3: the files, with the numbers of their parents.
unfoldable pub file_node : Str → ℕ → Option ℕ → TreeNode
file_node name file_length none = new_file name file_length
file_node name file_length (some loc) = new_file_with_location name file_length loc file_length

unfoldable pub file_items : List CatalogRecord → List (ℕ × TreeNode)
unfolding file_node
file_items [] = []
file_items (folder parent_cnid name cnid ∷ records) = file_items records
file_items (file parent_cnid name cnid file_length location ∷ records) =
    (parent_cnid, file_node name file_length location) ∷ file_items records
file_items (thread cnid_key record_type ∷ records) = file_items records

-- Pass 4: the pairs of a parent and a child, and the order in which they come out of the map.
abbrev pub Order : Type 0
Order = List (ℕ × ℕ) → List (ℕ × ℕ)

unfoldable pub dir_children : FolderMap → List (ℕ × ℕ)
dir_children [] = []
dir_children ((k, n, p) ∷ folders) =
    if k == root_folder_cnid then dir_children folders else (p, k) ∷ dir_children folders

-- One pair, with what the map has for the child and for the parent: the nodes after it, and the
-- pair if it is still pending.
unfoldable pub attach_found :
    ℕ → ℕ → NodeMap → Option TreeNode → Option TreeNode → NodeMap × List (ℕ × ℕ)
attach_found parent child nodes none p = (nodes, (parent, child) ∷ [])
attach_found parent child nodes (some n) none = (nodes, (parent, child) ∷ [])
attach_found parent child nodes (some n) (some p) =
    (add_to_node (remove_node nodes child) parent n, [])

unfoldable pub attach_pair : ℕ → ℕ → NodeMap → NodeMap × List (ℕ × ℕ)
attach_pair parent child nodes =
    attach_found parent child nodes (get_node nodes child) (get_node nodes parent)

-- One iteration over what remains.
unfoldable pub attach_pass : List (ℕ × ℕ) → NodeMap → NodeMap × List (ℕ × ℕ)
attach_pass [] nodes = (nodes, [])
attach_pass ((parent, child) ∷ remaining) nodes =
    let (nodes', pending) = attach_pair parent child nodes in
    let (nodes'', still_pending) = attach_pass remaining nodes' in
    (nodes'', pending ++ still_pending)

-- `max_iters` iterations; those on an empty list change nothing.
unfoldable pub attach_dirs : ℕ → List (ℕ × ℕ) → NodeMap → NodeMap
attach_dirs zero remaining nodes = nodes
attach_dirs (suc iters) remaining nodes =
    let (nodes', still_pending) = attach_pass remaining nodes in
    attach_dirs iters still_pending nodes'

-- The names from the root to a folder, by at most 1000 steps up; `path` is what is pushed so far,
-- the last name first.
unfoldable pub path_loop : ℕ → FolderMap → ℕ → List Str → List Str
path_loop zero folders cur path = path
path_loop (suc guard) folders cur path = elim (get_folder folders cur) [
  | none ↦ path
  | some (name, parent) ↦
      if (parent == root_folder_cnid) || (parent == 0)
      then name ∷ path
      else path_loop guard folders parent (name ∷ path)
]

unfoldable pub cnid_path : ℕ → FolderMap → List Str
cnid_path cnid folders = if cnid == root_folder_cnid then [] else path_loop 1000 folders cnid []

-- The first child directory of that name is the one that changes.
unfoldable pub in_child : (TreeNode → TreeNode) → Str → Children → Children
in_child f segment nil = nil
in_child f segment (cons c cs) =
    if is_directory c && str_eq (name c) segment
    then cons (f c) cs
    else cons c (in_child f segment cs)

-- `find_by_path_mut` with `add_child` on what it finds.
unfoldable pub add_by_path : List Str → TreeNode → TreeNode → TreeNode
add_by_path [] file_node root = add_child root file_node
add_by_path (segment ∷ path) file_node (node n s d cs loc len) =
    node n s d (in_child (add_by_path path file_node) segment cs) loc len

unfoldable pub attach_files : FolderMap → List (ℕ × TreeNode) → TreeNode → TreeNode
attach_files folders [] root = root
attach_files folders ((parent_cnid, file_node) ∷ items) root =
    attach_files folders items (add_by_path (cnid_path parent_cnid folders) file_node root)

-- A stable sort by the names.
unfoldable pub insert_child : TreeNode → Children → Children
insert_child c nil = cons c nil
insert_child c (cons x xs) =
    if str_leb (name c) (name x) then cons c (cons x xs) else cons x (insert_child c xs)

unfoldable mutual
  unfolding insert_child

  pub sort_children_recursive : TreeNode → TreeNode
  sort_children_recursive (node n s d cs loc len) = node n s d (sorted_children cs) loc len

  -- The children in order, those of each child directory in order too.
  pub sorted_children : Children → Children
  sorted_children nil = nil
  sorted_children (cons c cs) =
      let sorted = sort_children_recursive c in
      insert_child (if is_directory c then sorted else c) (sorted_children cs)

unfoldable pub root_or_empty : Option TreeNode → TreeNode
root_or_empty none = new_directory (codes "/")
root_or_empty (some root) = root

unfoldable pub attach_all : Order → FolderMap → NodeMap
attach_all order folders =
    attach_dirs (suc (length folders)) (order (dir_children folders)) (folder_nodes folders)

unfoldable pub build_tree : Order → List CatalogRecord → TreeNode
build_tree order records =
    let folders = folder_map_of records in
    let root = root_or_empty (get_node (attach_all order folders) root_folder_cnid) in
    calculate_directory_size
      (sort_children_recursive (attach_files folders (file_items records) root))
