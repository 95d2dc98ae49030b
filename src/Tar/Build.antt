-- ===== src/Tar/Build.antt =====
-- src/formats/tar.rs: the tree made of the scanned entries, and the entry points.
use isomage.Prelude.{
  ℕ, zero, suc, Bool, true, false, ◌&&◌, ◌||◌, List, [], ◌∷◌, ◌++◌, Option, none, some, ltb, ◌==◌,
  if◌then◌else◌, length, Result, ok, err,
}
use isomage.Text.{Str, codes, str_eq, is_empty, trim_end_char, split_on}
use isomage.Reader.{M, ◌>>=◌, ◌>>◌, pure, seek_start, read_exact}
use isomage.Tree.{TreeNode, node, new_directory, add_child, calculate_directory_size}
use isomage.Tar.{Error, not_tar, io, has_ustar_magic}
use isomage.Tar.Scan.{TarEntry, scan_entries}

-- The map from a path to its node, which has no children yet.
abbrev pub Nodes : Type 0
Nodes = List (Str × TreeNode)

unfoldable pub get : Nodes → Str → Option TreeNode
get [] key = none
get ((k, n) ∷ nodes) key = if str_eq k key then some n else get nodes key

-- `entry(key).or_insert_with(...)`.
unfoldable pub or_insert : Nodes → Str → TreeNode → Nodes
or_insert nodes key n = elim (get nodes key) [ some _ ↦ nodes | none ↦ nodes ++ (key, n) ∷ [] ]

unfoldable pub remove : Nodes → Str → Nodes
remove [] key = []
remove ((k, n) ∷ nodes) key = if str_eq k key then nodes else (k, n) ∷ remove nodes key

-- `filter(|c| !c.is_empty())`.
unfoldable pub non_empty : List Str → List Str
non_empty [] = []
non_empty (c ∷ cs) = if is_empty c then non_empty cs else c ∷ non_empty cs

-- A directory for every prefix of the components; `i` counts them and `acc` is the path so far.
unfoldable pub add_components : ℕ → Str → List Str → Nodes → Nodes
add_components i acc [] nodes = nodes
add_components i acc (c ∷ cs) nodes =
    let acc' = if i == 0 then acc ++ c else acc ++ b'/' ∷ c in
    add_components (suc i) acc' cs (or_insert nodes acc' (new_directory c))

-- The node of an entry's own path.
unfoldable pub set_leaf : TarEntry → TreeNode → TreeNode
set_leaf e (node n s d cs loc len) =
    if e.is_dir
    then node n s true cs loc len
    else node n e.size false cs (some e.data_offset) (some e.size)

-- `get_mut(path)`, with the update under it.
unfoldable pub update : Nodes → Str → TarEntry → Nodes
update [] key e = []
update ((k, n) ∷ nodes) key e =
    if str_eq k key then (k, set_leaf e n) ∷ nodes else (k, n) ∷ update nodes key e

unfoldable pub add_entry : TarEntry → Nodes → Nodes
add_entry e nodes =
    let path = trim_end_char b'/' e.name in
    if is_empty path
    then nodes
    else update (add_components 0 [] (non_empty (split_on b'/' path)) nodes) path e

unfoldable pub add_entries : List TarEntry → Nodes → Nodes
add_entries [] nodes = nodes
add_entries (e ∷ es) nodes = add_entries es (add_entry e nodes)

-- The order of strings: that of their characters.
unfoldable pub str_leb : Str → Str → Bool
str_leb [] t = true
str_leb (x ∷ s) [] = false
str_leb (x ∷ s) (y ∷ t) = ltb x y || ((x == y) && str_leb s t)

unfoldable pub insert_path : Str → List Str → List Str
insert_path p [] = p ∷ []
insert_path p (q ∷ qs) = if str_leb p q then p ∷ q ∷ qs else q ∷ insert_path p qs

unfoldable pub sort_paths : List Str → List Str
sort_paths [] = []
sort_paths (p ∷ ps) = insert_path p (sort_paths ps)

-- `rfind('/')`: what stands before the last slash.
unfoldable pub before_last_slash : Str → Option Str
before_last_slash [] = none
before_last_slash (c ∷ s) = elim (before_last_slash s) [
  | some front ↦ some (c ∷ front)
  | none ↦ if c == b'/' then some [] else none
]

unfoldable pub parent_of : Str → Str
parent_of path = elim (before_last_slash path) [ some front ↦ front | none ↦ [] ]

-- The sorted paths below `key`.
unfoldable pub children_of : List Str → Str → List Str
children_of [] key = []
children_of (p ∷ ps) key =
    if str_eq (parent_of p) key then p ∷ children_of ps key else children_of ps key

-- The loop over the child keys, each taken out of the map and given its own children by `attach`.
unfoldable pub attach_keys :
    (TreeNode → Str → Nodes → TreeNode × Nodes) → List Str → TreeNode → Nodes → TreeNode × Nodes
attach_keys attach [] n nodes = (n, nodes)
attach_keys attach (key ∷ keys) n nodes = elim (get nodes key) [
  | none ↦ attach_keys attach keys n nodes
  | some child ↦
      let (child', nodes') = attach child key (remove nodes key) in
      attach_keys attach keys (add_child n child') nodes'
]

-- On fuel: every level takes a node out of the map.
unfoldable pub attach : ℕ → List Str → TreeNode → Str → Nodes → TreeNode × Nodes
attach zero paths n key nodes = (n, nodes)
attach (suc fuel) paths n key nodes =
    attach_keys (attach fuel paths) (children_of paths key) n nodes

unfoldable pub keys : Nodes → List Str
keys [] = []
keys ((k, _) ∷ nodes) = k ∷ keys nodes

unfoldable pub build_tree : List TarEntry → TreeNode
build_tree entries =
    let nodes = add_entries entries [] in
    let root =
      (attach (suc (length nodes)) (sort_paths (keys nodes)) (new_directory (codes "/")) []
        nodes).0 in
    calculate_directory_size root

-- The cursor is put back whatever the outcome.
unfoldable pub detect : M Error Unit
detect r =
    let read = read_exact 512 r in
    let back = seek_start r.pos read.1 in
    let result : Result Error Unit = elim read.0 [
      | err e ↦ err (io e)
      | ok block ↦ if has_ustar_magic block then ok tt else err not_tar
    ] in
    (result, back.1)

-- `none` would be a scan that ran out of fuel.
unfoldable pub detect_and_parse : M Error (Option TreeNode)
detect_and_parse = do
  detect
  entries ← scan_entries
  pure (elim entries [ none ↦ none | some es ↦ some (build_tree es) ])
