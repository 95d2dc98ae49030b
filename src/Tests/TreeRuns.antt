-- ===== src/Tests/TreeRuns.antt =====
-- src/tree.rs on the tree of its documentation, and on one with a directory in a directory of
-- the same name.
use isomage.Prelude.{◌≡◌, refl, true, false, [], ◌∷◌, none, some, inl, inr, arith}
use isomage.Text.{codes, str_eq, is_empty, trim_start_char, split_once}
use isomage.Tree.{TreeNode, node, nil, cons, size, find_node, add_sizes, calculate_directory_size}
use isomage.Tree.Find.{IsComponent, component, PlainNames, join, walk, followed, find_node-join}

abbrev hostname : TreeNode
hostname = node (codes "hostname") 18 false nil none none

abbrev etc : TreeNode
etc = node (codes "etc") 0 true (cons hostname nil) none none

abbrev root : TreeNode
root = node (codes "/") 0 true (cons etc nil) none none

-- A directory `a` that holds a file `a`.
abbrev inner : TreeNode
inner = node (codes "a") 5 false nil none none

abbrev outer : TreeNode
outer = node (codes "a") 0 true (cons inner nil) none none

abbrev nested : TreeNode
nested = node (codes "/") 0 true (cons outer nil) none none

finds_hostname : find_node root (codes "/etc/hostname") ≡ some hostname
unfolding find_node str_eq is_empty trim_start_char split_once
finds_hostname = refl

misses : find_node root (codes "etc/missing") ≡ none
unfolding find_node str_eq is_empty trim_start_char split_once
misses = refl

-- The path of the inner `a` finds the outer one.
finds_outer : find_node nested (codes "/a/a") ≡ some outer
unfolding find_node str_eq is_empty trim_start_char split_once
finds_outer = refl

abbrev a_component : IsComponent (codes "a")
a_component = component b'a' [] (omega arith) tt

nested_plain : PlainNames nested
unfolding PlainNames
nested_plain = (inr refl, ((inl (omega arith), ((inl (omega arith), tt), tt)), tt))

find_node-join_example :
    find_node nested (join (codes "a" ∷ codes "a" ∷ []))
    ≡ walk nested (followed (codes "/") (codes "a" ∷ codes "a" ∷ []))
find_node-join_example =
    find_node-join nested (codes "a" ∷ codes "a" ∷ []) nested_plain (a_component, (a_component, tt))

sizes_root : size (calculate_directory_size root) ≡ 18
unfolding calculate_directory_size add_sizes
sizes_root = refl
