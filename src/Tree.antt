-- ===== src/Tree.antt =====
-- src/tree.rs: the directory tree that every parser returns.
pub mod Size
pub mod Find
pub mod Build
use isomage.Prelude.{
  ℕ, zero, suc, ◌+◌, ◌%◌, ◌^◌, Bool, true, false, List, [], ◌∷◌, ◌++◌, Option, none, some,
  if◌then◌else◌,
}
use isomage.Text.{Str, codes, str_eq, is_empty, trim_start_char, split_once}

-- `TreeNode`, with its `Vec<TreeNode>` of children as the type `Children`. The fields are, in
-- order, `name`, `size`, `is_directory`, `children`, `file_location` and `file_length`.
mutual
  pub data TreeNode : Type 0 where
    node : Str → ℕ → Bool → Children → Option ℕ → Option ℕ → TreeNode

  pub data Children : Type 0 where
    nil : Children
    cons : TreeNode → Children → Children

abbrev pub name : TreeNode → Str
name (node n s d cs loc len) = n

abbrev pub size : TreeNode → ℕ
size (node n s d cs loc len) = s

abbrev pub is_directory : TreeNode → Bool
is_directory (node n s d cs loc len) = d

abbrev pub children : TreeNode → Children
children (node n s d cs loc len) = cs

abbrev pub file_location : TreeNode → Option ℕ
file_location (node n s d cs loc len) = loc

abbrev pub file_length : TreeNode → Option ℕ
file_length (node n s d cs loc len) = len

unfoldable pub new_file : Str → ℕ → TreeNode
new_file name size = node name size false nil none none

unfoldable pub new_file_with_location : Str → ℕ → ℕ → ℕ → TreeNode
new_file_with_location name size location length =
    node name size false nil (some location) (some length)

unfoldable pub new_directory : Str → TreeNode
new_directory name = node name 0 true nil none none

-- `self.children.push(child)`.
unfoldable pub push : TreeNode → Children → Children
push c nil = cons c nil
push c (cons x xs) = cons x (push c xs)

unfoldable pub add_child : TreeNode → TreeNode → TreeNode
unfolding push
add_child (node n s d cs loc len) child = node n s d (push child cs) loc len

-- `total_size += child.size` over the children, as a release build adds `u64`s.
unfoldable pub add_sizes : ℕ → Children → ℕ
add_sizes total nil = total
add_sizes total (cons c cs) = add_sizes ((total + size c) % 2 ^ 64) cs

unfoldable mutual
  pub calculate_directory_size : TreeNode → TreeNode
  calculate_directory_size (node n s d cs loc len) =
      let cs' = calculate_children cs in
      if d then node n (add_sizes 0 cs') d cs' loc len else node n s d cs loc len

  pub calculate_children : Children → Children
  calculate_children nil = nil
  calculate_children (cons c cs) = cons (calculate_directory_size c) (calculate_children cs)

-- `find_child` is the loop over the children: the first one named `first` answers.
unfoldable mutual
  pub find_node : TreeNode → Str → Option TreeNode
  find_node (node n s d cs loc len) path =
      let p = trim_start_char b'/' path in
      let below = find_child cs (split_once b'/' p).0 (split_once b'/' p).1 in
      if is_empty p
      then some (node n s d cs loc len)
      else if str_eq p n
      then some (node n s d cs loc len)
      else below

  pub find_child : Children → Str → Option Str → Option TreeNode
  find_child nil first rest = none
  find_child (cons c cs) first rest =
      let other = find_child cs first rest in
      let found : Option TreeNode = elim rest [
        | none ↦ some c
        | some remaining ↦ find_node c remaining
      ] in
      if str_eq (name c) first then found else other
