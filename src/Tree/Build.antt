-- ===== src/Tree/Build.antt =====
-- A root directory to which children are added one by one, as the parsers build it.
use isomage.Prelude.{
  ℕ, ◌+◌, ◌%◌, ◌^◌, ◌<◌, ◌≡◌, ◌∙◌, refl, sym, ap, true, false, List, [], ◌∷◌, none, map, All, arith,
}
use isomage.Text.{Str}
use isomage.Tree.{
  TreeNode, node, Children, nil, cons, is_directory, size, push, add_child, add_sizes,
  new_directory, calculate_directory_size, calculate_children,
}

-- The children as a list.
abbrev pub of_list : List TreeNode → Children
of_list [] = nil
of_list (c ∷ cs) = cons c (of_list cs)

append_children : Children → List TreeNode → Children
append_children nil xs = of_list xs
append_children (cons c cs) xs = cons c (append_children cs xs)

-- `for c in nodes { root.add_child(c) }`.
unfoldable pub add_all : TreeNode → List TreeNode → TreeNode
unfolding add_child
add_all t [] = t
add_all t (c ∷ cs) = add_all (add_child t c) cs

append_children-nil : (cs : Children) → append_children cs [] ≡ cs
unfolding append_children
append_children-nil nil = refl
append_children-nil (cons c cs) = ap (cons c) (append_children-nil cs)

append_children-push :
    (c : TreeNode) (cs : Children) (xs : List TreeNode)
    → append_children (push c cs) xs ≡ append_children cs (c ∷ xs)
unfolding append_children push
append_children-push c nil xs = refl
append_children-push c (cons d ds) xs = ap (cons d) (append_children-push c ds xs)

added_all :
    (n : Str) (cs : Children) (ys : List TreeNode)
    → add_all (node n 0 true cs none none) ys ≡ node n 0 true (append_children cs ys) none none
unfolding add_all add_child
added_all n cs [] = ap (λ ds. node n 0 true ds none none) (sym (append_children-nil cs))
added_all n cs (y ∷ ys) =
    added_all n (push y cs) ys
    ∙ ap (λ ds. node n 0 true ds none none) (append_children-push y cs ys)

-- The children follow one another in the order in which they are added.
pub add_all-new_directory :
    (n : Str) (xs : List TreeNode)
    → add_all (new_directory n) xs ≡ node n 0 true (of_list xs) none none
add_all-new_directory n xs = unfold new_directory append_children in added_all n nil xs

abbrev pub IsFile : TreeNode → Type 0
IsFile t = is_directory t ≡ false

calculate_children_files :
    (xs : List TreeNode) → All IsFile xs → calculate_children (of_list xs) ≡ of_list xs
unfolding calculate_children
calculate_children_files [] h = refl
calculate_children_files (node n s true cs loc len ∷ xs) (h, t) = cc
calculate_children_files (node n s false cs loc len ∷ xs) (h, t) =
    ap (cons (node n s false cs loc len)) (calculate_children_files xs t)

-- A directory of files: its children as they were added, and their sizes added up.
pub calculate-add_all :
    (n : Str) (xs : List TreeNode)
    → All IsFile xs
    → calculate_directory_size (add_all (new_directory n) xs)
      ≡ node n (add_sizes 0 (of_list xs)) true (of_list xs) none none
calculate-add_all n xs h =
    ap calculate_directory_size (add_all-new_directory n xs)
    ∙ (unfold calculate_directory_size in
        ap (λ cs. node n (add_sizes 0 cs) true cs none none) (calculate_children_files xs h))

abbrev pub sum : List ℕ → ℕ
sum [] = 0
sum (x ∷ xs) = x + sum xs

add_sizes-sum :
    (acc : ℕ) (xs : List TreeNode)
    → acc < 2 ^ 64
    → add_sizes acc (of_list xs) ≡ (acc + sum (map size xs)) % 2 ^ 64
unfolding add_sizes
add_sizes-sum acc [] h = omega arith
add_sizes-sum acc (x ∷ xs) h =
    add_sizes-sum ((acc + size x) % 2 ^ 64) xs (omega arith) ∙ omega arith

pub add_sizes-of_list : (xs : List TreeNode) → add_sizes 0 (of_list xs) ≡ sum (map size xs) % 2 ^ 64
add_sizes-of_list xs = add_sizes-sum 0 xs (omega arith) ∙ omega arith
