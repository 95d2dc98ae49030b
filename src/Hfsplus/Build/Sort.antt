-- ===== src/Hfsplus/Build/Sort.antt =====
-- src/formats/hfsplus.rs, `sort_children_recursive`: the order of the children.
use isomage.Prelude.{
  ◌≡◌, refl, Bool, true, false, List, [], ◌∷◌, if◌then◌else◌, arith, Bool-cases, inl, inr,
}
use isomage.Text.{Str}
use isomage.Tree.{
  TreeNode, Children, node, nil, cons, name, is_directory, calculate_directory_size,
  calculate_children,
}
use isomage.Tar.Build.{str_leb}
use isomage.Hfsplus.Catalog.{CatalogRecord}
use isomage.Hfsplus.Build.{
  Order, build_tree, insert_child, sort_children_recursive, sorted_children,
}

str_leb_total : (s t : Str) → str_leb s t ≡ false → str_leb t s ≡ true
unfolding str_leb
str_leb_total [] t h = cc
str_leb_total (x ∷ s) [] h = refl
str_leb_total (x ∷ s) (y ∷ t) h = ground (arith, str_leb_total s t)

-- The name is not after that of the first child.
abbrev IsBefore : Str → Children → Type 0
IsBefore s nil = Unit
IsBefore s (cons c cs) = str_leb s (name c) ≡ true

-- The children are in the order of their names, in every directory.
mutual
  pub IsSorted : TreeNode → Type 0
  IsSorted (node n s d cs loc len) = AreSorted cs

  pub AreSorted : Children → Type 0
  AreSorted nil = Unit
  AreSorted (cons c cs) = (is_directory c ≡ true → IsSorted c) × IsBefore (name c) cs × AreSorted cs

insert_child-IsBefore :
    (s : Str) (c : TreeNode) (xs : Children)
    → str_leb s (name c) ≡ true
    → IsBefore s xs
    → IsBefore s (insert_child c xs)
unfolding insert_child
insert_child-IsBefore s c nil h before = h
insert_child-IsBefore s c (cons x xs) h before = elim (Bool-cases (str_leb (name c) (name x))) [
  | inl e ↦ rw e h
  | inr e ↦ rw e before
]

insert_child-AreSorted :
    (c : TreeNode) (xs : Children)
    → (is_directory c ≡ true → IsSorted c)
    → AreSorted xs
    → AreSorted (insert_child c xs)
unfolding insert_child AreSorted
insert_child-AreSorted c nil h sorted = (h, tt, tt)
insert_child-AreSorted c (cons x xs) h (own, before, sorted) =
    elim (Bool-cases (str_leb (name c) (name x))) [
      | inl e ↦ rw e (h, e, (own, before, sorted))
      | inr e ↦ rw e (
        own,
        insert_child-IsBefore (name x) c xs (str_leb_total (name c) (name x) e) before,
        insert_child-AreSorted c xs h sorted,
      )
    ]

name-sort : (c : TreeNode) → name (sort_children_recursive c) ≡ name c
unfolding sort_children_recursive
name-sort (node n s d cs loc len) = refl

is_directory-sort : (c : TreeNode) → is_directory (sort_children_recursive c) ≡ is_directory c
unfolding sort_children_recursive
is_directory-sort (node n s d cs loc len) = refl

-- A child that is a directory is sorted, another is left as it is.
own_child :
    (c sorted : TreeNode) (b : Bool)
    → IsSorted sorted
    → is_directory c ≡ b
    → is_directory (if b then sorted else c) ≡ true
    → IsSorted (if b then sorted else c)
own_child c sorted true h e d = h
own_child c sorted false h e d = cc

mutual
  unfolding IsSorted sort_children_recursive

  sort-IsSorted : (t : TreeNode) → IsSorted (sort_children_recursive t)
  sort-IsSorted (node n s d cs loc len) = sorted_children-AreSorted cs

  sorted_children-AreSorted : (cs : Children) → AreSorted (sorted_children cs)
  sorted_children-AreSorted nil = tt
  sorted_children-AreSorted (cons c cs) =
      insert_child-AreSorted (if is_directory c then sort_children_recursive c else c)
        (sorted_children cs)
        (own_child c (sort_children_recursive c) (is_directory c) (sort-IsSorted c) refl)
        (sorted_children-AreSorted cs)

IsBefore-calculate : (s : Str) (cs : Children) → IsBefore s cs → IsBefore s (calculate_children cs)
unfolding calculate_directory_size
IsBefore-calculate s nil h = tt
IsBefore-calculate s (cons (node n z true ds loc len) cs) h = h
IsBefore-calculate s (cons (node n z false ds loc len) cs) h = h

mutual
  unfolding IsSorted calculate_directory_size

  calculate-IsSorted : (t : TreeNode) → IsSorted t → IsSorted (calculate_directory_size t)
  calculate-IsSorted (node n s true cs loc len) h = calculate-AreSorted cs h
  calculate-IsSorted (node n s false cs loc len) h = h

  calculate-AreSorted : (cs : Children) → AreSorted cs → AreSorted (calculate_children cs)
  calculate-AreSorted nil h = tt
  calculate-AreSorted (cons (node n s true ds loc len) cs) (own, before, h) = (
    λ _. calculate-AreSorted ds (own refl),
    IsBefore-calculate n cs before,
    calculate-AreSorted cs h,
  )
  calculate-AreSorted (cons (node n s false ds loc len) cs) (own, before, h) =
      (own, IsBefore-calculate n cs before, calculate-AreSorted cs h)

-- In the tree of a volume the children of every directory are in the order of their names, whatever
-- the records are and in whatever order the map of the folders is iterated.
pub build_tree-IsSorted :
    (order : Order) (records : List CatalogRecord) → IsSorted (build_tree order records)
unfolding build_tree
build_tree-IsSorted order records = calculate-IsSorted _ (sort-IsSorted _)
