-- ===== src/Tree/Find.antt =====
-- `find_node` of src/tree.rs against a walk down the tree, one path component at a time.
use isomage.Prelude.{
  ℕ, ◌≡◌, ◌≢◌, ◌⊎◌, inl, inr, refl, sym, ap, ◌∙◌, false, arith, if◌then◌else◌, List, [], ◌∷◌, ◌++◌,
  Option, none, some, All, Option-cases, Bool-cases, subst,
}
use mathlib.Core.Option.{some_inj}
use isomage.Text.{Str, str_eq, str_eq_iff, is_empty, trim_start_char, split_once}
use isomage.Tree.{TreeNode, node, Children, nil, cons, name, children, find_node, find_child}

abbrev pub NoSlash : Str → Type 0
NoSlash = All (λ c. c ≢ b'/')

-- A path component: not empty, and with no slash in it.
pub data IsComponent : Str → Type 0 where
  component : (x : ℕ) (xs : Str) → x ≢ b'/' → NoSlash xs → IsComponent (x ∷ xs)

-- The components with one slash between two of them.
unfoldable pub join : List Str → Str
join [] = []
join (c ∷ []) = c
join (c ∷ d ∷ cs) = c ++ b'/' ∷ join (d ∷ cs)

-- Names as the parsers make them: no slash, but for the root's `"/"`.
unfoldable mutual
  pub PlainNames : TreeNode → Type 0
  PlainNames (node n s d cs loc len) = (NoSlash n ⊎ (n ≡ b'/' ∷ [])) × PlainNamesAll cs

  pub PlainNamesAll : Children → Type 0
  PlainNamesAll nil = Unit {0}
  PlainNamesAll (cons c cs) = PlainNames c × PlainNamesAll cs

-- The first child of that name.
unfoldable pub first_named : Children → Str → Option TreeNode
first_named nil n = none
first_named (cons c cs) n =
    let other = first_named cs n in if str_eq (name c) n then some c else other

-- From a node down through the first child of each name.
unfoldable pub walk : TreeNode → List Str → Option TreeNode
unfolding first_named
walk t [] = some t
walk t (c ∷ cs) = elim (first_named (children t) c) [ none ↦ none | some u ↦ walk u cs ]

-- The components that `find_node` follows from a node named `n`: a last component equal to the
-- name of the node that it is looked up in is dropped.
unfoldable pub followed : Str → List Str → List Str
followed n [] = []
followed n (c ∷ []) = if str_eq c n then [] else c ∷ []
followed n (c ∷ d ∷ cs) = c ∷ followed c (d ∷ cs)

trim_start_char_component :
    {c : Str} (rest : Str) → IsComponent c → trim_start_char b'/' (c ++ rest) ≡ c ++ rest
unfolding trim_start_char
trim_start_char_component rest (component x xs h t) = ground arith

trim_start_char_self : {c : Str} → IsComponent c → trim_start_char b'/' c ≡ c
unfolding trim_start_char
trim_start_char_self (component x xs h t) = ground arith

is_empty_component : {c : Str} → IsComponent c → is_empty c ≡ false
unfolding is_empty
is_empty_component (component x xs h t) = refl

split_once_hit : (c rest : Str) → NoSlash c → split_once b'/' (c ++ b'/' ∷ rest) ≡ (c, some rest)
unfolding split_once
split_once_hit [] rest h = refl
split_once_hit (x ∷ xs) rest (h, t) = ground (arith, split_once_hit xs rest t)

split_once_miss : (c : Str) → NoSlash c → split_once b'/' c ≡ (c, none)
unfolding split_once
split_once_miss [] h = refl
split_once_miss (x ∷ xs) (h, t) = ground (arith, split_once_miss xs t)

IsComponent-NoSlash : {c : Str} → IsComponent c → NoSlash c
IsComponent-NoSlash (component x xs h t) = (h, t)

NoSlash-append : (c rest : Str) → NoSlash (c ++ b'/' ∷ rest) → ⊥
NoSlash-append [] rest (h, t) = h refl
NoSlash-append (x ∷ xs) rest (h, t) = NoSlash-append xs rest t

-- A path of two components or more is no plain name.
path-ne-name :
    {c : Str} (rest n : Str)
    → IsComponent c
    → NoSlash n ⊎ (n ≡ b'/' ∷ [])
    → str_eq (c ++ b'/' ∷ rest) n ≡ false
path-ne-name rest n (component x xs h t) (inl plain) =
    elim (Bool-cases (str_eq ((x ∷ xs) ++ b'/' ∷ rest) n)) [
      | inl e ↦
          absurd (NoSlash-append (x ∷ xs) rest (subst NoSlash (sym ((str_eq_iff _ n).0 e)) plain))
      | inr e ↦ e
    ]
path-ne-name rest n (component x xs h t) (inr e) = unfold str_eq in rw e (ground arith)

-- The loop over the children is a lookup of the first one of the name, and then the rest.
find_child_lem :
    (cs : Children) (first : Str) (rest : Option Str)
    → find_child cs first rest ≡ elim (first_named cs first) [
      | none ↦ none
      | some u ↦ elim rest [ none ↦ some u | some remaining ↦ find_node u remaining ]
    ]
unfolding find_node first_named
find_child_lem nil first rest = refl
find_child_lem (cons c cs) first none = ground (arith, find_child_lem cs first none)
find_child_lem (cons c cs) first (some r) = ground (arith, find_child_lem cs first (some r))

first_named-name : (cs : Children) (n : Str) {u : TreeNode} → first_named cs n ≡ some u → name u ≡ n
unfolding first_named
first_named-name nil n e = cc
first_named-name (cons c cs) n {u} e =
    ground (arith, str_eq_iff (name c) n, first_named-name cs n {u = u})

first_named-PlainNames :
    (cs : Children) (n : Str) {u : TreeNode}
    → PlainNamesAll cs
    → first_named cs n ≡ some u
    → PlainNames u
unfolding first_named PlainNames
first_named-PlainNames nil n h e = cc
first_named-PlainNames (cons c cs) n {u} (h, t) e = elim (Bool-cases (str_eq (name c) n)) [
  | inl same ↦ subst PlainNames (some_inj.0 (rw same at e)) h
  | inr other ↦ first_named-PlainNames cs n t (rw other at e)
]

-- One step of `find_node`, on a path of two components or more and on one component.
find_node_more :
    (t : TreeNode) {c : Str} (rest : Str)
    → PlainNames t
    → IsComponent c
    → find_node t (c ++ b'/' ∷ rest) ≡ find_child (children t) c (some rest)
unfolding find_node PlainNames
find_node_more (node n s d cs loc len) {c} rest h hc =
    rw (trim_start_char_component (b'/' ∷ rest) hc) (
      rw (path-ne-name rest n hc h.0)
        (rw (split_once_hit c rest (IsComponent-NoSlash hc)) (not_empty hc)))
  where
    not_empty :
        {a : Str}
        → IsComponent a
        → (if is_empty (a ++ b'/' ∷ rest)
            then some (node n s d cs loc len)
            else find_child cs c (some rest))
          ≡ find_child cs c (some rest)
    not_empty (component x xs h' t') = unfold is_empty in refl

find_node_last :
    (t : TreeNode) {c : Str}
    → IsComponent c
    → find_node t c ≡ (if str_eq c (name t) then some t else find_child (children t) c none)
unfolding find_node
find_node_last (node n s d cs loc len) {c} hc =
    rw (trim_start_char_self hc)
      (rw (is_empty_component hc) (rw (split_once_miss c (IsComponent-NoSlash hc))))

find_node_empty : (t : TreeNode) → find_node t [] ≡ some t
unfolding find_node trim_start_char is_empty
find_node_empty (node n s d cs loc len) = refl

PlainNames-children : (t : TreeNode) → PlainNames t → PlainNamesAll (children t)
unfolding PlainNames
PlainNames-children (node n s d cs loc len) h = h.1

walk-none :
    (t : TreeNode) (c : Str) (cs : List Str)
    → first_named (children t) c ≡ none
    → walk t (c ∷ cs) ≡ none
unfolding walk
walk-none t c cs e = rw (e, walk)

walk-some :
    (t : TreeNode) (c : Str) (cs : List Str) {u : TreeNode}
    → first_named (children t) c ≡ some u
    → walk t (c ∷ cs) ≡ walk u cs
unfolding walk
walk-some t c cs e = rw (e, walk)

-- In a tree whose names below the root have no slash, `find_node` on a path of components that are
-- not empty and have no slash follows them down the tree, through the first child of each
-- name, but for a last component that repeats the name of the node it is looked up in: that one
-- is taken to mean the node itself.
pub find_node-join :
    (t : TreeNode) (cs : List Str)
    → PlainNames t
    → All IsComponent cs
    → find_node t (join cs) ≡ walk t (followed (name t) cs)
unfolding join followed
find_node-join t [] h hs = unfold walk in find_node_empty t
find_node-join t (c ∷ []) h (hc, _) =
    unfold walk in ground (arith, find_node_last t hc, find_child_lem (children t) c none)
find_node-join t (c ∷ d ∷ cs) h (hc, hs) =
    find_node_more t (join (d ∷ cs)) h hc
    ∙ find_child_lem (children t) c (some (join (d ∷ cs)))
    ∙ (elim (Option-cases (first_named (children t) c)) [
      | inl e ↦ rw e (sym (walk-none t c (followed c (d ∷ cs)) e))
      | inr (u, e) ↦ rw e (
          find_node-join u (d ∷ cs)
            (first_named-PlainNames (children t) c (PlainNames-children t h) e) hs
          ∙ ap (λ n. walk u (followed n (d ∷ cs))) (first_named-name (children t) c e)
          ∙ sym (walk-some t c (followed c (d ∷ cs)) e))
    ])

-- Leading slashes do not matter.
find_node-slash : (t : TreeNode) (path : Str) → find_node t (b'/' ∷ path) ≡ find_node t path
unfolding find_node trim_start_char
find_node-slash (node n s d cs loc len) path = refl
