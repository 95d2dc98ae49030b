-- ===== src/Extract/Inside.antt =====
-- src/lib.rs: what `extract_node` asks of the file system.
use isomage.Prelude.{
  subst, ℕ, suc, ◌+◌, ◌/◌, ◌≡◌, ◌⊎◌, inl, inr, refl, sym, ap, ◌∙◌, Bool, true, false, ◌&&◌, List,
  [], ◌∷◌, ◌++◌, Option, none, some, All, All-append, Bool-cases,
}
use mathlib.Core.List.{append-nil, append_assoc}
use mathlib.Core.Option.{some_inj}
use isomage.Text.{Str, codes, str_eq}
use isomage.Reader.{Reader}
use isomage.Tree.{TreeNode, node, Children, nil, cons}
use isomage.Cat.{chunk_size}
use isomage.Extract.{
  FilePath, Op, create_dir_all, create, write_all, ◌>>◌, seek, safe_join, perform, copy_loop,
  create_known, create_parent, extract_file_at, extract_into, extract_all, extract_root,
  extract_known, extract_node, no_location,
}
use isomage.Extract.Asks.{
  Asks, bind-Asks, perform-Asks, done-Asks, fail-Asks, lift-bind_Asks, seek-Asks, perform-then_Asks,
  copy_loop-Asks,
}
use isomage.Extract.Paths.{IsEntryName, safe_join-eq-ok, parent-concat}

-- A path that a chain of entry names leads to from the root.
pub data Below (root : FilePath) (path : FilePath) : Type 0 where
  below : (names : List Str) → All IsEntryName names → path ≡ root ++ names → Below root path

abbrev pub target_of : Op → FilePath
target_of (create_dir_all p) = p
target_of (create p) = p
target_of (write_all p bytes) = p

abbrev pub IsInside : FilePath → Op → Type 0
IsInside root op = Below root (target_of op)

Below-concat :
    {root here : FilePath} (name : Str)
    → Below root here
    → IsEntryName name
    → Below root (here ++ name ∷ [])
Below-concat name (below names all e) is =
    below (names ++ name ∷ []) (All-append IsEntryName names (name ∷ []) all (is, tt))
      (ap (λ p. p ++ name ∷ []) e ∙ append_assoc _ names (name ∷ []))

module _ (P : Op → Type 0) (refuses : List Op → Op → Bool) where
  -- The operations on one file and its parent.
  extract_file_at-Asks :
      (location len : Option ℕ) (here : FilePath) (name : Str)
      → P (create_dir_all here)
      → P (create (here ++ name ∷ []))
      → ((bytes : List ℕ) → P (write_all (here ++ name ∷ []) bytes))
      → Asks P (extract_file_at refuses location len (here ++ name ∷ []))
  unfolding extract_file_at create_parent create_known perform
  extract_file_at-Asks none len here name hp hc hw = fail-Asks P (Unit {0}) no_location
  extract_file_at-Asks (some location) none here name hp hc hw = fail-Asks P (Unit {0}) no_location
  extract_file_at-Asks (some location) (some len) here name hp hc hw =
      let target = here ++ name ∷ [] in
      let copy = copy_loop refuses (suc (len / chunk_size + 1)) target len in
      let made = create_parent refuses target in
      let made-Asks : Asks P made =
        subst (λ o. Asks P (create_known refuses o)) (sym (parent-concat here name))
          (perform-Asks P refuses (create_dir_all here) hp) in
      bind-Asks P (seek location >> made >> perform refuses (create target)) (λ _. copy)
        (bind-Asks P (seek location >> made) (λ _. perform refuses (create target))
          (bind-Asks P (seek location) (λ _. made) (seek-Asks P location) (λ _. made-Asks))
          (λ _. perform-Asks P refuses (create target) hc))
        (λ _. copy_loop-Asks P refuses (suc (len / chunk_size + 1)) target len hw)

module _ (refuses : List Op → Op → Bool) (root : FilePath) (P : Op → Type 0)
    (weaken : (op : Op) → IsInside root op → P op) where
  mutual
    unfolding extract_into extract_all

    extract_into-Asks :
        (t : TreeNode) (here : FilePath)
        → Below root here
        → Asks P (extract_into refuses t root here)
    extract_into-Asks (node name size true children location len) here h =
        lift-bind_Asks P (safe_join root here name) _ (λ target e.
          let (is, at_name) = safe_join-eq-ok root here name e in
          let inside : Below root target =
            subst (Below root) (sym at_name) (Below-concat name h is) in
          perform-then_Asks P refuses (create_dir_all target)
            (extract_all refuses children root target) (weaken (create_dir_all target) inside)
            (extract_all-Asks children target inside))
    extract_into-Asks (node name size false children location len) here h =
        lift-bind_Asks P (safe_join root here name) _ (λ target e.
          let (is, at_name) = safe_join-eq-ok root here name e in
          let inside = Below-concat name h is in
          subst (λ t. Asks P (extract_file_at refuses location len t)) (sym at_name)
            (extract_file_at-Asks P refuses location len here name (weaken (create_dir_all here) h)
              (weaken (create (here ++ name ∷ [])) inside)
              (λ bytes. weaken (write_all (here ++ name ∷ []) bytes) inside)))

    extract_all-Asks :
        (cs : Children) (here : FilePath)
        → Below root here
        → Asks P (extract_all refuses cs root here)
    extract_all-Asks nil here h = done-Asks P
    extract_all-Asks (cons c cs) here h =
        bind-Asks P (extract_into refuses c root here) (λ _. extract_all refuses cs root here)
          (extract_into-Asks c here h) (λ _. extract_all-Asks cs here h)

  extract_known-Asks :
      (t : TreeNode) (known : Option FilePath)
      → known ≡ some root
      → Asks P (extract_known refuses t known)
  unfolding extract_known extract_root
  extract_known-Asks t none e = absurd cc
  extract_known-Asks (node name size is_directory children location len) (some root') e =
      let same : root ≡ root' = sym (some_inj.0 e) in
      let start : Below root root = below [] tt (sym (append-nil root)) in
      elim (Bool-cases (is_directory && str_eq name (codes "/"))) [
        | inl at_top ↦ rw at_top (
            subst (λ q. Asks P (extract_all refuses children q q)) same
              (extract_all-Asks children root start))
        | inr inner ↦ rw inner (
            subst
              (λ q.
                Asks P
                  (extract_into refuses (node name size is_directory children location len) q q))
              same
              (extract_into-Asks (node name size is_directory children location len) root start))
      ]

-- All that `extract_node` asks of the file system, besides making the output directory, is inside
-- that directory, as `canonicalize` gives it: each path is reached from there by names that are not
-- empty, `.` or `..` and hold no separator and no NUL. This holds for every tree and image, on
-- success and on every error.
pub extract_node-IsInside :
    (refuses : List Op → Op → Bool) (canonicalize : FilePath → Option FilePath) (t : TreeNode)
    (output_path root : FilePath) (r : Reader)
    → canonicalize output_path ≡ some root
    → All
        (λ op. (op ≡ create_dir_all output_path) ⊎ IsInside root op)
        (extract_node refuses canonicalize t output_path (record { reader = r; log = [] })).1.log
unfolding extract_node
extract_node-IsInside refuses canonicalize t output_path root r known =
    let Q : Op → Type 0 = λ op. (op ≡ create_dir_all output_path) ⊎ IsInside root op in
    bind-Asks Q (perform refuses (create_dir_all output_path))
      (λ _. extract_known refuses t (canonicalize output_path))
      (perform-Asks Q refuses (create_dir_all output_path) (inl refl))
      (λ _. extract_known-Asks refuses root Q (λ op h. inr h) t (canonicalize output_path) known)
      (record { reader = r; log = [] }) tt
