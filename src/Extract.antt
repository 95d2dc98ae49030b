-- ===== src/Extract.antt =====
-- src/lib.rs: `extract_node`, which writes a subtree to the file system. The file system is the list
-- of the operations asked of it so far, and a parameter that says which ones it refuses.
pub mod Paths
pub mod Asks
pub mod Inside
use isomage.Prelude.{
  ℕ, zero, suc, ◌+◌, ◌-◌, ◌*◌, ◌/◌, Bool, true, false, ◌&&◌, ◌||◌, not, List, [], ◌∷◌, ◌++◌, Option,
  none, some, ◌==◌, if◌then◌else◌, min, Result, ok, err,
}
use isomage.Text.{Str, codes, str_eq, is_empty, split_on}
use isomage.Reader.{Reader, IoError, seek_start, read_exact}
use isomage.Tree.{TreeNode, node, Children, nil, cons}
use isomage.Cat.{chunk_size}

-- The components of a path, from the root.
abbrev pub FilePath : Type 0
FilePath = List Str

pub data Op : Type 0 where
  create_dir_all create : FilePath → Op
  write_all : FilePath → List ℕ → Op

-- `no_fuel` is a run that the model's fuel does not cover.
pub data Error : Type 0 where
  unsafe_name separator_in_name path_escape no_location refused no_fuel : Error
  io : IoError → Error

pub record State : Type 0 where
  pub reader : Reader
  pub log : List Op

abbrev pub X : Type 0 → Type 0
X A = State → Result Error A × State

module _ {A B : Type 0} where
  infixl 5 ◌>>=◌
  abbrev pub ◌>>=◌ : X A → (A → X B) → X B
  ◌>>=◌ m f s = let (res, s') = m s in elim res [ ok a ↦ f a s' | err e ↦ (err e, s') ]

infixl 5 ◌>>◌
abbrev pub ◌>>◌ : {A B : Type 0} → X A → X B → X B
m >> k = m >>= λ _. k

abbrev pub done : X (Unit {0})
done s = (ok tt, s)

abbrev pub fail : {A : Type 0} → Error → X A
fail e s = (err e, s)

abbrev pub lift : {A : Type 0} → Result Error A → X A
lift res s = (res, s)

unfoldable pub contains : ℕ → Str → Bool
contains c [] = false
contains c (x ∷ s) = (x == c) || contains c s

unfoldable pub validate_entry_name : Str → Result Error (Unit {0})
validate_entry_name name =
    if is_empty name || str_eq name (codes ".") || str_eq name (codes "..")
    then err unsafe_name
    else if contains b'/' name || contains 92 name || contains 0 name
    then err separator_in_name
    else ok tt

-- The components of a relative path: empty ones and `.` are none.
unfoldable pub components : List Str → FilePath
components [] = []
components (p ∷ ps) =
    if is_empty p || str_eq p (codes ".") then components ps else p ∷ components ps

-- `Path::join`: an absolute path takes the place of the first one.
unfoldable pub join : FilePath → Str → FilePath
join here [] = here
join here (c ∷ s) =
    let parts = components (split_on b'/' (c ∷ s)) in if c == b'/' then parts else here ++ parts

-- `Path::starts_with`.
unfoldable pub starts_with : FilePath → FilePath → Bool
starts_with path [] = true
starts_with [] (c ∷ cs) = false
starts_with (p ∷ ps) (c ∷ cs) = str_eq p c && starts_with ps cs

-- The check of the path, after that of the name.
unfoldable pub check_path : FilePath → FilePath → Result Error (Unit {0}) → Result Error FilePath
check_path root target (err e) = err e
check_path root target (ok checked) =
    if not (starts_with target root) then err path_escape else ok target

unfoldable pub safe_join : FilePath → FilePath → Str → Result Error FilePath
safe_join root here name = check_path root (join here name) (validate_entry_name name)

-- `Path::parent`: the root has none.
unfoldable pub parent : FilePath → Option FilePath
parent [] = none
parent (p ∷ []) = some []
parent (p ∷ q ∷ ps) = elim (parent (q ∷ ps)) [ none ↦ none | some front ↦ some (p ∷ front) ]

abbrev pub seek : ℕ → X ℕ
seek n s =
    let (res, r) = seek_start n s.reader in
    elim res [
      | ok a ↦ (ok a, record s { reader = r })
      | err e ↦ (err (io e), record s { reader = r })
    ]

abbrev pub read : ℕ → X (List ℕ)
read n s =
    let (res, r) = read_exact n s.reader in
    elim res [
      | ok a ↦ (ok a, record s { reader = r })
      | err e ↦ (err (io e), record s { reader = r })
    ]

module _ (refuses : List Op → Op → Bool) where
  -- One operation, which the file system may refuse.
  unfoldable pub perform : Op → X (Unit {0})
  perform op s =
      let s' : State = record s { log = s.log ++ op ∷ [] } in
      if refuses s.log op then (err refused, s') else (ok tt, s')

  unfoldable pub copy_loop : ℕ → FilePath → ℕ → X (Unit {0})
  copy_loop zero target remaining = fail no_fuel
  copy_loop (suc fuel) target remaining =
      let to_read = min remaining chunk_size in
      let rest : X (Unit {0}) = read to_read >>= λ buf.
      perform (write_all target buf) >> copy_loop fuel target (remaining - to_read) in
      if remaining == 0 then done else rest

  unfoldable pub create_known : Option FilePath → X (Unit {0})
  create_known none = done
  create_known (some p) = perform (create_dir_all p)

  unfoldable pub create_parent : FilePath → X (Unit {0})
  create_parent target = create_known (parent target)

  unfoldable pub extract_file_at : Option ℕ → Option ℕ → FilePath → X (Unit {0})
  extract_file_at (some location) (some len) target =
      seek location
      >> create_parent target
      >> perform (create target)
      >> copy_loop (suc (len / chunk_size + 1)) target len
  extract_file_at (some location) none target = fail no_location
  extract_file_at none len target = fail no_location

  unfoldable mutual
    pub extract_into : TreeNode → FilePath → FilePath → X (Unit {0})
    extract_into (node name size is_directory children location len) root here =
        lift (safe_join root here name) >>= λ target.
        if is_directory
        then perform (create_dir_all target) >> extract_all children root target
        else extract_file_at location len target

    -- The loop over the children.
    pub extract_all : Children → FilePath → FilePath → X (Unit {0})
    extract_all nil root here = done
    extract_all (cons c cs) root here = extract_into c root here >> extract_all cs root here

  -- The root of a tree is not made itself: its children go to the output directory.
  unfoldable pub extract_root : TreeNode → FilePath → X (Unit {0})
  extract_root (node name size is_directory children location len) root =
      if is_directory && str_eq name (codes "/")
      then extract_all children root root
      else extract_into (node name size is_directory children location len) root root

  unfoldable pub extract_known : TreeNode → Option FilePath → X (Unit {0})
  extract_known t none = fail refused
  extract_known t (some root) = extract_root t root

  -- `canonicalize` is the file system's, and fails or gives the path of the output directory.
  unfoldable pub extract_node : (FilePath → Option FilePath) → TreeNode → FilePath → X (Unit {0})
  extract_node canonicalize t output_path =
      perform (create_dir_all output_path) >> extract_known t (canonicalize output_path)
