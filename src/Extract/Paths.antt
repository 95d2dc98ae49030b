-- ===== src/Extract/Paths.antt =====
-- src/lib.rs: the names that `validate_entry_name` lets pass, and the paths that `safe_join` makes.
use isomage.Prelude.{
  ◌≡◌, ◌≢◌, refl, ap, ◌∙◌, false, [], ◌∷◌, ◌++◌, some, ◌==◌, All, arith, Bool-cases, inl, inr,
  Result, ok, err,
}
use isomage.Text.{Str, codes, str_eq, str_eq_iff, is_empty, split_on}
use isomage.Extract.{
  FilePath, Error, contains, validate_entry_name, components, join, unsafe_name, check_path,
  safe_join, parent,
}

-- A name that stands for one entry of its directory.
pub record IsEntryName (name : Str) : Type 0 where
  pub not_empty : name ≢ []
  pub not_dot : name ≢ codes "."
  pub not_dotdot : name ≢ codes ".."
  pub chars : All (λ c. (c ≢ b'/') × (c ≢ 92) × (c ≢ 0)) name

contains-All :
    (s : Str)
    → contains b'/' s ≡ false
    → contains 92 s ≡ false
    → contains 0 s ≡ false
    → All (λ c. (c ≢ b'/') × (c ≢ 92) × (c ≢ 0)) s
unfolding contains
contains-All [] h k l = tt
contains-All (x ∷ s) h k l =
    (ground arith, contains-All s (ground arith) (ground arith) (ground arith))

not_bad :
    (name bad : Str)
    → validate_entry_name name ≡ ok tt
    → validate_entry_name bad ≡ err unsafe_name
    → name ≢ bad
not_bad name bad e f eq = cc (e, f, ap validate_entry_name eq)

validate_entry_name-IsEntryName : (name : Str) → validate_entry_name name ≡ ok tt → IsEntryName name
unfolding validate_entry_name is_empty str_eq
validate_entry_name-IsEntryName name e = record {
  not_empty = not_bad name [] e refl;
  not_dot = not_bad name (codes ".") e refl;
  not_dotdot = not_bad name (codes "..") e refl;
  chars = contains-All name (ground arith) (ground arith) (ground arith);
}

split_on_whole : (s : Str) → All (λ c. (c ≢ b'/') × (c ≢ 92) × (c ≢ 0)) s → split_on b'/' s ≡ s ∷ []
unfolding split_on
split_on_whole [] h = refl
split_on_whole (x ∷ s) (h, hs) =
    let ne : (x == b'/') ≡ false = ground arith in rw (ne, split_on_whole s hs) refl

components_one : (name : Str) → IsEntryName name → components (name ∷ []) ≡ name ∷ []
unfolding components is_empty
components_one [] is = absurd (is.not_empty refl)
components_one (c ∷ s) is = elim (Bool-cases (str_eq (c ∷ s) (codes "."))) [
  | inl dot ↦ absurd (is.not_dot ((str_eq_iff _ _).0 dot))
  | inr other ↦ rw other refl
]

join_name : (here : FilePath) (name : Str) → IsEntryName name → join here name ≡ here ++ name ∷ []
unfolding join
join_name here [] is = absurd (is.not_empty refl)
join_name here (c ∷ s) is =
    let ne : (c == b'/') ≡ false = ground (arith, is.chars) in
    rw (ne, split_on_whole (c ∷ s) is.chars, components_one (c ∷ s) is) refl

check_path-eq-ok :
    (root path : FilePath) (v : Result Error (Unit {0})) {target : FilePath}
    → check_path root path v ≡ ok target
    → (v ≡ ok tt) × (target ≡ path)
unfolding check_path
check_path-eq-ok root path (ok tt) e = (refl, ground arith)
check_path-eq-ok root path (err f) e = cc

pub safe_join-eq-ok :
    (root here : FilePath) (name : Str) {target : FilePath}
    → safe_join root here name ≡ ok target
    → IsEntryName name × (target ≡ here ++ name ∷ [])
unfolding safe_join
safe_join-eq-ok root here name e =
    let (checked, same) = check_path-eq-ok root (join here name) (validate_entry_name name) e in
    let is = validate_entry_name-IsEntryName name checked in (is, same ∙ join_name here name is)

-- The parent of a path is what stands before its last component.
pub parent-concat : (here : FilePath) (name : Str) → parent (here ++ name ∷ []) ≡ some here
unfolding parent
parent-concat [] name = refl
parent-concat (p ∷ []) name = refl
parent-concat (p ∷ q ∷ ps) name = rw (parent-concat (q ∷ ps) name) refl
