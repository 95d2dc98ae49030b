-- ===== src/Tests/ExtractRuns.antt =====
-- src/lib.rs: `extract_node` into the directory `/out`.
use isomage.Prelude.{◌≡◌, ◌⊎◌, refl, Bool, true, false, List, [], ◌∷◌, Option, none, some, err, All}
use isomage.Text.{Str, codes}
use isomage.Bytes.{slice}
use isomage.Reader.{Reader}
use isomage.Tree.{TreeNode, node, nil, cons, new_file_with_location}
use isomage.Extract.{
  FilePath, Op, create_dir_all, create, write_all, State, unsafe_name, path_escape,
  validate_entry_name, safe_join, extract_node,
}
use isomage.Extract
use isomage.Extract.Inside.{IsInside, extract_node-IsInside}

abbrev output : FilePath
output = codes "out" ∷ []

-- A root with a directory that holds one file.
abbrev tree : TreeNode
tree =
    node (codes "/") 2 true
      (cons
        (node (codes "a") 2 true (cons (new_file_with_location (codes "b") 2 1 2) nil) none none)
        nil)
      none none

abbrev climbing : TreeNode
climbing = new_file_with_location (codes "..") 2 1 2

abbrev reader : Reader
reader = record { image = codes "hello"; pos = 0 }

abbrev allows : List Op → Op → Bool
allows log op = false

abbrev itself : FilePath → Option FilePath
itself p = some p

refuses_parent : validate_entry_name (codes "..") ≡ err unsafe_name
unfolding validate_entry_name isomage.Text.is_empty isomage.Text.str_eq
refuses_parent = refl

extracts :
    (extract_node allows itself tree output (record { reader = reader; log = [] })).1.log
    ≡ create_dir_all output
      ∷ create_dir_all (codes "out" ∷ codes "a" ∷ [])
      ∷ create_dir_all (codes "out" ∷ codes "a" ∷ [])
      ∷ create (codes "out" ∷ codes "a" ∷ codes "b" ∷ [])
      ∷ write_all (codes "out" ∷ codes "a" ∷ codes "b" ∷ []) (codes "el")
      ∷ []
unfolding extract_node isomage.Extract.extract_known isomage.Extract.extract_root
    isomage.Extract.extract_all isomage.Extract.extract_into isomage.Extract.extract_file_at
    isomage.Extract.create_parent isomage.Extract.create_known isomage.Extract.copy_loop
    isomage.Extract.perform safe_join isomage.Extract.check_path isomage.Extract.parent
    isomage.Extract.starts_with isomage.Extract.join isomage.Extract.components validate_entry_name
    isomage.Extract.contains isomage.Text.is_empty isomage.Text.str_eq isomage.Text.split_on
    new_file_with_location isomage.Reader.seek_start isomage.Reader.read_exact slice
extracts = refl

extract_node-IsInside_example :
    All
      (λ op. (op ≡ create_dir_all output) ⊎ IsInside output op)
      (extract_node allows itself climbing output (record { reader = reader; log = [] })).1.log
extract_node-IsInside_example =
    extract_node-IsInside allows itself climbing output output reader refl
