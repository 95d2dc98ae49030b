-- ===== src/Dmg/Plist.antt =====
-- src/formats/dmg.rs: the partition names in the plist. Where the source keeps a position in the
-- text, these functions keep what is left of it.
use isomage.Prelude.{ℕ, zero, suc, List, [], ◌∷◌, ◌++◌, Option, none, some, if◌then◌else◌, length}
use isomage.Text.{Str, codes, is_empty, trim}
use isomage.Wim.Xml.{find}

-- The text behind the pattern.
unfoldable pub behind : Str → Str → Option Str
behind pattern text = elim (find pattern text) [ none ↦ none | some (before, after) ↦ some after ]

-- The text before the pattern.
unfoldable pub before : Str → Str → Option Str
before pattern text = elim (find pattern text) [ none ↦ none | some (inner, after) ↦ some inner ]

abbrev pub bind : {A B : Type 0} → Option A → (A → Option B) → Option B
bind none f = none
bind (some a) f = f a

unfoldable pub extract_keyed_string : Str → Str → Option Str
extract_keyed_string text key = bind (behind (codes "<key>" ++ key ++ codes "</key>") text) λ rest.
    bind (behind (codes "<string>") rest)
      λ value. bind (before (codes "</string>") value) λ inner. some (trim inner)

unfoldable pub or_else : Option Str → Option Str → Str
or_else (some name) other = name
or_else none (some name) = name
or_else none none = []

unfoldable pub entry_name : Str → Str
entry_name dict_body =
    or_else (extract_keyed_string dict_body (codes "CFName"))
      (extract_keyed_string dict_body (codes "Name"))

unfoldable pub push_name : Str → List Str → List Str
push_name name entries = if is_empty name then entries else name ∷ entries

-- The next `<dict>`: its body, and what follows its end.
unfoldable pub next_dict : Str → Option (Str × Str)
next_dict body = bind (behind (codes "<dict>") body) λ rest. find (codes "</dict>") rest

-- The loop over the dictionaries; `none` means that the fuel ran out.
unfoldable pub dict_loop : ℕ → Str → Option (List Str)
dict_loop zero body = none
dict_loop (suc fuel) body = elim (next_dict body) [
  | none ↦ some []
  | some (dict_body, rest) ↦ elim (dict_loop fuel rest) [
    | none ↦ none
    | some entries ↦ some (push_name (entry_name dict_body) entries)
  ]
]

-- What stands between `<array>` and `</array>` behind the key `blkx`.
unfoldable pub array_body : Str → Option Str
array_body xml =
    bind (behind (codes "<key>blkx</key>") xml)
      λ rest. bind (behind (codes "<array>") rest) λ body. before (codes "</array>") body

unfoldable pub parse_plist_xml : Str → Option (List Str)
parse_plist_xml xml = elim (array_body xml) [
  | none ↦ some []
  | some body ↦ dict_loop (suc (length body)) body
]
