-- ===== src/Wim/Xml.antt =====
-- src/formats/wim.rs: the image entries in the XML metadata. Where the source keeps a position in
-- the text, these functions keep what is left of it.
use isomage.Prelude.{
  ℕ, zero, suc, ◌^◌, List, [], ◌∷◌, ◌++◌, Option, none, some, ltb, leb, ◌==◌, if◌then◌else◌, length,
}
use isomage.Text.{Str, codes, strip_prefix, split_once, trim}
use isomage.Text.Decimal.{from_str_radix}

pub record ImageEntry : Type 0 where
  pub index : ℕ
  pub name : Option Str
  pub total_bytes : Option ℕ

-- `find` with the slices around the match: what stands before it, and what follows it.
unfoldable pub find : Str → Str → Option (Str × Str)
find pattern [] = elim (strip_prefix pattern []) [ some after ↦ some ([], after) | none ↦ none ]
find pattern (c ∷ s) =
    let later : Option (Str × Str) = elim (find pattern s) [
      | none ↦ none
      | some (before, after) ↦ some (c ∷ before, after)
    ] in
    elim (strip_prefix pattern (c ∷ s)) [ some after ↦ some ([], after) | none ↦ later ]

-- The content between the tags; the callers take no position from it.
unfoldable pub extract_tag : Str → Str → Option Str
extract_tag text tag = elim (find (codes "<" ++ tag ++ codes ">") text) [
  | none ↦ none
  | some (before, content) ↦ elim (find (codes "</" ++ tag ++ codes ">") content) [
    | none ↦ none
    | some (inner, after) ↦ some inner
  ]
]

-- `parse::<u32>().ok()`.
unfoldable pub parse_u32 : Str → Option ℕ
parse_u32 s = elim (from_str_radix 10 s) [
  | none ↦ none
  | some n ↦ if ltb n (2 ^ 32) then some n else none
]

-- The value up to the closing quote.
unfoldable pub quoted_u32 : ℕ → Str → Option ℕ
quoted_u32 quote rest = elim (split_once quote rest).1 [
  | none ↦ none
  | some after ↦ parse_u32 (split_once quote rest).0
]

-- The value begins with a double or a single quote.
unfoldable pub attr_value : Str → Option ℕ
attr_value [] = none
attr_value (c ∷ rest) =
    if c == 34 then quoted_u32 34 rest else if c == 39 then quoted_u32 39 rest else none

unfoldable pub parse_attr_u32 : Str → Str → Option ℕ
parse_attr_u32 text name = elim (find (name ++ codes "=") text) [
  | none ↦ none
  | some (before, rest) ↦ attr_value rest
]

unfoldable pub index_or_zero : Option ℕ → ℕ
index_or_zero none = 0
index_or_zero (some n) = n

-- The entry of a tag head and a body.
unfoldable pub image_entry : Str → Str → ImageEntry
image_entry tag_head image_body = record {
  index = index_or_zero (parse_attr_u32 tag_head (codes "INDEX"));
  name = elim (extract_tag image_body (codes "NAME")) [ none ↦ none | some s ↦ some (trim s) ];
  total_bytes = elim (extract_tag image_body (codes "TOTALBYTES")) [
    | none ↦ none
    | some s ↦ from_str_radix 10 (trim s)
  ];
}

-- The next entry, and the text behind it. The tag head is taken without its `<IMAGE` and `>`, in
-- which no attribute can begin or end.
unfoldable pub next_image : Str → Option (ImageEntry × Str)
next_image xml = elim (find (codes "<IMAGE") xml) [
  | none ↦ none
  | some (before, head_on) ↦ elim (split_once b'>' head_on).1 [
    | none ↦ none
    | some body_on ↦ elim (find (codes "</IMAGE>") body_on) [
      | none ↦ none
      | some (image_body, after) ↦ some (image_entry (split_once b'>' head_on).0 image_body, after)
    ]
  ]
]

-- Every turn takes at least one character.
unfoldable pub xml_loop : ℕ → Str → List ImageEntry → Option (List ImageEntry)
xml_loop zero xml images = none
xml_loop (suc fuel) xml images = elim (next_image xml) [
  | none ↦ some images
  | some (entry, after) ↦ xml_loop fuel after (images ++ entry ∷ [])
]

unfoldable pub parse_xml : Str → Option (List ImageEntry)
parse_xml xml = xml_loop (suc (length xml)) xml []

-- `sort_by_key` is stable.
unfoldable pub insert_entry : ImageEntry → List ImageEntry → List ImageEntry
insert_entry e [] = e ∷ []
insert_entry e (x ∷ xs) = if leb e.index x.index then e ∷ x ∷ xs else x ∷ insert_entry e xs

unfoldable pub sort_entries : List ImageEntry → List ImageEntry
sort_entries [] = []
sort_entries (e ∷ es) = insert_entry e (sort_entries es)
