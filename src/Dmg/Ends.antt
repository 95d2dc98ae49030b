-- ===== src/Dmg/Ends.antt =====
-- src/formats/dmg.rs and src/formats/wim.rs: the loops over the metadata.
use isomage.Prelude.{
  ℕ, zero, suc, ◌+◌, ◌≤◌, ◌<◌, ◌≡◌, ◌≢◌, refl, List, [], ◌∷◌, ◌++◌, Option, none, some, ◌==◌,
  length, arith, subst, Bool-cases, Option-cases, inl, inr, ap,
}
use isomage.Text.{Str, codes, strip_prefix, split_once}
use isomage.Wim.Xml.{find, ImageEntry, next_image, xml_loop, parse_xml}
use isomage.Dmg.Plist.{behind, bind, next_dict, dict_loop, array_body, parse_plist_xml}

-- What is left behind a prefix.
abbrev IsRest : Str → Str → Option Str → Type 0
IsRest pattern s none = Unit
IsRest pattern s (some after) = length pattern + length after ≡ length s

-- What stands before a match and behind it.
abbrev IsSplit : Str → Str → Option (Str × Str) → Type 0
IsSplit pattern s none = Unit
IsSplit pattern s (some (before, after)) = length before + length pattern + length after ≡ length s

longer : (p c : ℕ) (ps cs : Str) (x : Option Str) → IsRest ps cs x → IsRest (p ∷ ps) (c ∷ cs) x
longer p c ps cs none h = tt
longer p c ps cs (some after) h = omega arith

strip_prefix-IsRest : (pattern s : Str) → IsRest pattern s (strip_prefix pattern s)
unfolding strip_prefix
strip_prefix-IsRest [] s = omega arith
strip_prefix-IsRest (p ∷ ps) [] = tt
strip_prefix-IsRest (p ∷ ps) (c ∷ cs) = elim (Bool-cases (p == c)) [
  | inl e ↦ rw e (longer p c ps cs (strip_prefix ps cs) (strip_prefix-IsRest ps cs))
  | inr e ↦ rw e tt
]

of_prefix :
    (pattern s : Str) (x : Option Str)
    → IsRest pattern s x
    → IsSplit pattern s
        (let y : Option (Str × Str) = elim x [ some after ↦ some ([], after) | none ↦ none ] in y)
of_prefix pattern s none h = tt
of_prefix pattern s (some after) h = omega arith

of_later :
    (pattern s : Str) (c : ℕ) (x : Option Str) (y : Option (Str × Str))
    → IsRest pattern (c ∷ s) x
    → IsSplit pattern s y
    → IsSplit pattern (c ∷ s) (
        let later : Option (Str × Str) = elim y [
          | none ↦ none
          | some (before, after) ↦ some (c ∷ before, after)
        ] in
        let z : Option (Str × Str) = elim x [ some after ↦ some ([], after) | none ↦ later ] in z)
of_later pattern s c (some after) y h k = omega arith
of_later pattern s c none none h k = tt
of_later pattern s c none (some (before, after)) h k = omega arith

find-IsSplit : (pattern s : Str) → IsSplit pattern s (find pattern s)
unfolding find
find-IsSplit pattern [] =
    of_prefix pattern [] (strip_prefix pattern []) (strip_prefix-IsRest pattern [])
find-IsSplit pattern (c ∷ s) =
    of_later pattern s c (strip_prefix pattern (c ∷ s)) (find pattern s)
      (strip_prefix-IsRest pattern (c ∷ s)) (find-IsSplit pattern s)

-- What is found lies in the text.
find-shorter :
    (pattern s : Str) {before after : Str}
    → find pattern s ≡ some (before, after)
    → length before + length pattern + length after ≡ length s
find-shorter pattern s {before} {after} e = subst (IsSplit pattern s) e (find-IsSplit pattern s)

rest_of :
    (pattern s : Str) (x : Option (Str × Str)) {after : Str}
    → IsSplit pattern s x
    → (let y : Option Str = elim x [ none ↦ none | some (before, after') ↦ some after' ] in y)
      ≡ some after
    → length after ≤ length s
rest_of pattern s none h e = cc
rest_of pattern s (some (before, after')) h e =
    omega
      (arith, ap (λ (y : Option Str). let n : ℕ = elim y [ none ↦ 0 | some t ↦ length t ] in n) e)

behind-shorter :
    (pattern s : Str) {after : Str} → behind pattern s ≡ some after → length after ≤ length s
unfolding behind
behind-shorter pattern s e = rest_of pattern s (find pattern s) (find-IsSplit pattern s) e

next_of :
    (body : Str) (x : Option Str) {dict rest : Str}
    → ((t : Str) → x ≡ some t → length t ≤ length body)
    → bind x (λ t. find (codes "</dict>") t) ≡ some (dict, rest)
    → length rest < length body
next_of body none h e = cc
next_of body (some t) h e = omega (arith, h t refl, find-shorter (codes "</dict>") t e)

next_dict-shorter :
    (body : Str) {dict rest : Str} → next_dict body ≡ some (dict, rest) → length rest < length body
unfolding next_dict
next_dict-shorter body e =
    next_of body (behind (codes "<dict>") body) (λ t h. behind-shorter (codes "<dict>") body h) e

dict_loop_total : (fuel : ℕ) (body : Str) → length body < fuel → dict_loop fuel body ≢ none
unfolding dict_loop
dict_loop_total zero body h = absurd (omega arith)
dict_loop_total (suc fuel) body h = elim (Option-cases (next_dict body)) [
  | inl e ↦ ground (arith, e)
  | inr ((dict, rest), e) ↦
      ground (arith, e, dict_loop_total fuel rest (omega (arith, next_dict-shorter body e)))
]

split_once-shorter :
    (c : ℕ) (s : Str) {after : Str} → (split_once c s).1 ≡ some after → length after ≤ length s
unfolding split_once
split_once-shorter c [] e = cc
split_once-shorter c (x ∷ s) {after} e = ground (arith, split_once-shorter c s {after = after})

next_image-shorter :
    (xml : Str) {entry : ImageEntry} {after : Str}
    → next_image xml ≡ some (entry, after)
    → length after < length xml
unfolding next_image
next_image-shorter xml e = elim (Option-cases (find (codes "<IMAGE") xml)) [
  | inl e1 ↦ ground (arith, e1)
  | inr ((before, head_on), e1) ↦ elim (Option-cases (split_once b'>' head_on).1) [
    | inl e2 ↦ ground (arith, e1, e2)
    | inr (body_on, e2) ↦ elim (Option-cases (find (codes "</IMAGE>") body_on)) [
      | inl e3 ↦ ground (arith, e1, e2, e3)
      | inr ((image_body, rest), e3) ↦ ground (
        arith,
        e1,
        e2,
        e3,
        find-shorter (codes "<IMAGE") xml e1,
        split_once-shorter b'>' head_on e2,
        find-shorter (codes "</IMAGE>") body_on e3,
      )
    ]
  ]
]

xml_loop_total :
    (fuel : ℕ) (xml : Str) (images : List ImageEntry)
    → length xml < fuel
    → xml_loop fuel xml images ≢ none
unfolding xml_loop
xml_loop_total zero xml images h = absurd (omega arith)
xml_loop_total (suc fuel) xml images h = elim (Option-cases (next_image xml)) [
  | inl e ↦ ground (arith, e)
  | inr ((entry, after), e) ↦ ground (
    arith,
    e,
    xml_loop_total fuel after (images ++ entry ∷ []) (omega (arith, next_image-shorter xml e)),
  )
]

plist_end : (xml : Str) → parse_plist_xml xml ≢ none
unfolding parse_plist_xml
plist_end xml = elim (Option-cases (array_body xml)) [
  | inl e ↦ ground (arith, e)
  | inr (body, e) ↦ ground (arith, e, dict_loop_total (suc (length body)) body (omega arith))
]

-- The loops over the entries of a DMG's plist and over the images of a WIM's metadata end on every
-- text, within a round for each character and one more.
pub metadata_loops_end : (xml : Str) → (parse_plist_xml xml ≢ none) × (parse_xml xml ≢ none)
unfolding parse_xml
metadata_loops_end xml = (plist_end xml, xml_loop_total (suc (length xml)) xml [] (omega arith))
