-- ===== src/Wim/Sizes.antt =====
-- src/formats/wim.rs: the sizes in the tree of a WIM file.
use isomage.Prelude.{
  ℕ, zero, suc, ◌≡◌, refl, ap, subst, Bool, true, false, List, [], ◌∷◌, Option, none, some,
  if◌then◌else◌, min, ok,
}
use isomage.Text.{codes}
use isomage.Reader.{Reader, ◌>>=◌, fail, lift}
use isomage.Reader.Laws.{>>=-eq-ok}
use isomage.Tree.{
  TreeNode, node, Children, nil, cons, size, is_directory, children, new_directory, push, add_child,
  add_sizes, calculate_directory_size, calculate_children,
}
use isomage.Wim.Xml.{ImageEntry, parse_xml, sort_entries}
use isomage.Wim.{
  Header, is_compressed, numbered, add_numbered, entry_name, with_size, add_entries, images_node,
  to_tree, read_header, read_xml, compressed, detect_and_parse,
}

-- A directory without children, of any size.
abbrev IsImage : TreeNode → Type 0
IsImage t = (is_directory t ≡ true) × (children t ≡ nil)

abbrev AllNodes : (TreeNode → Type 0) → Children → Type 0
AllNodes P nil = Unit {0}
AllNodes P (cons c cs) = P c × AllNodes P cs

-- A directory of images.
abbrev HoldsImages : TreeNode → Type 0
HoldsImages t = (is_directory t ≡ true) × AllNodes IsImage (children t)

-- An image whose size is 0.
abbrev pub IsEmptyImage : TreeNode → Type 0
IsEmptyImage t = (size t ≡ 0) × (is_directory t ≡ true) × (children t ≡ nil)

-- The root is a directory of size 0, and so is each image in it, which is empty.
abbrev pub HoldsEmptyImages : TreeNode → Type 0
HoldsEmptyImages t = (size t ≡ 0) × AllNodes IsEmptyImage (children t)

AllNodes-push :
    (P : TreeNode → Type 0) (c : TreeNode) (cs : Children)
    → AllNodes P cs
    → P c
    → AllNodes P (push c cs)
unfolding push
AllNodes-push P c nil h p = (p, tt)
AllNodes-push P c (cons x xs) (h, hs) p = (h, AllNodes-push P c xs hs p)

add_child-HoldsImages : (t c : TreeNode) → HoldsImages t → IsImage c → HoldsImages (add_child t c)
unfolding add_child
add_child-HoldsImages (node n s d cs loc len) c (dir, all) image =
    (dir, AllNodes-push IsImage c cs all image)

with_size-IsImage : (t : TreeNode) (total : Option ℕ) → IsImage t → IsImage (with_size t total)
unfolding with_size
with_size-IsImage t none h = h
with_size-IsImage (node n s d cs loc len) (some tb) h = h

add_numbered-HoldsImages :
    (count i : ℕ) (t : TreeNode) → HoldsImages t → HoldsImages (add_numbered count i t)
unfolding add_numbered new_directory
add_numbered-HoldsImages zero i t h = h
add_numbered-HoldsImages (suc count) i t h =
    add_numbered-HoldsImages count (suc i) _
      (add_child-HoldsImages t (new_directory (numbered i)) h (refl, refl))

add_entries-HoldsImages :
    (es : List ImageEntry) (t : TreeNode) → HoldsImages t → HoldsImages (add_entries es t)
unfolding add_entries new_directory
add_entries-HoldsImages [] t h = h
add_entries-HoldsImages (e ∷ es) t h = add_entries-HoldsImages es _ (
    add_child-HoldsImages t _ h
      (with_size-IsImage (new_directory (entry_name e)) e.total_bytes (refl, refl)))

images_node-HoldsImages : (count : ℕ) (es : List ImageEntry) → HoldsImages (images_node count es)
unfolding images_node new_directory
images_node-HoldsImages count [] =
    add_numbered-HoldsImages (min count 4096) 1 (new_directory (codes "/")) (refl, tt)
images_node-HoldsImages count (e ∷ es) =
    add_entries-HoldsImages (e ∷ es) (new_directory (codes "/")) (refl, tt)

-- An image's size is calculated anew, from no children.
calculated-IsEmptyImage : (t : TreeNode) → IsImage t → IsEmptyImage (calculate_directory_size t)
unfolding calculate_directory_size calculate_children add_sizes
calculated-IsEmptyImage (node n s d cs loc len) (dir, empty) = rw (dir, empty) (refl, refl, refl)

calculate_children-empty :
    (cs : Children) → AllNodes IsImage cs → AllNodes IsEmptyImage (calculate_children cs)
unfolding calculate_children
calculate_children-empty nil h = tt
calculate_children-empty (cons c cs) (h, hs) =
    (calculated-IsEmptyImage c h, calculate_children-empty cs hs)

add_sizes-empty : (cs : Children) → AllNodes IsEmptyImage cs → add_sizes 0 cs ≡ 0
unfolding add_sizes
add_sizes-empty nil h = refl
add_sizes-empty (cons c cs) ((z, is, empty), hs) = rw z (add_sizes-empty cs hs)

calculated-HoldsEmptyImages :
    (t : TreeNode) → HoldsImages t → HoldsEmptyImages (calculate_directory_size t)
unfolding calculate_directory_size
calculated-HoldsEmptyImages (node n s d cs loc len) (dir, all) =
    let empty = calculate_children-empty cs all in
    rw dir (add_sizes-empty (calculate_children cs) empty, empty)

to_tree-HoldsEmptyImages :
    (count : ℕ) (es : Option (List ImageEntry)) (root : TreeNode)
    → to_tree count es ≡ ok root
    → HoldsEmptyImages root
unfolding to_tree
to_tree-HoldsEmptyImages count none root h = absurd cc
to_tree-HoldsEmptyImages count (some es) root h =
    let e : calculate_directory_size (images_node count (sort_entries es)) ≡ root = cc in
    subst HoldsEmptyImages e
      (calculated-HoldsEmptyImages _ (images_node-HoldsImages count (sort_entries es)))

after_header :
    (b : Bool) (header : Header) (r r' : Reader) (root : TreeNode)
    → (if b
          then fail compressed
          else (read_xml header.xml_data >>= λ xml_text.
              lift (to_tree header.image_count (parse_xml xml_text))))
        r
      ≡ (ok root, r')
    → HoldsEmptyImages root
after_header true header r r' root h = absurd cc
after_header false header r r' root h =
    let (xml_text, read_ok, h₁) =
      >>=-eq-ok (read_xml header.xml_data)
        (λ xml_text. lift (to_tree header.image_count (parse_xml xml_text))) r h in
    to_tree-HoldsEmptyImages header.image_count (parse_xml xml_text) root (ap (λ x. x.0) h₁)

-- Whatever `TOTALBYTES` says in the metadata, in the tree of a WIM file the size of the root and of
-- every image is 0, since each image is a directory without children.
pub detect_and_parse-HoldsEmptyImages :
    (r : Reader) (root : TreeNode) → (detect_and_parse r).0 ≡ ok root → HoldsEmptyImages root
unfolding detect_and_parse
detect_and_parse-HoldsEmptyImages r root h =
    let (header, read_ok, h₁) =
      >>=-eq-ok read_header
        (λ header.
          if is_compressed header.xml_data
          then fail compressed
          else (read_xml header.xml_data >>= λ xml_text.
              lift (to_tree header.image_count (parse_xml xml_text))))
        r (ap (λ res. (res, (detect_and_parse r).1)) h) in
    after_header (is_compressed header.xml_data) header (read_header r).1 (detect_and_parse r).1
      root h₁
