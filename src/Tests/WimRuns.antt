-- ===== src/Tests/WimRuns.antt =====
-- src/formats/wim.rs on a file with one image, whose metadata gives it nine bytes.
use isomage.Prelude.{ℕ, ◌≡◌, refl, true, List, [], ◌∷◌, ◌++◌, none, some, ok, length, replicate}
use isomage.Text.{Str, codes}
use isomage.Reader.{Reader}
use isomage.Tree.{TreeNode, node, nil, cons}
use isomage.Wim.Xml.{ImageEntry, parse_xml}
use isomage.Wim.{wim_magic, bad_magic, detect, detect_and_parse}
use isomage.Wim.Sizes.{HoldsEmptyImages, detect_and_parse-HoldsEmptyImages}

abbrev metadata : Str
metadata = codes "<IMAGE INDEX=\"1\"><NAME>a</NAME><TOTALBYTES>9</TOTALBYTES></IMAGE>"

abbrev wide : Str → List ℕ
wide [] = []
wide (c ∷ s) = c ∷ 0 ∷ wide s

-- The metadata begins behind the header, at 208.
abbrev file : List ℕ
file =
    wim_magic
    ++ (replicate 72 0
        ++ (208 ∷ 0 ∷ 0 ∷ 0 ∷ 0 ∷ 0 ∷ 0 ∷ 0 ∷ length (wide metadata) ∷ replicate 119 0
            ++ wide metadata))

abbrev reader : Reader
reader = record { image = file; pos = 0 }

abbrev root : TreeNode
root = node (codes "/") 0 true (cons (node (codes "a") 0 true nil none none) nil) none none

entries :
    parse_xml metadata
    ≡ some (record { index = 1; name = some (codes "a"); total_bytes = some 9 } ∷ [])
unfolding parse_xml isomage.Wim.Xml.xml_loop isomage.Wim.Xml.next_image isomage.Wim.Xml.image_entry
    isomage.Wim.Xml.index_or_zero isomage.Wim.Xml.parse_attr_u32 isomage.Wim.Xml.attr_value
    isomage.Wim.Xml.quoted_u32 isomage.Wim.Xml.parse_u32 isomage.Wim.Xml.extract_tag
    isomage.Wim.Xml.find isomage.Text.strip_prefix isomage.Text.split_once isomage.Text.trim
    isomage.Text.is_whitespace isomage.Text.Decimal.from_str_radix isomage.Text.Decimal.digits_value
    isomage.Text.Decimal.without_plus isomage.Text.Decimal.digit
entries = refl

parses : (detect_and_parse reader).0 ≡ ok root
unfolding detect_and_parse isomage.Wim.read_header isomage.Wim.check_header isomage.Wim.from_bytes
    isomage.Wim.is_compressed isomage.Wim.eof_error isomage.Wim.read_xml isomage.Wim.check_xml
    isomage.Wim.utf16le_to_string isomage.Wim.le_units isomage.Wim.without_bom isomage.Wim.to_tree
    isomage.Wim.images_node isomage.Wim.add_entries isomage.Wim.with_size isomage.Wim.entry_name
    isomage.Wim.Xml.sort_entries isomage.Wim.Xml.insert_entry isomage.Wim.Xml.parse_xml
    isomage.Wim.Xml.xml_loop isomage.Wim.Xml.next_image isomage.Wim.Xml.image_entry
    isomage.Wim.Xml.index_or_zero isomage.Wim.Xml.parse_attr_u32 isomage.Wim.Xml.attr_value
    isomage.Wim.Xml.quoted_u32 isomage.Wim.Xml.parse_u32 isomage.Wim.Xml.extract_tag
    isomage.Wim.Xml.find isomage.Text.strip_prefix isomage.Text.split_once isomage.Text.trim
    isomage.Text.is_whitespace isomage.Text.is_empty isomage.Text.str_eq
    isomage.Text.Decimal.from_str_radix isomage.Text.Decimal.digits_value
    isomage.Text.Decimal.without_plus isomage.Text.Decimal.digit isomage.Text.Utf8.from_utf16_lossy
    isomage.Bytes.slice isomage.Bytes.le32 isomage.Bytes.le64 isomage.Reader.seek_start
    isomage.Reader.seek_end isomage.Reader.read_exact isomage.Tree.new_directory
    isomage.Tree.add_child isomage.Tree.push isomage.Tree.add_sizes
    isomage.Tree.calculate_directory_size isomage.Tree.calculate_children
parses = refl

detect_and_parse-HoldsEmptyImages_example : HoldsEmptyImages root
detect_and_parse-HoldsEmptyImages_example = detect_and_parse-HoldsEmptyImages reader root parses
