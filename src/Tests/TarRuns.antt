-- ===== src/Tests/TarRuns.antt =====
-- src/formats/tar.rs on an archive that its own writer makes, and on an entry with an absolute
-- path.
use isomage.Prelude.{
  ℕ, ◌≡◌, ◌≢◌, refl, true, false, List, [], ◌∷◌, ◌++◌, none, some, ok, length, arith, replicate,
}
use isomage.Text.{codes}
use isomage.Bytes.{slice}
use isomage.Reader.{Reader}
use isomage.Tree.{TreeNode, node, nil, cons}
use isomage.Tar.{octal, parse_octal, header, has_ustar_magic, entry_name, parse_pax, write_entry}
use isomage.Tar.Scan.{TarEntry, scan_entries}
use isomage.Tar.Build.{build_tree}
use isomage.Tar.Progress.{scan_entries_fuel}
use isomage.Tar.Header.{header-IsReadBack}

abbrev archive : List ℕ
archive = header (codes "a/b") 2 ++ (codes "hi" ++ replicate 1534 0)

abbrev reader : Reader
reader = record { image = archive; pos = 9 }

abbrev scanned : TarEntry
scanned = record { name = codes "a/b"; size = 2; is_dir = false; data_offset = 512 }

abbrev absolute : TarEntry
absolute = record { name = codes "/b"; size = 2; is_dir = false; data_offset = 512 }

scans : (scan_entries reader).0 ≡ ok (some (scanned ∷ []))
unfolding scan_entries isomage.Tar.Scan.scan_loop isomage.Tar.Scan.after_step
    isomage.Tar.Scan.scan_step isomage.Tar.Scan.after_read isomage.Tar.Scan.block_step
    isomage.Tar.Scan.header_block isomage.Tar.Scan.push_entry isomage.Tar.Scan.no_entries
    isomage.Tar.Scan.is_none isomage.Tar.Scan.is_file_type isomage.Tar.Scan.ends_with_slash
    isomage.Tar.Scan.without_dot_slash isomage.Tar.unwrap_or isomage.Tar.parse_octal
    isomage.Tar.entry_name isomage.Tar.parse_name isomage.Tar.until_nul
    isomage.Tar.until_nul_or_space isomage.Tar.has_ustar_magic isomage.Tar.header
    isomage.Tar.header_with isomage.Tar.after_name isomage.Tar.name_field isomage.Tar.octal
    isomage.Tar.sum_bytes isomage.Bytes.slice isomage.Bytes.all_zero isomage.Reader.read_exact
    isomage.Reader.seek_start isomage.Reader.seek_current isomage.Text.trim
    isomage.Text.trim_end_char isomage.Text.is_empty isomage.Text.str_eq
    isomage.Text.Decimal.from_str_radix isomage.Text.Decimal.digits_value
    isomage.Text.Decimal.without_plus isomage.Text.Utf8.from_utf8 isomage.Text.Utf8.from_utf8_lossy
scans = refl

builds :
    build_tree (scanned ∷ [])
    ≡ node
        (codes "/")
        2
        true
        (cons
          (node
            (codes "a")
            2
            true
            (cons (node (codes "b") 2 false nil (some 512) (some 2)) nil)
            none
            none)
          nil)
        none
        none
unfolding isomage.Tar.Build.build_tree isomage.Tar.Build.add_entries isomage.Tar.Build.add_entry
    isomage.Tar.Build.add_components isomage.Tar.Build.or_insert isomage.Tar.Build.get
    isomage.Tar.Build.update isomage.Tar.Build.remove isomage.Tar.Build.set_leaf
    isomage.Tar.Build.non_empty isomage.Tar.Build.keys isomage.Tar.Build.sort_paths
    isomage.Tar.Build.insert_path isomage.Tar.Build.str_leb isomage.Tar.Build.attach
    isomage.Tar.Build.attach_keys isomage.Tar.Build.children_of isomage.Tar.Build.parent_of
    isomage.Tar.Build.before_last_slash isomage.Tree.new_directory isomage.Tree.add_child
    isomage.Tree.push isomage.Tree.calculate_directory_size isomage.Tree.calculate_children
    isomage.Tree.add_sizes isomage.Text.split_on isomage.Text.trim_end_char isomage.Text.is_empty
    isomage.Text.str_eq
builds = refl

-- The file of an absolute path comes out as an empty directory.
builds_absolute :
    build_tree (absolute ∷ [])
    ≡ node (codes "/") 0 true (cons (node (codes "b") 0 true nil none none) nil) none none
unfolding isomage.Tar.Build.build_tree isomage.Tar.Build.add_entries isomage.Tar.Build.add_entry
    isomage.Tar.Build.add_components isomage.Tar.Build.or_insert isomage.Tar.Build.get
    isomage.Tar.Build.update isomage.Tar.Build.remove isomage.Tar.Build.set_leaf
    isomage.Tar.Build.non_empty isomage.Tar.Build.keys isomage.Tar.Build.sort_paths
    isomage.Tar.Build.insert_path isomage.Tar.Build.str_leb isomage.Tar.Build.attach
    isomage.Tar.Build.attach_keys isomage.Tar.Build.children_of isomage.Tar.Build.parent_of
    isomage.Tar.Build.before_last_slash isomage.Tree.new_directory isomage.Tree.add_child
    isomage.Tree.push isomage.Tree.calculate_directory_size isomage.Tree.calculate_children
    isomage.Tree.add_sizes isomage.Text.split_on isomage.Text.trim_end_char isomage.Text.is_empty
    isomage.Text.str_eq
builds_absolute = refl

scan_entries_fuel_example : (scan_entries reader).0 ≢ ok none
scan_entries_fuel_example = scan_entries_fuel reader

header-IsReadBack_example :
    (length (header (codes "a/b") 2) ≡ 512)
    × (has_ustar_magic (header (codes "a/b") 2) ≡ true)
    × (entry_name (header (codes "a/b") 2) ≡ codes "a/b")
    × (parse_octal (slice (header (codes "a/b") 2) 124 136) ≡ 2)
    × (slice (header (codes "a/b") 2) 156 157 ≡ b'0' ∷ [])
header-IsReadBack_example =
    header-IsReadBack (codes "a/b") 2 (omega arith) (omega arith) (omega arith)
