-- ===== src/Tests/DmgRuns.antt =====
-- src/formats/dmg.rs on a plist of two partitions.
use isomage.Prelude.{◌≡◌, ◌≢◌, refl, [], ◌∷◌, none, some}
use isomage.Text.{Str, codes}
use isomage.Wim.Xml.{parse_xml}
use isomage.Dmg.Plist.{parse_plist_xml}
use isomage.Dmg.Ends.{metadata_loops_end}

abbrev plist : Str
plist =
    codes
      "<key>blkx</key><array><dict><key>Name</key><string> a </string></dict><dict><key>CFName</key><string>b</string></dict></array>"

reads_names : parse_plist_xml plist ≡ some (codes "a" ∷ codes "b" ∷ [])
unfolding parse_plist_xml isomage.Dmg.Plist.array_body isomage.Dmg.Plist.behind
    isomage.Dmg.Plist.before isomage.Dmg.Plist.dict_loop isomage.Dmg.Plist.next_dict
    isomage.Dmg.Plist.entry_name isomage.Dmg.Plist.extract_keyed_string isomage.Dmg.Plist.or_else
    isomage.Dmg.Plist.push_name isomage.Wim.Xml.find isomage.Text.strip_prefix isomage.Text.trim
    isomage.Text.is_empty
reads_names = refl

metadata_loops_end_example : (parse_plist_xml plist ≢ none) × (parse_xml plist ≢ none)
metadata_loops_end_example = metadata_loops_end plist
