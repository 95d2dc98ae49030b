-- ===== src/Tests/VhdRuns.antt =====
-- src/formats/vhd.rs on a fixed image with three bytes of data.
use isomage.Prelude.{ℕ, ◌-◌, ◌≤◌, ◌≡◌, refl, true, List, [], ◌∷◌, ◌++◌, replicate, ok}
use isomage.Text.{codes, str_eq}
use isomage.Bytes.{slice, be32, be64}
use isomage.Reader.{Reader, seek_end, read_at}
use isomage.Vhd.{
  Footer, verify_checksum, sum_bytes, check_footer, read_footer, by_disk_type, parse_fixed,
  detect_and_parse,
}
use isomage.Vhd.Detect.{IsRead, fixed_tree, detect_and_parse-IsRead}

abbrev footer : List ℕ
footer =
    codes "conectix"
    ++ (replicate 40 0
        ++ ((0 ∷ 0 ∷ 0 ∷ 0 ∷ 0 ∷ 0 ∷ 0 ∷ 3 ∷ 0 ∷ 0 ∷ 0 ∷ 0 ∷ 0 ∷ 0 ∷ 0 ∷ 2 ∷ 0xff ∷ 0xff ∷ 0xfc
              ∷ 0x9d ∷ [])
            ++ replicate 444 0))

abbrev reader : Reader
reader = record { image = codes "abc" ++ footer; pos = 5 }

checks_out : verify_checksum footer ≡ true
unfolding verify_checksum sum_bytes be32
checks_out = refl

reads_fixed :
    detect_and_parse reader
    ≡ (ok (fixed_tree 3), record { image = codes "abc" ++ footer; pos = 515 })
unfolding detect_and_parse seek_end read_footer read_at check_footer by_disk_type parse_fixed
    verify_checksum sum_bytes be32 be64 slice str_eq fixed_tree
reads_fixed = refl

detect_and_parse-IsRead_example :
    (512 ≤ 515)
    × (f : Footer) × (check_footer (slice reader.image (515 - 512) 515) ≡ ok f)
    × IsRead 515 f (fixed_tree 3)
detect_and_parse-IsRead_example =
    detect_and_parse-IsRead reader (record { image = codes "abc" ++ footer; pos = 515 }) reads_fixed
