-- ===== src/Tests/NtfsRuns.antt =====
-- src/formats/ntfs.rs on a record of two sectors, on a list of runs, and on a boot sector.
use isomage.Prelude.{ℕ, ◌≡◌, inl, refl, List, [], ◌∷◌, ◌++◌, ok, err, false, replicate, arith}
use isomage.Text.{codes}
use isomage.Bytes.{le16, slice}
use isomage.Reader.{Reader}
use isomage.Ntfs.Record.{panic, BootSector, parse_boot_sector}
use isomage.Ntfs.Runs.{runlist, runs_of, decode_runlist-runlist}
use isomage.Ntfs.Attributes.{Run, parse_attributes, decode_runlist}
use isomage.Ntfs.{detect_and_parse, record_offset}
use isomage.Ntfs.Walk.{detect_and_parse-panic}

-- The array at byte 48 holds the sequence number 7, 7 and the entry 1, 2 for the first of two sectors.
abbrev record_bytes : List ℕ
record_bytes =
    replicate 4 0
    ++ (48 ∷ 0 ∷ 2 ∷ 0 ∷ [])
    ++ replicate 40 0
    ++ (7 ∷ 7 ∷ 1 ∷ 2 ∷ [])
    ++ replicate 458 0
    ++ (7 ∷ 7 ∷ [])
    ++ replicate 510 0
    ++ (7 ∷ 7 ∷ [])

-- The header 0x11 has a length of one byte and an offset of one byte; the second run goes back.
runs_forward_and_back : decode_runlist (0x11 ∷ 4 ∷ 100 ∷ 0x11 ∷ 2 ∷ 0xf6 ∷ 0 ∷ []) ≡ (
  record { start_lcn = 100; run_length = 4 } ∷ record { start_lcn = 90; run_length = 2 } ∷ [],
  false,
)
unfolding decode_runlist isomage.Ntfs.Attributes.run_loop isomage.Ntfs.Attributes.or_bytes
    isomage.Ntfs.Attributes.sign_extend isomage.Ntfs.Attributes.push_run
    isomage.Ntfs.Attributes.shl64
runs_forward_and_back = refl

-- The last attribute of a record may be so short that the flag behind its length lies outside.
attribute_at_end :
    parse_attributes (replicate 20 0 ++ (24 ∷ 0 ∷ 0 ∷ 0 ∷ 16 ∷ 0 ∷ 0 ∷ 0 ∷ 8 ∷ 0 ∷ 0 ∷ 0 ∷ []))
    ≡ err panic
unfolding parse_attributes isomage.Ntfs.Attributes.attribute_loop le16 isomage.Bytes.le32
attribute_at_end = refl

-- A boot sector whose byte 64 is 0.
abbrev volume : Reader
volume = record {
  image = replicate 3 0 ++ codes "NTFS    " ++ (0 ∷ 2 ∷ 1 ∷ []) ++ replicate 498 0;
  pos = 0;
}

abbrev boot : BootSector
boot = record { cluster_size = 512; mft_record_size = 1; mft_offset = 0 }

accepted : parse_boot_sector (slice volume.image 0 512) ≡ ok boot
unfolding parse_boot_sector isomage.Ntfs.Record.record_size_of slice le16 isomage.Bytes.le64
    isomage.Text.str_eq
accepted = refl

first_record : record_offset 0 boot 0 ≡ 0
unfolding record_offset
first_record = refl

detect_and_parse-panic_example : (detect_and_parse volume).0 ≡ err panic
detect_and_parse-panic_example =
    detect_and_parse-panic volume boot (omega arith) (omega arith) accepted (inl refl)
      (omega (arith, first_record)) (omega (arith, first_record))

abbrev file_runs : List (ℕ × Run)
file_runs =
    (1, record { start_lcn = 5; run_length = 2 })
    ∷ (2, record { start_lcn = 3; run_length = 300 })
    ∷ []

decode_runlist-runlist_example :
    decode_runlist (runlist 0 file_runs (7 ∷ [])) ≡ (runs_of file_runs, false)
decode_runlist-runlist_example = decode_runlist-runlist file_runs (7 ∷ []) (
  (omega arith, omega arith, omega arith, omega arith, omega arith, omega arith),
  ((omega arith, omega arith, omega arith, omega arith, omega arith, omega arith), tt),
)
