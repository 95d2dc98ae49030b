-- ===== src/Tests/ZipRuns.antt =====
-- src/formats/zip.rs on a directory of two records, and on an archive that its own writer makes.
use isomage.Prelude.{◌≡◌, refl, List, [], ◌∷◌, ok, arith, map}
use isomage.Text.{codes}
use isomage.Reader.{Reader}
use isomage.Zip.Central.{CdRecord, parse_central_directory, central_directory}
use isomage.Zip.{crc32, write_stored, find_eocd}
use isomage.Zip.RoundTrip.{entry_of, parse_central_directory-central_directory}

abbrev records : List CdRecord
records =
    record { name = codes "a"; crc = 0xe8b7be43; size = 1; lh_offset = 0 }
    ∷ record { name = codes "b/c"; crc = 0; size = 0; lh_offset = 32 }
    ∷ []

check_value : crc32 (codes "a") ≡ 0xe8b7be43
unfolding crc32 isomage.Zip.crc_loop isomage.Zip.crc32_table isomage.Zip.shift_bits
check_value = refl

-- 32 bytes of header and data, and 47 of the directory.
finds_directory :
    (find_eocd (record { image = write_stored ((codes "a", codes "a") ∷ []); pos = 0 })).0
    ≡ ok (record { cd_offset = 32; cd_size = 47 })
unfolding find_eocd isomage.Zip.at_signature isomage.Zip.of_eocd isomage.Zip.last_signature
    write_stored isomage.Zip.write_entries isomage.Zip.local_header isomage.Zip.end_record
    central_directory isomage.Zip.Central.cd_bytes crc32 isomage.Zip.crc_loop
    isomage.Zip.crc32_table isomage.Zip.shift_bits isomage.Bytes.le32 isomage.Bytes.le16
    isomage.Bytes.slice isomage.Reader.read_at isomage.Reader.read_exact isomage.Reader.seek_end
finds_directory = refl

parse_central_directory-central_directory_example :
    parse_central_directory (central_directory records) ≡ ok (map entry_of records)
parse_central_directory-central_directory_example =
    parse_central_directory-central_directory records (
      (omega arith, omega arith, omega arith, omega arith),
      ((omega arith, omega arith, omega arith, omega arith), tt),
    )
