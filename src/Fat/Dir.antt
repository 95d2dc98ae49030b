-- ===== src/Fat/Dir.antt =====
-- src/formats/fat.rs: the 32-byte entries of a directory, with their long names.
use isomage.Prelude.{
  ℕ, zero, suc, ◌+◌, ◌*◌, ◌/◌, ◌%◌, ◌^◌, Bool, ◌&&◌, ◌||◌, not, List, [], ◌∷◌, ◌++◌, leb, ◌==◌,
  if◌then◌else◌, length, take, drop,
}
use isomage.Text.{Str, codes, str_eq, is_empty, trim_end_char}
use isomage.Text.Utf8.{from_utf8_lossy, from_utf16_lossy}
use isomage.Bytes.{byte, slice, le16, le32}
use isomage.Reader.{M, ◌>>=◌, pure, map_error, read_at}
use isomage.Fat.Bpb.{Error, io, Context}
use isomage.Fat.Chain.{cluster_abs, cluster_chain}

-- The clusters of a chain, read one after the other.
unfoldable pub read_clusters : Context → List ℕ → List ℕ → M Error (List ℕ)
read_clusters ctx buf [] = pure buf
read_clusters ctx buf (c ∷ cs) =
    map_error io (read_at (cluster_abs ctx c) ctx.bytes_per_cluster) >>= λ bytes.
    read_clusters ctx (buf ++ bytes) cs

unfoldable pub read_dir_bytes : Context → ℕ → M Error (List ℕ)
read_dir_bytes ctx start_cluster =
    if start_cluster == 0
    then map_error io (read_at (ctx.base_offset + ctx.root_dir_rel) ctx.root_dir_size_bytes)
    else (cluster_chain ctx start_cluster >>= read_clusters ctx [])

-- `count` little-endian units from `start` on.
unfoldable pub units : List ℕ → ℕ → ℕ → List ℕ
units entry start zero = []
units entry start (suc count) = le16 entry start ∷ units entry (start + 2) count

-- The three fields of characters of a long-name entry.
unfoldable pub lfn_chars : List ℕ → List ℕ
unfolding units
lfn_chars entry = units entry 1 5 ++ (units entry 14 6 ++ units entry 28 2)

-- `sort_by_key` on the sequence number, which is stable.
unfoldable pub insert_piece : ℕ × List ℕ → List (ℕ × List ℕ) → List (ℕ × List ℕ)
insert_piece p [] = p ∷ []
insert_piece p (q ∷ qs) =
    let later = insert_piece p qs in if leb p.0 q.0 then p ∷ q ∷ qs else q ∷ later

unfoldable pub sort_pieces : List (ℕ × List ℕ) → List (ℕ × List ℕ)
unfolding insert_piece
sort_pieces [] = []
sort_pieces (p ∷ ps) = insert_piece p (sort_pieces ps)

unfoldable pub flat_chars : List (ℕ × List ℕ) → List ℕ
flat_chars [] = []
flat_chars (p ∷ ps) = p.1 ++ flat_chars ps

-- `take_while(|c| c != 0)`, then `filter(|c| c != 0xFFFF)`.
unfoldable pub until_nul : List ℕ → List ℕ
until_nul [] = []
until_nul (c ∷ cs) = let rest = until_nul cs in if c == 0 then [] else c ∷ rest

unfoldable pub without_padding : List ℕ → List ℕ
without_padding [] = []
without_padding (c ∷ cs) = let rest = without_padding cs in if c == 0xffff then rest else c ∷ rest

unfoldable pub reassemble_lfn : List (ℕ × List ℕ) → Str
unfolding sort_pieces flat_chars until_nul without_padding
reassemble_lfn pieces =
    from_utf16_lossy (without_padding (until_nul (flat_chars (sort_pieces pieces))))

-- A first byte of 5 stands for 0xE5.
real_first : List ℕ → List ℕ
real_first [] = []
real_first (b ∷ bs) = (if b == 5 then 0xe5 else b) ∷ bs

unfoldable pub short_name_83 : List ℕ → Str
unfolding real_first
short_name_83 entry =
    let name = trim_end_char b' ' (from_utf8_lossy (real_first (slice entry 0 8))) in
    let ext = trim_end_char b' ' (from_utf8_lossy (slice entry 8 11)) in
    if is_empty ext then name else name ++ b'.' ∷ ext

pub record RawEntry : Type 0 where
  pub name : Str
  pub is_dir : Bool
  pub file_size : ℕ
  pub start_cluster : ℕ

-- Bits of the attribute byte: `attr & 0x0F == 0x0F`, `attr & 0x10 != 0` and `attr & 0x08 != 0`.
abbrev pub has_long_name : ℕ → Bool
has_long_name attr = attr % 16 == 15

abbrev pub has_directory : ℕ → Bool
has_directory attr = attr / 16 % 2 == 1

abbrev pub has_volume_id : ℕ → Bool
has_volume_id attr = attr / 8 % 2 == 1

unfoldable pub raw_entry : Str → List ℕ → RawEntry
raw_entry name chunk = record {
  name = name;
  is_dir = has_directory (byte chunk 11);
  file_size = le32 chunk 28;
  start_cluster = le16 chunk 20 * 2 ^ 16 + le16 chunk 26;
}

-- The variables of the loop over the entries.
pub record Scan : Type 0 where
  pub out : List RawEntry
  pub lfn_pieces : List (ℕ × List ℕ)

-- The long name that the entries before have collected, or else the short one.
unfoldable pub entry_name : List (ℕ × List ℕ) → List ℕ → Str
entry_name [] chunk = short_name_83 chunk
entry_name (p ∷ ps) chunk = reassemble_lfn (p ∷ ps)

-- The loop's body for an entry that does not end the directory.
unfoldable pub scan_entry : List ℕ → Scan → Scan
scan_entry chunk s =
    let attr = byte chunk 11 in
    let name = entry_name s.lfn_pieces chunk in
    if byte chunk 0 == 0xe5
    then record s { lfn_pieces = [] }
    else if has_long_name attr && not (has_directory attr)
    then record s { lfn_pieces = s.lfn_pieces ++ (byte chunk 0 % 64, lfn_chars chunk) ∷ [] }
    else if has_volume_id attr && not (has_directory attr)
    then record s { lfn_pieces = [] }
    else if str_eq name (codes ".") || str_eq name (codes "..")
    then record s { lfn_pieces = [] }
    else record { out = s.out ++ raw_entry name chunk ∷ []; lfn_pieces = [] }

-- `chunks_exact(32)`; the count of chunks is `len / 32`.
unfoldable pub chunks : ℕ → List ℕ → List (List ℕ)
chunks zero bytes = []
chunks (suc n) bytes = take 32 bytes ∷ chunks n (drop 32 bytes)

-- A first byte of 0 ends the directory.
unfoldable pub scan_chunks : Scan → List (List ℕ) → Scan
scan_chunks s [] = s
scan_chunks s (chunk ∷ rest) =
    let more = scan_chunks (scan_entry chunk s) rest in if byte chunk 0 == 0 then s else more

unfoldable pub parse_dir_entries : List ℕ → List RawEntry
parse_dir_entries dir_bytes =
    (scan_chunks (record { out = []; lfn_pieces = [] })
      (chunks (length dir_bytes / 32) dir_bytes)).out
