-- ===== src/Fat/LongNames.antt =====
-- src/formats/fat.rs, `parse_dir_entries`: the layout of a long name on disk, and what is read.
use isomage.Prelude.{
  ℕ, suc, ◌+◌, ◌*◌, ◌/◌, ◌%◌, ◌^◌, ◌≤◌, ◌<◌, ◌≡◌, ◌≢◌, refl, sym, ap, subst, ◌∙◌, false, List, [],
  ◌∷◌, ◌++◌, leb, ◌==◌, length, take, drop, All, All-append, arith, length-append, take-append,
  drop-append, Bool-cases, inl, inr,
}
use mathlib.Core.List.{append-nil, append_assoc}
use isomage.Text.{Str, codes, str_eq}
use isomage.Text.Utf8.{from_utf16_lossy}
use isomage.Bytes.{byte, le16}
use isomage.Zip.Central.{bytes16}
use isomage.Fat.Dir.{
  units, lfn_chars, insert_piece, sort_pieces, flat_chars, until_nul, without_padding,
  reassemble_lfn, RawEntry, raw_entry, entry_name, has_long_name, has_volume_id, Scan, scan_entry,
  chunks, scan_chunks, parse_dir_entries,
}

-- The thirteen units of a piece of a name.
abbrev pub piece : (ℕ → ℕ) → List ℕ
piece u = u 0 ∷ u 1 ∷ u 2 ∷ u 3 ∷ u 4 ∷ u 5 ∷ u 6 ∷ u 7 ∷ u 8 ∷ u 9 ∷ u 10 ∷ u 11 ∷ u 12 ∷ []

-- An entry that holds a piece; its type, its checksum and its cluster, which the reader does not
-- read, are 0.
abbrev pub long_entry : ℕ → (ℕ → ℕ) → List ℕ
long_entry seq u =
    seq ∷ bytes16 (u 0)
    ++ bytes16 (u 1)
    ++ bytes16 (u 2)
    ++ bytes16 (u 3)
    ++ bytes16 (u 4)
    ++ 15 ∷ 0 ∷ 0 ∷ bytes16 (u 5)
    ++ bytes16 (u 6)
    ++ bytes16 (u 7)
    ++ bytes16 (u 8)
    ++ bytes16 (u 9)
    ++ bytes16 (u 10)
    ++ 0 ∷ 0 ∷ bytes16 (u 11)
    ++ bytes16 (u 12)

-- The entries of a name, the last piece first; the first entry has `flag` added to its number.
abbrev pub long_entries : ℕ → List (ℕ → ℕ) → List (List ℕ)
long_entries flag [] = []
long_entries flag (u ∷ us) = long_entry (flag + suc (length us)) u ∷ long_entries 0 us

-- The units of the whole name.
abbrev pub name_units : List (ℕ → ℕ) → List ℕ
name_units [] = []
name_units (u ∷ us) = name_units us ++ piece u

abbrev pub IsUnits : (ℕ → ℕ) → Type 0
IsUnits u = (i : ℕ) → u i < 2 ^ 16

-- The pieces as the reader collects them, and as it sorts them.
abbrev collected : List (ℕ → ℕ) → List (ℕ × List ℕ)
collected [] = []
collected (u ∷ us) = (suc (length us), piece u) ∷ collected us

abbrev ascending : List (ℕ → ℕ) → List (ℕ × List ℕ)
ascending [] = []
ascending (u ∷ us) = ascending us ++ (suc (length us), piece u) ∷ []

lfn_chars-long_entry : (seq : ℕ) (u : ℕ → ℕ) → IsUnits u → lfn_chars (long_entry seq u) ≡ piece u
unfolding lfn_chars units le16
lfn_chars-long_entry seq u h =
    let unit : (i : ℕ) → u i % 256 + 256 * (u i / 256 % 256) ≡ u i = λ i. omega (arith, h i) in
    rw
      (
        unit 0,
        unit 1,
        unit 2,
        unit 3,
        unit 4,
        unit 5,
        unit 6,
        unit 7,
        unit 8,
        unit 9,
        unit 10,
        unit 11,
        unit 12,
      )
      refl

insert_piece-last :
    (p : ℕ × List ℕ) (qs : List (ℕ × List ℕ))
    → All (λ q. q.0 < p.0) qs
    → insert_piece p qs ≡ qs ++ p ∷ []
unfolding insert_piece
insert_piece-last p [] all = refl
insert_piece-last p (q ∷ qs) (less, all) =
    let t : leb p.0 q.0 ≡ false = ground (arith, less) in
    rw t (ap (λ rest. q ∷ rest) (insert_piece-last p qs all))

ascending-below : (n : ℕ) (us : List (ℕ → ℕ)) → length us < n → All (λ q. q.0 < n) (ascending us)
ascending-below n [] h = tt
ascending-below n (u ∷ us) h =
    All-append (λ q. q.0 < n) (ascending us) ((suc (length us), piece u) ∷ [])
      (ascending-below n us (omega arith)) (omega arith, tt)

sort_pieces-collected : (us : List (ℕ → ℕ)) → sort_pieces (collected us) ≡ ascending us
unfolding sort_pieces
sort_pieces-collected [] = refl
sort_pieces-collected (u ∷ us) =
    ap (insert_piece (suc (length us), piece u)) (sort_pieces-collected us)
    ∙ insert_piece-last (suc (length us), piece u) (ascending us)
        (ascending-below (suc (length us)) us (omega arith))

flat_chars-append :
    (ps qs : List (ℕ × List ℕ)) → flat_chars (ps ++ qs) ≡ flat_chars ps ++ flat_chars qs
unfolding flat_chars
flat_chars-append [] qs = refl
flat_chars-append (p ∷ ps) qs =
    ap (λ rest. p.1 ++ rest) (flat_chars-append ps qs)
    ∙ sym (append_assoc p.1 (flat_chars ps) (flat_chars qs))

flat_chars-ascending : (us : List (ℕ → ℕ)) → flat_chars (ascending us) ≡ name_units us
unfolding flat_chars
flat_chars-ascending [] = refl
flat_chars-ascending (u ∷ us) =
    flat_chars-append (ascending us) ((suc (length us), piece u) ∷ [])
    ∙ rw (flat_chars-ascending us) refl

-- A unit that a name may have: neither the one that ends it nor padding.
abbrev pub IsNameUnit : ℕ → Type 0
IsNameUnit c = (c ≢ 0) × (c ≢ 0xffff)

-- What follows the name in the last piece begins with the unit that ends it, if there is any.
abbrev pub IsEnd : List ℕ → Type 0
IsEnd [] = Unit
IsEnd (c ∷ cs) = c ≡ 0

until_nul-name :
    (name tail : List ℕ) → All IsNameUnit name → IsEnd tail → until_nul (name ++ tail) ≡ name
unfolding until_nul
until_nul-name [] [] all end = refl
until_nul-name [] (c ∷ cs) all end = ground arith
until_nul-name (c ∷ cs) tail (is, all) end =
    let t : (c == 0) ≡ false = ground (arith, is.0) in
    rw t (ap (λ rest. c ∷ rest) (until_nul-name cs tail all end))

without_padding-name : (name : List ℕ) → All IsNameUnit name → without_padding name ≡ name
unfolding without_padding
without_padding-name [] all = refl
without_padding-name (c ∷ cs) (is, all) =
    let t : (c == 0xffff) ≡ false = ground (arith, is.1) in
    rw t (ap (λ rest. c ∷ rest) (without_padding-name cs all))

reassemble_lfn-collected :
    (us : List (ℕ → ℕ)) (name tail : List ℕ)
    → name_units us ≡ name ++ tail
    → All IsNameUnit name
    → IsEnd tail
    → reassemble_lfn (collected us) ≡ from_utf16_lossy name
unfolding reassemble_lfn
reassemble_lfn-collected us name tail same all end =
    rw
      (
        sort_pieces-collected us,
        flat_chars-ascending us,
        same,
        until_nul-name name tail all end,
        without_padding-name name all,
      )
      refl

-- One entry of the name, and then all of them.
scan_entry-long_entry :
    (seq : ℕ) (u : ℕ → ℕ) (s : Scan)
    → seq ≢ 0xe5
    → IsUnits u
    → scan_entry (long_entry seq u) s
      ≡ record s { lfn_pieces = s.lfn_pieces ++ (seq % 64, piece u) ∷ [] }
unfolding scan_entry
scan_entry-long_entry seq u s ne h =
    let t : (seq == 0xe5) ≡ false = ground (arith, ne) in rw (t, lfn_chars-long_entry seq u h) refl

scan_chunks-long_entries :
    (flag : ℕ) (us : List (ℕ → ℕ)) (rest : List (List ℕ)) (s : Scan)
    → flag % 64 ≡ 0
    → flag ≤ 64
    → length us ≤ 20
    → All IsUnits us
    → scan_chunks s (long_entries flag us ++ rest)
      ≡ scan_chunks (record s { lfn_pieces = s.lfn_pieces ++ collected us }) rest
unfolding scan_chunks
scan_chunks-long_entries flag [] rest s whole low few all =
    ap (λ pieces. scan_chunks (record s { lfn_pieces = pieces }) rest)
      (sym (append-nil s.lfn_pieces))
scan_chunks-long_entries flag (u ∷ us) rest s whole low few (is, all) =
    let number : (flag + suc (length us)) % 64 ≡ suc (length us) = omega arith in
    let more : (flag + suc (length us) == 0) ≡ false = ground arith in
    let seq = flag + suc (length us) in
    let s' : Scan = record s { lfn_pieces = s.lfn_pieces ++ (suc (length us), piece u) ∷ [] } in
    rw more (
      ap (λ scan. scan_chunks scan (long_entries 0 us ++ rest))
        (scan_entry-long_entry seq u s (omega arith) is
          ∙ ap
              (λ n.
                let scan : Scan = record s { lfn_pieces = s.lfn_pieces ++ (n, piece u) ∷ [] } in
                scan)
              number)
      ∙ scan_chunks-long_entries 0 us rest s' refl (omega arith) (omega arith) all
      ∙ ap (λ pieces. scan_chunks (record s { lfn_pieces = pieces }) rest)
          (append_assoc s.lfn_pieces ((suc (length us), piece u) ∷ []) (collected us)))

-- The entry behind the long name: in use, and no volume label.
abbrev pub IsShortEntry : List ℕ → Type 0
IsShortEntry short =
    (length short ≡ 32)
    × (byte short 0 ≢ 0)
    × (byte short 0 ≢ 0xe5)
    × (has_volume_id (byte short 11) ≡ false)

scan_entry-short :
    (short : List ℕ) (name : Str) (s : Scan)
    → IsShortEntry short
    → entry_name s.lfn_pieces short ≡ name
    → str_eq name (codes ".") ≡ false
    → str_eq name (codes "..") ≡ false
    → scan_entry short s ≡ record { out = s.out ++ raw_entry name short ∷ []; lfn_pieces = [] }
unfolding scan_entry
scan_entry-short short name s (size, used, kept, file) same dot dots =
    let t : (byte short 0 == 0xe5) ≡ false = ground (arith, kept) in
    let no_name : has_long_name (byte short 11) ≡ false = ground (arith, file) in
    rw (t, no_name, file, same, dot, dots) refl

-- What the scan has found before stays in front.
scan_entry-out :
    (chunk : List ℕ) (out : List RawEntry) (s : Scan)
    → scan_entry chunk (record s { out = out ++ s.out }) ≡ record {
      out = out ++ (scan_entry chunk s).out;
      lfn_pieces = (scan_entry chunk s).lfn_pieces;
    }
unfolding scan_entry
scan_entry-out chunk out s =
    ground (arith, append_assoc out s.out (raw_entry (entry_name s.lfn_pieces chunk) chunk ∷ []))

scan_chunks-out :
    (cs : List (List ℕ)) (out : List RawEntry) (s : Scan)
    → (scan_chunks (record s { out = out ++ s.out }) cs).out ≡ out ++ (scan_chunks s cs).out
unfolding scan_chunks
scan_chunks-out [] out s = refl
scan_chunks-out (chunk ∷ cs) out s = elim (Bool-cases (byte chunk 0 == 0)) [
  | inl e ↦ rw e refl
  | inr e ↦ rw e (
      ap (λ scan. (scan_chunks scan cs).out) (scan_entry-out chunk out s)
      ∙ scan_chunks-out cs out (scan_entry chunk s))
]

scan_chunks-next :
    (chunk : List ℕ) (cs : List (List ℕ)) (s : Scan)
    → (byte chunk 0 == 0) ≡ false
    → (scan_chunks s (chunk ∷ cs)).out ≡ (scan_chunks (scan_entry chunk s) cs).out
unfolding scan_chunks
scan_chunks-next chunk cs s more = rw more refl

-- The bytes of a directory whose entries are given.
abbrev pub concat : List (List ℕ) → List ℕ
concat [] = []
concat (c ∷ cs) = c ++ concat cs

chunks-entry :
    (c rest : List ℕ)
    → length c ≡ 32
    → chunks (length (c ++ rest) / 32) (c ++ rest) ≡ c ∷ chunks (length rest / 32) rest
unfolding chunks
chunks-entry c rest h =
    let count : length (c ++ rest) / 32 ≡ suc (length rest / 32) =
      omega (arith, h, length-append c rest) in
    let head : take 32 (c ++ rest) ≡ c =
      subst (λ n. take n (c ++ rest) ≡ c) h (take-append c rest) in
    let behind : drop 32 (c ++ rest) ≡ rest =
      subst (λ n. drop n (c ++ rest) ≡ rest) h (drop-append c rest) in
    rw (count, head, behind) refl

chunks-concat :
    (cs : List (List ℕ)) (rest : List ℕ)
    → All (λ c. length c ≡ 32) cs
    → chunks (length (concat cs ++ rest) / 32) (concat cs ++ rest)
      ≡ cs ++ chunks (length rest / 32) rest
chunks-concat [] rest all = refl
chunks-concat (c ∷ cs) rest (size, all) =
    ap (λ bytes. chunks (length bytes / 32) bytes) (append_assoc c (concat cs) rest)
    ∙ chunks-entry c (concat cs ++ rest) size
    ∙ ap (λ more. c ∷ more) (chunks-concat cs rest all)

long_entries-size : (flag : ℕ) (us : List (ℕ → ℕ)) → All (λ c. length c ≡ 32) (long_entries flag us)
long_entries-size flag [] = tt
long_entries-size flag (u ∷ us) = (refl, long_entries-size 0 us)

entry_name-collected :
    (us : List (ℕ → ℕ)) (short : List ℕ)
    → 1 ≤ length us
    → entry_name (collected us) short ≡ reassemble_lfn (collected us)
unfolding entry_name
entry_name-collected [] short some_piece = absurd (omega arith)
entry_name-collected (u ∷ us) short some_piece = refl

abbrev start : Scan
start = record { out = []; lfn_pieces = [] }

-- A name of at most 20 pieces of thirteen units, none of them 0 or 0xFFFF, which a 0 ends if it does
-- not fill the last piece, is laid out before a short entry, the last piece first. The directory is
-- read as that entry with the long name, followed by the entries behind it, if the name is not one of
-- the two dot names and the short entry is in use and no volume label.
pub parse_dir_entries-long_entries :
    (us : List (ℕ → ℕ)) (name tail short rest : List ℕ)
    → 1 ≤ length us
    → length us ≤ 20
    → All IsUnits us
    → name_units us ≡ name ++ tail
    → All IsNameUnit name
    → IsEnd tail
    → IsShortEntry short
    → str_eq (from_utf16_lossy name) (codes ".") ≡ false
    → str_eq (from_utf16_lossy name) (codes "..") ≡ false
    → parse_dir_entries (concat (long_entries 64 us) ++ (short ++ rest))
      ≡ raw_entry (from_utf16_lossy name) short ∷ parse_dir_entries rest
unfolding parse_dir_entries
parse_dir_entries-long_entries us name tail short rest some_piece few fit same all end is dot dots =
    let later = chunks (length rest / 32) rest in
    let found = raw_entry (from_utf16_lossy name) short ∷ [] in
    let named : Scan = record { out = []; lfn_pieces = collected us } in
    let more : (byte short 0 == 0) ≡ false = ground (arith, is.1) in
    ap (λ cs. (scan_chunks start cs).out)
      (chunks-concat (long_entries 64 us) (short ++ rest) (long_entries-size 64 us)
        ∙ ap (λ cs. long_entries 64 us ++ cs) (chunks-entry short rest is.0))
    ∙ ap (λ (s : Scan). s.out)
        (scan_chunks-long_entries 64 us (short ∷ later) start refl (omega arith) few fit)
    ∙ scan_chunks-next short later named more
    ∙ ap (λ s. (scan_chunks s later).out)
        (scan_entry-short short (from_utf16_lossy name) named is
          (entry_name-collected us short some_piece
            ∙ reassemble_lfn-collected us name tail same all end)
          dot dots)
    ∙ scan_chunks-out later found start
