-- ===== src/Squashfs/Listing.antt =====
-- src/formats/squashfs.rs, `parse_directory`: the layout of a listing on disk, and what is read.
use isomage.Prelude.{
  take-append, drop-append, ℕ, zero, suc, ◌+◌, ◌-◌, ◌^◌, ◌≤◌, ◌<◌, ◌≡◌, refl, sym, ap, ◌∙◌, false,
  List, [], ◌∷◌, ◌++◌, ltb, length, drop, All, arith, length-append,
}
use mathlib.Core.List.{append_assoc}
use isomage.Text.Utf8.{from_utf8_lossy_ascii, IsAscii}
use isomage.Bytes.{le16, le32, drop-drop}
use isomage.Zip.Central.{bytes16, bytes32}
use isomage.Squashfs.Directory.{DirEntry, is_dot, push_entry, entry_loop, header_loop, list_entries}

-- An entry as a listing can hold it: an ASCII name that is not empty and not a dot entry, and an
-- inode in the block that the header names.
abbrev pub IsEntry : ℕ → DirEntry → Type 0
IsEntry start_block e =
    All IsAscii e.name
    × (1 ≤ length e.name)
    × (length e.name ≤ 2 ^ 16)
    × (is_dot e.name ≡ false)
    × (e.inode_offset < 2 ^ 16)
    × (e.inode_block ≡ start_block)

-- An entry with what the reader does not read of it: the difference of its inode number from that of
-- the header, and its type.
pub record Stored : Type 0 where
  pub entry : DirEntry
  pub inode_difference : ℕ
  pub inode_type : ℕ

abbrev pub entry_bytes : Stored → List ℕ
entry_bytes e =
    bytes16 e.entry.inode_offset
    ++ bytes16 e.inode_difference
    ++ bytes16 e.inode_type
    ++ bytes16 (length e.entry.name - 1)
    ++ e.entry.name

abbrev pub entries_bytes : List Stored → List ℕ
entries_bytes [] = []
entries_bytes (e ∷ es) = entry_bytes e ++ entries_bytes es

abbrev pub entries_of : List Stored → List DirEntry
entries_of [] = []
entries_of (e ∷ es) = e.entry ∷ entries_of es

-- A header and the entries below it.
pub record Group : Type 0 where
  pub start_block : ℕ
  pub inode_number : ℕ
  pub entries : List Stored

abbrev pub IsGroup : Group → Type 0
IsGroup g =
    (g.start_block < 2 ^ 32)
    × (1 ≤ length g.entries)
    × (length g.entries ≤ 2 ^ 32)
    × All (λ e. IsEntry g.start_block e.entry) g.entries

abbrev pub group_bytes : Group → List ℕ
group_bytes g =
    bytes32 (length g.entries - 1)
    ++ bytes32 g.start_block
    ++ bytes32 g.inode_number
    ++ entries_bytes g.entries

abbrev pub listing_bytes : List Group → List ℕ
listing_bytes [] = []
listing_bytes (g ∷ gs) = group_bytes g ++ listing_bytes gs

abbrev pub all_entries : List Group → List DirEntry
all_entries [] = []
all_entries (g ∷ gs) = entries_of g.entries ++ all_entries gs

-- One entry and what is behind it.
module _ (start_block : ℕ) (e : Stored) (is : IsEntry start_block e.entry) (tail : List ℕ) where
  name_size : le16 (entry_bytes e ++ tail) 6 + 1 ≡ length e.entry.name
  unfolding le16
  name_size = omega (arith, is.1, is.2)

  offset_field : le16 (entry_bytes e ++ tail) 0 ≡ e.entry.inode_offset
  unfolding le16
  offset_field = omega (arith, is.4)

  behind_entry : drop (8 + length e.entry.name) (entry_bytes e ++ tail) ≡ tail
  behind_entry =
      sym (drop-drop (entry_bytes e ++ tail) 8 (length e.entry.name))
      ∙ drop-append e.entry.name tail

  pushed :
      (es : List DirEntry)
      → push_entry start_block (entry_bytes e ++ tail) e.entry.name es ≡ e.entry ∷ es
  unfolding push_entry
  pushed es = rw (is.3, offset_field, sym is.5) refl

  entry_loop-entry :
      (count : ℕ) {es : List DirEntry} {rest : List ℕ}
      → entry_loop count start_block tail ≡ (es, rest)
      → entry_loop (suc count) start_block (entry_bytes e ++ tail) ≡ (e.entry ∷ es, rest)
  unfolding entry_loop
  entry_loop-entry count {es} h =
      let all : length (entry_bytes e ++ tail) ≡ 8 + length e.entry.name + length tail =
        omega (arith, length-append e.entry.name tail) in
      let t₁ : ltb (length (entry_bytes e ++ tail)) 8 ≡ false = ground (arith, all) in
      let t₂ : ltb (length (entry_bytes e ++ tail)) (8 + length e.entry.name) ≡ false =
        ground (arith, all) in
      rw
        (
          t₁,
          name_size,
          t₂,
          behind_entry,
          take-append e.entry.name tail,
          from_utf8_lossy_ascii e.entry.name is.0,
          h,
          pushed es,
        )
        refl

entry_loop-entries :
    (start_block : ℕ) (es : List Stored) (tail : List ℕ)
    → All (λ e. IsEntry start_block e.entry) es
    → entry_loop (length es) start_block (entries_bytes es ++ tail) ≡ (entries_of es, tail)
unfolding entry_loop
entry_loop-entries start_block [] tail all = refl
entry_loop-entries start_block (e ∷ es) tail (is, all) =
    ap (λ bytes. entry_loop (suc (length es)) start_block bytes)
      (append_assoc (entry_bytes e) (entries_bytes es) tail)
    ∙ entry_loop-entry start_block e is (entries_bytes es ++ tail) (length es)
        (entry_loop-entries start_block es tail all)

-- One header with its entries, and what is behind them.
module _ (g : Group) (is : IsGroup g) (tail : List ℕ) where
  count_field : suc (le32 (group_bytes g ++ tail) 0) ≡ length g.entries
  unfolding le32
  count_field = omega (arith, is.1, is.2)

  start_field : le32 (group_bytes g ++ tail) 4 ≡ g.start_block
  unfolding le32
  start_field = omega (arith, is.0)

  header_loop-group :
      (fuel : ℕ)
      → header_loop (suc fuel) (group_bytes g ++ tail)
        ≡ entries_of g.entries ++ header_loop fuel tail
  unfolding header_loop
  header_loop-group fuel =
      let long : ltb (length (group_bytes g ++ tail)) 12 ≡ false = ground arith in
      rw (long, count_field, start_field, entry_loop-entries g.start_block g.entries tail is.3) refl

header_loop-nil : (fuel : ℕ) → header_loop fuel [] ≡ []
unfolding header_loop
header_loop-nil zero = refl
header_loop-nil (suc fuel) = refl

header_loop-listing :
    (fuel : ℕ) (gs : List Group)
    → All IsGroup gs
    → length (listing_bytes gs) ≤ fuel
    → header_loop fuel (listing_bytes gs) ≡ all_entries gs
header_loop-listing fuel [] all h = header_loop-nil fuel
header_loop-listing zero (g ∷ gs) all h = absurd (omega arith)
header_loop-listing (suc fuel) (g ∷ gs) (is, all) h =
    header_loop-group g is (listing_bytes gs) fuel
    ∙ ap (λ es. entries_of g.entries ++ es)
        (header_loop-listing fuel gs all
          (omega (arith, h, length-append (entries_bytes g.entries) (listing_bytes gs))))

-- Groups of entries with numbers of their width and names that are ASCII, not empty, of at most 65536
-- bytes and neither `.` nor `..`, laid out with any inode numbers, differences and types, are read
-- back as the entries of all groups, in order.
pub list_entries-listing_bytes :
    (gs : List Group) → All IsGroup gs → list_entries (listing_bytes gs) ≡ all_entries gs
unfolding list_entries
list_entries-listing_bytes gs all =
    header_loop-listing (length (listing_bytes gs)) gs all (omega arith)
