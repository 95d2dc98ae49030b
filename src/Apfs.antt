-- ===== src/Apfs.antt =====
-- src/formats/apfs.rs: the container superblock and the names of the volumes.
pub mod Superblock
use isomage.Prelude.{
  ℕ, zero, suc, ◌-◌, Bool, ◌&&◌, not, List, [], ◌∷◌, ◌++◌, Option, none, some, leb, ◌==◌,
  if◌then◌else◌, bit_and, Result, ok, err,
}
use isomage.Text.{Str, codes, is_empty}
use isomage.Text.Utf8.{from_utf8}
use isomage.Text.Decimal.{decimal}
use isomage.Bytes.{le32, le64}
use isomage.Word.{add64, mul64}
use isomage.Reader.{
  Reader, M, IoError, unexpected_eof, invalid_input, ◌>>=◌, ◌>>◌, pure, lift, map_error, seek_start,
  read_exact, read_at,
}
use isomage.Tree.{TreeNode, new_directory, add_child, calculate_directory_size}

abbrev pub nxsb_magic : ℕ
nxsb_magic = 0x4253584e

abbrev pub apsb_magic : ℕ
apsb_magic = 0x42535041

pub data Error : Type 0 where
  too_short bad_magic bad_block_size : Error
  io : IoError → Error

pub record NxSuperblock : Type 0 where
  pub block_size : ℕ
  pub fs_oids : List ℕ

-- The end of the file is `TooShort`, any other failure is `Io`.
unfoldable pub eof_error : IoError → Error
eof_error unexpected_eof = too_short
eof_error invalid_input = io invalid_input

-- `seek(...)?`, and a read of `n` bytes whose end of file is `TooShort`.
unfoldable pub read_field : ℕ → ℕ → M Error (List ℕ)
read_field offset n = do map_error io (seek_start offset); map_error eof_error (read_exact n)

unfoldable pub check_magic : List ℕ → Result Error (Unit {0})
check_magic buf = if not (le32 buf 0 == nxsb_magic) then err bad_magic else ok tt

unfoldable pub do_detect : M Error (Unit {0})
do_detect = do buf ← read_field 32 4; lift (check_magic buf)

-- `r.seek(...)?`: a failure to restore the position is the result.
unfoldable pub restore : ℕ → Result Error (Unit {0}) × Reader → Result Error (Unit {0}) × Reader
restore saved (result, r) = (map_error io (seek_start saved) >>= λ back. lift result) r

unfoldable pub detect : M Error (Unit {0})
detect r = restore r.pos (do_detect r)

-- From 4096 to 65536, and a power of two.
unfoldable pub is_block_size : ℕ → Bool
is_block_size n = leb 4096 n && leb n 65536 && (bit_and n (n - 1) == 0)

unfoldable pub check_block_size : ℕ → Result Error ℕ
check_block_size n = if is_block_size n then ok n else err bad_block_size

-- The match on a read of an identifier: the end of the file, and a zero, end the array.
unfoldable pub after_oid :
    (Reader → Result Error (List ℕ) × Reader)
    → Result IoError (List ℕ) × Reader
    → Result Error (List ℕ) × Reader
after_oid next (err unexpected_eof, r) = (ok [], r)
after_oid next (err invalid_input, r) = (err (io invalid_input), r)
after_oid next (ok buf8, r) =
    let (rest, r') = next r in
    if le64 buf8 0 == 0
    then (ok [], r)
    else (elim rest [ ok oids ↦ ok (le64 buf8 0 ∷ oids) | err e ↦ err e ], r')

-- The slots that are left.
unfoldable pub oid_loop : ℕ → M Error (List ℕ)
oid_loop zero r = (ok [], r)
oid_loop (suc slots) r = after_oid (oid_loop slots) (read_exact 8 r)

unfoldable pub read_nx_superblock : M Error NxSuperblock
read_nx_superblock = do
  magic ← read_field 32 4
  lift (check_magic magic)
  size ← read_field 36 4
  block_size ← lift (check_block_size (le32 size 0))
  map_error io (seek_start 180)
  fs_oids ← oid_loop 100
  pure (record { block_size = block_size; fs_oids = fs_oids })

-- What stands before the first NUL, or everything.
unfoldable pub until_nul : List ℕ → List ℕ
until_nul [] = []
until_nul (b ∷ bs) = if b == 0 then [] else b ∷ until_nul bs

unfoldable pub volume_name : List ℕ → Option Str
volume_name name_buf = elim (from_utf8 (until_nul name_buf)) [
  | none ↦ none
  | some name ↦ if is_empty name then none else some name
]

unfoldable pub of_name_read : Result IoError (List ℕ) × Reader → Option Str × Reader
of_name_read (err e, r) = (none, r)
of_name_read (ok name_buf, r) = (volume_name name_buf, r)

unfoldable pub after_volume_magic : ℕ → Result IoError (List ℕ) × Reader → Option Str × Reader
after_volume_magic block_start (err e, r) = (none, r)
after_volume_magic block_start (ok buf4, r) =
    if not (le32 buf4 0 == apsb_magic)
    then (none, r)
    else of_name_read (read_at (add64 block_start 572) 256 r)

unfoldable pub read_volume_name : ℕ → ℕ → Reader → Option Str × Reader
read_volume_name block_num block_size r =
    let block_start = mul64 block_num block_size in
    after_volume_magic block_start (read_at (add64 block_start 32) 4 r)

unfoldable pub name_or_number : ℕ → Option Str → Str
name_or_number fs_oid none = codes "volume_" ++ decimal fs_oid
name_or_number fs_oid (some name) = name

unfoldable pub add_volumes : ℕ → List ℕ → TreeNode → Reader → TreeNode × Reader
add_volumes block_size [] root r = (root, r)
add_volumes block_size (fs_oid ∷ fs_oids) root r =
    let (name, r') = read_volume_name fs_oid block_size r in
    add_volumes block_size fs_oids (add_child root (new_directory (name_or_number fs_oid name))) r'

unfoldable pub to_tree : NxSuperblock → M Error TreeNode
to_tree nx r =
    let (root, r') = add_volumes nx.block_size nx.fs_oids (new_directory (codes "/")) r in
    (ok (calculate_directory_size root), r')

unfoldable pub detect_and_parse : M Error TreeNode
detect_and_parse = do nx ← read_nx_superblock; to_tree nx
