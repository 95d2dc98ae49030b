-- ===== src/Tar/Scan.antt =====
-- src/formats/tar.rs: the loop of `scan_entries` over the header blocks.
use isomage.Prelude.{
  ℕ, zero, suc, ◌+◌, ◌-◌, ◌*◌, ◌/◌, Bool, true, false, ◌&&◌, ◌||◌, not, List, [], ◌∷◌, ◌++◌, Option,
  none, some, ltb, ◌==◌, if◌then◌else◌, length, Result, ok, err,
}
use isomage.Text.{Str, trim_end_char}
use isomage.Text.Utf8.{from_utf8_lossy}
use isomage.Word.{div_ceil}
use isomage.Bytes.{byte, slice, all_zero}
use isomage.Reader.{
  Reader, IoError, M, ◌>>=◌, ◌>>◌, pure, fail, map_error, seek_start, seek_current, read_exact,
}
use isomage.Tar.{
  block_size, Error, not_tar, io, has_ustar_magic, unwrap_or, parse_octal, until_nul, entry_name,
  Pax, parse_pax,
}

pub record TarEntry : Type 0 where
  pub name : Str
  pub size : ℕ
  pub is_dir : Bool
  pub data_offset : ℕ

-- The local variables of the loop.
pub record State : Type 0 where
  pub entries : List TarEntry
  pub pending_name : Option Str
  pub pending_size : Option ℕ
  pub consecutive_zero : ℕ

pub data Step : Type 0 where
  stop : Step
  again : State → Step

-- `trim_start_matches("./")`.
unfoldable pub without_dot_slash : Str → Str
without_dot_slash (a ∷ b ∷ s) =
    let rest = without_dot_slash s in if (a == b'.') && (b == b'/') then rest else a ∷ b ∷ s
without_dot_slash s = s

unfoldable pub ends_with_slash : Str → Bool
ends_with_slash [] = false
ends_with_slash (c ∷ []) = c == b'/'
ends_with_slash (c ∷ d ∷ s) = ends_with_slash (d ∷ s)

unfoldable pub is_file_type : ℕ → Bool
is_file_type t = (t == b'0') || (t == 0) || (t == b'1') || (t == b'2')

-- A header that is no extension: the overrides are used up, and an entry is pushed for a file or
-- a directory.
unfoldable pub push_entry : List ℕ → ℕ → State → State
push_entry block data_offset st =
    let typeflag = byte block 156 in
    let name = without_dot_slash (unwrap_or st.pending_name (entry_name block)) in
    let is_dir = (typeflag == b'5') || ends_with_slash name in
    let entry : TarEntry = record {
      name = trim_end_char b'/' name;
      size = unwrap_or st.pending_size (parse_octal (slice block 124 136));
      is_dir = is_dir;
      data_offset = data_offset;
    } in
    record {
      entries = if is_file_type typeflag || is_dir then st.entries ++ entry ∷ [] else st.entries;
      pending_name = none;
      pending_size = none;
      consecutive_zero = 0;
    }

-- The seek over the padding to the block boundary, after a body.
unfoldable pub skip_padding : ℕ → List ℕ → M Error (List ℕ)
skip_padding raw_size body =
    let leftover = div_ceil raw_size block_size * block_size - raw_size in
    if ltb 0 leftover then map_error io (seek_current leftover) >> pure body else pure body

-- The body of an extension header, and the padding after it.
unfoldable pub read_body : ℕ → M Error (List ℕ)
read_body raw_size = map_error io (read_exact raw_size) >>= skip_padding raw_size

unfoldable pub apply_pax : Pax → State → State
apply_pax (some p, some s) st = record st {
  pending_name = some p;
  pending_size = some s;
  consecutive_zero = 0;
}
apply_pax (some p, none) st = record st { pending_name = some p; consecutive_zero = 0 }
apply_pax (none, some s) st = record st { pending_size = some s; consecutive_zero = 0 }
apply_pax (none, none) st = record st { consecutive_zero = 0 }

-- A GNU long name up to its NUL applies to the next entry.
unfoldable pub after_long_name : State → List ℕ → Step
after_long_name st name_bytes = again (record st {
  pending_name = some (from_utf8_lossy (until_nul name_bytes));
  consecutive_zero = 0;
})

-- A header block that was read at `header_pos` and is not all zero.
unfoldable pub header_block : List ℕ → ℕ → State → M Error Step
header_block block header_pos st =
    let typeflag = byte block 156 in
    let raw_size = parse_octal (slice block 124 136) in
    let data_bytes = div_ceil raw_size block_size * block_size in
    if typeflag == b'L'
    then (do name_bytes ← read_body raw_size; pure (after_long_name st name_bytes))
    else if typeflag == b'K'
    then map_error io (seek_current data_bytes) >> pure (again (record st { consecutive_zero = 0 }))
    else if (typeflag == b'x') || (typeflag == b'g')
    then (do pax_bytes ← read_body raw_size; pure (again (apply_pax (parse_pax pax_bytes) st)))
    else map_error io (seek_current data_bytes)
      >> pure (again (push_entry block (header_pos + block_size) st))

unfoldable pub is_none : {A : Type 0} → Option A → Bool
is_none none = true
is_none (some _) = false

unfoldable pub no_entries : List TarEntry → Bool
no_entries [] = true
no_entries (_ ∷ _) = false

-- What is done with a block.
unfoldable pub block_step : List ℕ → ℕ → State → M Error Step
block_step block header_pos st =
    if all_zero block
    then (if ltb (st.consecutive_zero + 1) 2
        then pure (again (record st { consecutive_zero = st.consecutive_zero + 1 }))
        else pure stop)
    else if not (has_ustar_magic block) && no_entries st.entries && is_none st.pending_name
    then fail not_tar
    else header_block block header_pos st

-- The match on what `read_exact` returned: it fails at the end of the image only, which ends the
-- loop.
unfoldable pub after_read :
    State → ℕ → Result IoError (List ℕ) × Reader → Result Error Step × Reader
after_read st header_pos (err e, r) = (ok stop, r)
after_read st header_pos (ok block, r) = block_step block header_pos st r

-- One turn of the loop.
unfoldable pub scan_step : State → M Error Step
scan_step st r = after_read st r.pos (read_exact 512 r)

-- Whether the loop goes on after a turn; `next` is the rest of the loop.
unfoldable pub after_step :
    (State → M Error (Option (List TarEntry)))
    → State
    → Result Error Step × Reader
    → Result Error (Option (List TarEntry)) × Reader
after_step next st (err e, r) = (err e, r)
after_step next st (ok stop, r) = (ok (some st.entries), r)
after_step next st (ok (again st'), r) = next st' r

-- The loop, on fuel; `none` where the fuel does not suffice.
unfoldable pub scan_loop : ℕ → State → M Error (Option (List TarEntry))
scan_loop zero st r = (ok none, r)
scan_loop (suc fuel) st r = after_step (scan_loop fuel) st (scan_step st r)

abbrev pub initial : State
initial = record { entries = []; pending_name = none; pending_size = none; consecutive_zero = 0 }

-- A turn for every block of the image, and one for its end.
unfoldable pub scan_entries : M Error (Option (List TarEntry))
scan_entries r = (map_error io (seek_start 0) >> scan_loop (length r.image / 512 + 1) initial) r
