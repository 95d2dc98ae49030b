-- ===== src/Cat.antt =====
-- src/lib.rs: `cat_node`, which streams the bytes of a file to a writer in chunks.
pub mod Bytes
pub mod Errors
use isomage.Prelude.{
  ℕ, zero, suc, ◌+◌, ◌-◌, ◌*◌, ◌/◌, Bool, true, false, List, Option, none, some, ◌==◌,
  if◌then◌else◌, min, Result, ok, err,
}
use isomage.Text.{Str}
use isomage.Reader.{Reader, IoError, seek_start, read_exact}
use isomage.Tree.{TreeNode, node, nil}

-- A pipe that its reader has closed, and the other errors of a writer.
pub data WriteError : Type 0 where
  broken_pipe other : WriteError

-- `Write`: what `write_all` returns, and the writer after it.
pub record Writer (W : Type 0) : Type 0 where
  pub write_all : List ℕ → W → Result WriteError (Unit {0}) × W

-- `no_fuel` is a run that the model's fuel does not cover.
pub data Error : Type 0 where
  is_directory : Str → Error
  no_location : Error
  io : IoError → Error
  write : WriteError → Error
  no_fuel : Error

abbrev pub chunk_size : ℕ
chunk_size = 8 * 1024 * 1024

abbrev pub Outcome : Type 0 → Type 0
Outcome W = Result Error (Unit {0}) × Reader × W

module _ {W : Type 0} (writer : Writer W) where
  -- The match on what `write_all` returned; a broken pipe ends the stream without an error.
  unfoldable pub after_write :
      (Reader → W → Outcome W) → Reader → Result WriteError (Unit {0}) × W → Outcome W
  after_write next r (ok done, w) = next r w
  after_write next r (err broken_pipe, w) = (ok tt, r, w)
  after_write next r (err other, w) = (err (write other), r, w)

  -- `?` on the read of a chunk.
  unfoldable pub after_read :
      (Reader → W → Outcome W) → Result IoError (List ℕ) × Reader → W → Outcome W
  after_read next (err e, r) w = (err (io e), r, w)
  after_read next (ok buf, r) w = after_write next r (writer.write_all buf w)

  unfoldable pub cat_loop : ℕ → ℕ → Reader → W → Outcome W
  cat_loop zero remaining r w = (err no_fuel, r, w)
  cat_loop (suc fuel) remaining r w =
      let to_read = min remaining chunk_size in
      let rest = after_read (cat_loop fuel (remaining - to_read)) (read_exact to_read r) w in
      if remaining == 0 then (ok tt, r, w) else rest

  -- `?` on the seek; every turn but the last takes a whole chunk.
  unfoldable pub after_seek : ℕ → Result IoError ℕ × Reader → W → Outcome W
  after_seek len (err e, r) w = (err (io e), r, w)
  after_seek len (ok start, r) w = cat_loop (suc (len / chunk_size + 1)) len r w

  unfoldable pub cat_extent : Option ℕ → Option ℕ → Reader → W → Outcome W
  cat_extent (some location) (some len) r w = after_seek len (seek_start location r) w
  cat_extent (some location) none r w = (err no_location, r, w)
  cat_extent none len r w = (err no_location, r, w)

  unfoldable pub cat_node : TreeNode → Reader → W → Outcome W
  cat_node (node name size is_dir children location len) r w =
      if is_dir then (err (is_directory name), r, w) else cat_extent location len r w
