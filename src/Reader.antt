-- ===== src/Reader.antt =====
-- `Read + Seek` over an image that is a list of bytes: a `File`, a `Cursor` or an `MmapImage`
-- whose reads fail only at the end of the image. The parsers get the cursor passed explicitly.
pub mod Laws
pub mod Keeps
pub mod Forward
use isomage.Prelude.{
  ℕ, ◌+◌, ◌-◌, ◌^◌, ltb, List, leb, if◌then◌else◌, length, min, max, Result, ok, err,
}
use isomage.Bytes.{slice}

pub record Reader : Type 0 where
  pub image : List ℕ
  pub pos : ℕ

-- The kinds of `io::Error` that reading and seeking in such an image give.
pub data IoError : Type 0 where
  unexpected_eof invalid_input : IoError

-- A computation that reads: its result, and where it leaves the cursor.
abbrev pub M : Type 0 → Type 0 → Type 0
M E A = Reader → Result E A × Reader

module _ {E : Type 0} {A B : Type 0} where
  infixl 5 ◌>>=◌
  abbrev pub ◌>>=◌ : M E A → (A → M E B) → M E B
  ◌>>=◌ m f r = let (res, r') = m r in elim res [ ok a ↦ f a r' | err e ↦ (err e, r') ]

infixl 5 ◌>>◌
abbrev pub ◌>>◌ : {E A B : Type 0} → M E A → M E B → M E B
m >> k = m >>= λ _. k

abbrev pub pure : {E A : Type 0} → A → M E A
pure a r = (ok a, r)

abbrev pub fail : {E A : Type 0} → E → M E A
fail e r = (err e, r)

-- `?` on an `io::Error` with `From<io::Error>`, and `map_err`.
abbrev pub map_error : {E F A : Type 0} → (E → F) → M E A → M F A
map_error f m r = let (res, r') = m r in elim res [ ok a ↦ (ok a, r') | err e ↦ (err (f e), r') ]

-- A computation that ends in a pure result.
abbrev pub lift : {E A : Type 0} → Result E A → M E A
lift res r = (res, r)

-- `stream_position`.
unfoldable pub stream_position : M IoError ℕ
stream_position r = (ok r.pos, r)

-- `seek(SeekFrom::Start(n))`: past the end is allowed; an offset that is negative as an `i64` is
-- refused, by `lseek` for a `File` and by `MmapImage::seek` itself.
unfoldable pub seek_start : ℕ → M IoError ℕ
seek_start n r = if ltb n (2 ^ 63) then (ok n, record r { pos = n }) else (err invalid_input, r)

-- `seek(SeekFrom::End(0))`.
unfoldable pub seek_end : M IoError ℕ
seek_end r = (ok (length r.image), record r { pos = length r.image })

-- `seek(SeekFrom::Current(n))`, for `n` not negative.
unfoldable pub seek_current : ℕ → M IoError ℕ
seek_current n r = (ok (r.pos + n), record r { pos = r.pos + n })

-- `read_exact` into a buffer of `n` bytes. At the end of the image the cursor stands at the end.
unfoldable pub read_exact : ℕ → M IoError (List ℕ)
unfolding slice
read_exact n r =
    if leb (r.pos + n) (length r.image)
    then (ok (slice r.image r.pos (r.pos + n)), record r { pos = r.pos + n })
    else (err unexpected_eof, record r { pos = max r.pos (length r.image) })

-- `read` into a buffer of `n` bytes: the bytes read, possibly fewer than `n`.
unfoldable pub read : ℕ → M IoError (List ℕ)
unfolding slice
read n r =
    let taken = min n (length r.image - r.pos) in
    (ok (slice r.image r.pos (r.pos + taken)), record r { pos = r.pos + taken })

-- `seek(SeekFrom::Start(n))?` and then `read_exact` into a buffer of `k` bytes.
unfoldable pub read_at : ℕ → ℕ → M IoError (List ℕ)
unfolding read_exact
read_at n k r =
    if ltb n (2 ^ 63) then read_exact k (record r { pos = n }) else (err invalid_input, r)
