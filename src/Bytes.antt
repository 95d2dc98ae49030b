-- ===== src/Bytes.antt =====
-- Byte slices: indexing, sub-slices, and `u16`/`u32`/`u64::from_le_bytes` and `from_be_bytes`.
-- The source indexes only buffers whose length it has fixed; there an index is in range, and the
-- default of `byte` is never read.
use isomage.Prelude.{
  ℕ, zero, suc, ◌+◌, ◌-◌, ◌*◌, ◌^◌, ◌≤◌, ◌<◌, ◌≡◌, ◌∙◌, refl, sym, ap, Bool, true, ◌&&◌, List, [],
  ◌∷◌, ◌++◌, arith, ◌==◌, get_or, take, drop, length, All, length-take, length-drop,
}

abbrev pub IsByte : ℕ → Type 0
IsByte b = b < 256

abbrev pub byte : List ℕ → ℕ → ℕ
byte bs i = get_or bs i 0

-- `bs[a..b]`.
unfoldable pub slice : List ℕ → ℕ → ℕ → List ℕ
slice bs a b = take (b - a) (drop a bs)

unfoldable pub le16 : List ℕ → ℕ → ℕ
le16 bs i = byte bs i + 256 * byte bs (i + 1)

unfoldable pub le32 : List ℕ → ℕ → ℕ
unfolding le16
le32 bs i = le16 bs i + 2 ^ 16 * le16 bs (i + 2)

unfoldable pub le64 : List ℕ → ℕ → ℕ
unfolding le32
le64 bs i = le32 bs i + 2 ^ 32 * le32 bs (i + 4)

unfoldable pub be16 : List ℕ → ℕ → ℕ
be16 bs i = 256 * byte bs i + byte bs (i + 1)

unfoldable pub be32 : List ℕ → ℕ → ℕ
unfolding be16
be32 bs i = 2 ^ 16 * be16 bs i + be16 bs (i + 2)

unfoldable pub be64 : List ℕ → ℕ → ℕ
unfolding be32
be64 bs i = 2 ^ 32 * be32 bs i + be32 bs (i + 4)

-- `iter().all(|&b| b == 0)`.
unfoldable pub all_zero : List ℕ → Bool
all_zero [] = true
all_zero (b ∷ bs) = (b == 0) && all_zero bs

pub byte-lt : (bs : List ℕ) (i : ℕ) → All IsByte bs → byte bs i < 256
byte-lt [] i h = omega arith
byte-lt (b ∷ bs) zero (h, t) = h
byte-lt (b ∷ bs) (suc i) (h, t) = byte-lt bs i t

pub le16-lt : (bs : List ℕ) (i : ℕ) → All IsByte bs → le16 bs i < 2 ^ 16
unfolding le16
le16-lt bs i h = omega (arith, byte-lt bs i h, byte-lt bs (i + 1) h)

pub le32-lt : (bs : List ℕ) (i : ℕ) → All IsByte bs → le32 bs i < 2 ^ 32
unfolding le32
le32-lt bs i h = omega (arith, le16-lt bs i h, le16-lt bs (i + 2) h)

pub le64-lt : (bs : List ℕ) (i : ℕ) → All IsByte bs → le64 bs i < 2 ^ 64
unfolding le64
le64-lt bs i h = omega (arith, le32-lt bs i h, le32-lt bs (i + 4) h)

pub be16-lt : (bs : List ℕ) (i : ℕ) → All IsByte bs → be16 bs i < 2 ^ 16
unfolding be16
be16-lt bs i h = omega (arith, byte-lt bs i h, byte-lt bs (i + 1) h)

pub be32-lt : (bs : List ℕ) (i : ℕ) → All IsByte bs → be32 bs i < 2 ^ 32
unfolding be32
be32-lt bs i h = omega (arith, be16-lt bs i h, be16-lt bs (i + 2) h)

pub be64-lt : (bs : List ℕ) (i : ℕ) → All IsByte bs → be64 bs i < 2 ^ 64
unfolding be64
be64-lt bs i h = omega (arith, be32-lt bs i h, be32-lt bs (i + 4) h)

pub take-IsByte : (n : ℕ) (bs : List ℕ) → All IsByte bs → All IsByte (take n bs)
take-IsByte zero bs h = tt
take-IsByte (suc n) [] h = tt
take-IsByte (suc n) (b ∷ bs) (h, t) = (h, take-IsByte n bs t)

pub drop-IsByte : (n : ℕ) (bs : List ℕ) → All IsByte bs → All IsByte (drop n bs)
drop-IsByte zero bs h = h
drop-IsByte (suc n) [] h = tt
drop-IsByte (suc n) (b ∷ bs) (h, t) = drop-IsByte n bs t

pub slice-IsByte : (bs : List ℕ) (a b : ℕ) → All IsByte bs → All IsByte (slice bs a b)
unfolding slice
slice-IsByte bs a b h = take-IsByte (b - a) (drop a bs) (drop-IsByte a bs h)

-- A slice inside the buffer has the length that its ends say.
pub length-slice : (bs : List ℕ) (a b : ℕ) → b ≤ length bs → length (slice bs a b) ≡ b - a
unfolding slice
length-slice bs a b h = omega (arith, length-take (b - a) (drop a bs), length-drop a bs)

-- Bytes at an offset of a slice are those of the whole.
pub get_or-drop : (bs : List ℕ) (a i : ℕ) → get_or (drop a bs) i 0 ≡ get_or bs (a + i) 0
get_or-drop bs zero i = let e : 0 + i ≡ i = omega arith in rw e
get_or-drop [] (suc a) i = refl
get_or-drop (b ∷ bs) (suc a) i =
    let e : suc a + i ≡ suc (a + i) = omega arith in rw e (get_or-drop bs a i)

get_or-take : (bs : List ℕ) (n i : ℕ) → i < n → get_or (take n bs) i 0 ≡ get_or bs i 0
get_or-take bs zero i h = absurd (omega arith)
get_or-take [] (suc n) i h = refl
get_or-take (b ∷ bs) (suc n) zero h = refl
get_or-take (b ∷ bs) (suc n) (suc i) h = get_or-take bs n i (omega arith)

pub byte-slice : (bs : List ℕ) (a b i : ℕ) → i < b - a → byte (slice bs a b) i ≡ byte bs (a + i)
unfolding slice
byte-slice bs a b i h = get_or-take (drop a bs) (b - a) i h ∙ get_or-drop bs a i

module _ (bs : List ℕ) (a b i : ℕ) where
  byte_far : (j : ℕ) → i + j < b - a → byte (slice bs a b) (i + j) ≡ byte bs (a + i + j)
  byte_far j h =
      byte-slice bs a b (i + j) h ∙ (let e : a + (i + j) ≡ a + i + j = omega arith in rw e)

  pub le16-slice : i + 1 < b - a → le16 (slice bs a b) i ≡ le16 bs (a + i)
  unfolding le16
  le16-slice h = omega (arith, byte-slice bs a b i (omega arith), byte_far 1 h)

pub le32-slice : (bs : List ℕ) (a b i : ℕ) → i + 3 < b - a → le32 (slice bs a b) i ≡ le32 bs (a + i)
unfolding le32
le32-slice bs a b i h =
    let e : a + (i + 2) ≡ a + i + 2 = omega arith in
    omega
      (arith, le16-slice bs a b i (omega arith), rw e at (le16-slice bs a b (i + 2) (omega arith)))

pub le64-slice : (bs : List ℕ) (a b i : ℕ) → i + 7 < b - a → le64 (slice bs a b) i ≡ le64 bs (a + i)
unfolding le64
le64-slice bs a b i h =
    let e : a + (i + 4) ≡ a + i + 4 = omega arith in
    omega
      (arith, le32-slice bs a b i (omega arith), rw e at (le32-slice bs a b (i + 4) (omega arith)))

take-drop_join : (bs : List ℕ) (m n : ℕ) → take m bs ++ take n (drop m bs) ≡ take (m + n) bs
take-drop_join bs zero n = let e : 0 + n ≡ n = omega arith in rw e
take-drop_join [] (suc m) zero = let e : suc m + 0 ≡ suc (m + 0) = omega arith in rw e
take-drop_join [] (suc m) (suc n) = let e : suc m + suc n ≡ suc (m + suc n) = omega arith in rw e
take-drop_join (b ∷ bs) (suc m) n =
    let e : suc m + n ≡ suc (m + n) = omega arith in rw e (ap (◌∷◌ b) (take-drop_join bs m n))

pub drop-drop : (bs : List ℕ) (m n : ℕ) → drop n (drop m bs) ≡ drop (m + n) bs
drop-drop bs zero n = let e : 0 + n ≡ n = omega arith in rw e
drop-drop [] (suc m) zero = let e : suc m + 0 ≡ suc (m + 0) = omega arith in rw e
drop-drop [] (suc m) (suc n) = let e : suc m + suc n ≡ suc (m + suc n) = omega arith in rw e
drop-drop (b ∷ bs) (suc m) n =
    let e : suc m + n ≡ suc (m + n) = omega arith in rw e (drop-drop bs m n)

-- Two slices that meet are one slice.
pub slice-append :
    (bs : List ℕ) (a b c : ℕ) → a ≤ b → b ≤ c → slice bs a b ++ slice bs b c ≡ slice bs a c
unfolding slice
slice-append bs a b c h k =
    let behind : b ≡ a + (b - a) = omega arith in
    let whole : b - a + (c - b) ≡ c - a = omega arith in
    let dropped : drop b bs ≡ drop (b - a) (drop a bs) =
      ap (λ n. drop n bs) behind ∙ sym (drop-drop bs a (b - a)) in
    rw dropped (rw (← whole) (take-drop_join (drop a bs) (b - a) (c - b)))

take-take : (xs : List ℕ) (m k : ℕ) → m ≤ k → take m (take k xs) ≡ take m xs
take-take xs zero k h = refl
take-take xs (suc m) zero h = absurd (omega arith)
take-take [] (suc m) (suc k) h = refl
take-take (x ∷ xs) (suc m) (suc k) h = ap (◌∷◌ x) (take-take xs m k (omega arith))

pub take-slice : (bs : List ℕ) (a b n : ℕ) → a + n ≤ b → take n (slice bs a b) ≡ slice bs a (a + n)
unfolding slice
take-slice bs a b n h =
    let e : a + n - a ≡ n = omega arith in rw e (take-take (drop a bs) n (b - a) (omega arith))

drop-take : (xs : List ℕ) (m k : ℕ) → drop m (take k xs) ≡ take (k - m) (drop m xs)
drop-take xs zero k = let e : k - 0 ≡ k = omega arith in rw e
drop-take xs (suc m) zero = let e : 0 - suc m ≡ 0 = omega arith in rw e
drop-take [] (suc m) (suc k) = take_nil (suc k - suc m)
  where
    take_nil : (n : ℕ) → [] ≡ take {A = ℕ} n []
    take_nil zero = refl
    take_nil (suc n) = refl
drop-take (x ∷ xs) (suc m) (suc k) =
    let e : suc k - suc m ≡ k - m = omega arith in rw e (drop-take xs m k)

-- A slice of a slice.
pub slice-slice :
    (bs : List ℕ) (a b c d : ℕ) → a + d ≤ b → slice (slice bs a b) c d ≡ slice bs (a + c) (a + d)
unfolding slice
slice-slice bs a b c d h =
    let e : a + d - (a + c) ≡ d - c = omega arith in
    rw (e, drop-take (drop a bs) c (b - a), drop-drop bs a c)
      (take-take (drop (a + c) bs) (d - c) (b - a - c) (omega arith))

-- `all_zero` is about all bytes.
pub all_zero-All : (bs : List ℕ) → all_zero bs ≡ true → All (λ b. b ≡ 0) bs
all_zero-All [] h = tt
all_zero-All (b ∷ bs) h =
    (unfold all_zero in ground (arith, h), all_zero-All bs (unfold all_zero in ground (arith, h)))

pub All-all_zero : (bs : List ℕ) → All (λ b. b ≡ 0) bs → all_zero bs ≡ true
unfolding all_zero
All-all_zero [] h = refl
All-all_zero (b ∷ bs) (h, hs) = ground (arith, h, All-all_zero bs hs)
