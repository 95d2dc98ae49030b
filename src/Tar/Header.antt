-- ===== src/Tar/Header.antt =====
-- src/formats/tar.rs: a header of `write_entry`, read back by the fields of `scan_entries`.
use isomage.Prelude.{
  ℕ, zero, suc, ◌+◌, ◌-◌, ◌^◌, ◌≤◌, ◌<◌, ◌≡◌, refl, ap, sym, ◌∙◌, length-append, length-take, List,
  [], ◌∷◌, ◌++◌, take, drop, replicate, length, true, arith, All,
}
use isomage.Text.{codes, str_eq, is_empty}
use isomage.Text.Utf8.{from_utf8_lossy, from_utf8_lossy_ascii, IsAscii}
use isomage.Bytes.{slice}
use isomage.Tar.{
  header, header_with, name_field, has_ustar_magic, parse_octal, parse_name, until_nul, entry_name,
  after_name, octal, sum_bytes,
}
use isomage.Tar.Octal.{parse_octal-octal}

length-replicate : (n : ℕ) → length {A = ℕ} (replicate n 0) ≡ n
length-replicate zero = refl
length-replicate (suc n) = ap suc (length-replicate n)

length-name_field : (name : List ℕ) → length (name_field name) ≡ 100
unfolding name_field
length-name_field name = omega (
  arith,
  length-append (take 100 name) (replicate (100 - length name) 0),
  length-take 100 name,
  length-replicate (100 - length name),
)

-- Behind a prefix of 100 bytes.
drop_prefix : (xs ys : List ℕ) (a : ℕ) → length xs ≡ 100 → drop (100 + a) (xs ++ ys) ≡ drop a ys
drop_prefix xs ys a h = ap (λ n. drop (n + a) (xs ++ ys)) (sym h) ∙ behind xs
  where
    behind : (zs : List ℕ) → drop (length zs + a) (zs ++ ys) ≡ drop a ys
    behind [] = let e : 0 + a ≡ a = omega arith in rw e
    behind (z ∷ zs) =
        let e : suc (length zs) + a ≡ suc (length zs + a) = omega arith in rw e (behind zs)

take_prefix : (xs ys : List ℕ) → take (length xs) (xs ++ ys) ≡ xs
take_prefix [] ys = refl
take_prefix (x ∷ xs) ys = ap (◌∷◌ x) (take_prefix xs ys)

-- The header with its checksum field abstracted.
module _ (name : List ℕ) (c n : ℕ) where
  abbrev rest : List ℕ
  rest = after_name (octal 6 c ++ 0 ∷ b' ' ∷ []) n

  magic_of : slice (name_field name ++ rest) 257 263 ≡ codes "ustar" ++ 0 ∷ []
  unfolding slice after_name octal
  magic_of = ap (take 6) (drop_prefix (name_field name) rest 157 (length-name_field name))

  size_of : slice (name_field name ++ rest) 124 136 ≡ octal 11 n ++ 0 ∷ []
  unfolding slice after_name octal
  size_of = ap (take 12) (drop_prefix (name_field name) rest 24 (length-name_field name))

  prefix_of : slice (name_field name ++ rest) 345 500 ≡ replicate 155 0
  unfolding slice after_name octal
  prefix_of = ap (take 155) (drop_prefix (name_field name) rest 245 (length-name_field name))

  type_of : slice (name_field name ++ rest) 156 157 ≡ b'0' ∷ []
  unfolding slice after_name octal
  type_of = ap (take 1) (drop_prefix (name_field name) rest 56 (length-name_field name))

  length_of : length (name_field name ++ rest) ≡ 512
  unfolding after_name octal
  length_of = omega (arith, length-append (name_field name) rest, length-name_field name)

  name_of : slice (name_field name ++ rest) 0 100 ≡ name_field name
  unfolding slice
  name_of =
      ap (λ k. take k (name_field name ++ rest)) (sym (length-name_field name))
      ∙ take_prefix (name_field name) rest

-- What a name is made of: ASCII without NUL.
abbrev pub IsNameByte : ℕ → Type 0
IsNameByte b = (1 ≤ b) × IsAscii b

until_nul_padded :
    (name : List ℕ) (k : ℕ) → All IsNameByte name → until_nul (name ++ replicate k 0) ≡ name
unfolding until_nul
until_nul_padded [] zero h = refl
until_nul_padded [] (suc k) h = refl
until_nul_padded (b ∷ bs) k (h, hs) = ground (arith, h, until_nul_padded bs k hs)

IsNameByte-IsAscii : (name : List ℕ) → All IsNameByte name → All IsAscii name
IsNameByte-IsAscii [] h = tt
IsNameByte-IsAscii (b ∷ bs) (h, hs) = (h.1, IsNameByte-IsAscii bs hs)

take_all : (n : ℕ) (bs : List ℕ) → length bs ≤ n → take n bs ≡ bs
take_all zero [] h = refl
take_all (suc n) [] h = refl
take_all zero (b ∷ bs) h = absurd (omega arith)
take_all (suc n) (b ∷ bs) h = ap (◌∷◌ b) (take_all n bs (omega arith))

parse_name-name_field :
    (name : List ℕ) → length name ≤ 100 → All IsNameByte name → parse_name (name_field name) ≡ name
unfolding parse_name name_field
parse_name-name_field name h hs = rw (take_all 100 name h) (
    ap from_utf8_lossy (until_nul_padded name (100 - length name) hs)
    ∙ from_utf8_lossy_ascii name (IsNameByte-IsAscii name hs))

-- The header that the writer makes for a file of fewer than 8 ^ 11 bytes whose name is ASCII
-- without NUL and at most 100 bytes long is one block, and the reader finds in it the magic, the
-- name, the size and the type of a regular file.
pub header-IsReadBack :
    (name : List ℕ) (n : ℕ)
    → length name ≤ 100
    → All IsNameByte name
    → n < 8 ^ 11
    → (length (header name n) ≡ 512)
      × (has_ustar_magic (header name n) ≡ true)
      × (entry_name (header name n) ≡ name)
      × (parse_octal (slice (header name n) 124 136) ≡ n)
      × (slice (header name n) 156 157 ≡ b'0' ∷ [])
unfolding header header_with has_ustar_magic entry_name str_eq parse_name until_nul is_empty
    from_utf8_lossy
header-IsReadBack name n h hs hn =
    let c = sum_bytes (header_with (replicate 8 b' ') name n) in
    let no_prefix : entry_name (name_field name ++ rest name c n) ≡ name =
      rw (prefix_of name c n)
        (ap parse_name (name_of name c n) ∙ parse_name-name_field name h hs) in
    (
      length_of name c n,
      rw (magic_of name c n) refl,
      no_prefix,
      ap parse_octal (size_of name c n) ∙ parse_octal-octal 10 n [] hn (omega arith),
      type_of name c n,
    )
