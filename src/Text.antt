-- ===== src/Text.antt =====
-- Rust strings and what the parsers use of `str`, `String` and `char`. A string is the list of
-- its characters (Unicode scalar values); a byte string is a list of numbers below 256.
pub mod Utf8
pub mod Decimal
use Prim.Native.Char.{code}
use Prim.Native.String.{String}
use isomage.Prelude.{
  ℕ, zero, suc, ◌+◌, ◌-◌, ◌*◌, ◌≤◌, ◌≡◌, refl, Bool, true, false, ◌&&◌, ◌||◌, ◌↔◌, List, [], ◌∷◌,
  ◌++◌, Option, none, some, arith, leb, ◌==◌, ==_iff, if◌then◌else◌, not, All, ap,
}

abbrev pub Str : Type 0
Str = List ℕ

-- The characters of a literal.
abbrev pub codes : String → Str
codes String.[] = []
codes (String.◌∷◌ c s) = code c ∷ codes s

-- `==` on slices and strings.
unfoldable pub str_eq : List ℕ → List ℕ → Bool
str_eq [] [] = true
str_eq (x ∷ xs) (y ∷ ys) = (x == y) && str_eq xs ys
str_eq _ _ = false

pub str_eq_iff : (a b : List ℕ) → (str_eq a b ≡ true) ↔ (a ≡ b)
unfolding str_eq
str_eq_iff (x ∷ a) (y ∷ b) = ground (arith, str_eq_iff a b)
str_eq_iff _ _ = ground arith

pub str_eq_refl : (a : List ℕ) → str_eq a a ≡ true
str_eq_refl a = (str_eq_iff a a).1 refl

unfoldable pub is_empty : Str → Bool
is_empty [] = true
is_empty (_ ∷ _) = false

-- `trim_start_matches(c)` for one character.
unfoldable pub trim_start_char : ℕ → Str → Str
trim_start_char c [] = []
trim_start_char c (x ∷ xs) = if x == c then trim_start_char c xs else x ∷ xs

-- `trim_end_matches(c)` for one character.
unfoldable pub trim_end_char : ℕ → Str → Str
unfolding is_empty
trim_end_char c [] = []
trim_end_char c (x ∷ xs) =
    let rest = trim_end_char c xs in if (x == c) && is_empty rest then [] else x ∷ rest

-- `strip_prefix`: what follows the prefix.
unfoldable pub strip_prefix : Str → Str → Option Str
strip_prefix [] s = some s
strip_prefix (p ∷ ps) [] = none
strip_prefix (p ∷ ps) (c ∷ cs) = if p == c then strip_prefix ps cs else none

-- `find(c)` with the two slices around the match: what stands before the first `c`, and what
-- follows it if there is one.
unfoldable pub split_once : ℕ → Str → Str × Option Str
split_once c [] = ([], none)
split_once c (x ∷ xs) =
    let (front, back) = split_once c xs in if x == c then ([], some xs) else (x ∷ front, back)

-- `split(c)`: the pieces between the separators, empty ones included.
unfoldable pub split_on : ℕ → Str → List Str
split_on c [] = [] ∷ []
split_on c (x ∷ xs) = push (x == c) x (split_on c xs)
  where
    push : Bool → ℕ → List Str → List Str
    push true a pieces = [] ∷ pieces
    push false a [] = (a ∷ []) ∷ []
    push false a (p ∷ ps) = (a ∷ p) ∷ ps

-- `char::is_whitespace`.
unfoldable pub is_whitespace : ℕ → Bool
is_whitespace c =
    (leb 9 c && leb c 13)
    || (c == 32)
    || (c == 0x85)
    || (c == 0xa0)
    || (c == 0x1680)
    || (leb 0x2000 c && leb c 0x200a)
    || (c == 0x2028)
    || (c == 0x2029)
    || (c == 0x202f)
    || (c == 0x205f)
    || (c == 0x3000)

trim_start : Str → Str
trim_start [] = []
trim_start (x ∷ xs) = if is_whitespace x then trim_start xs else x ∷ xs

trim_end : Str → Str
unfolding is_empty
trim_end [] = []
trim_end (x ∷ xs) =
    let rest = trim_end xs in if is_whitespace x && is_empty rest then [] else x ∷ rest

-- `str::trim`.
unfoldable pub trim : Str → Str
unfolding trim_start trim_end is_whitespace
trim s = trim_end (trim_start s)

trim_end_solid : (s : Str) → All (λ c. is_whitespace c ≡ false) s → trim_end s ≡ s
unfolding trim_end
trim_end_solid [] h = refl
trim_end_solid (x ∷ xs) (h, hs) = rw h (ap (◌∷◌ x) (trim_end_solid xs hs))

trim_start_solid : (s : Str) → All (λ c. is_whitespace c ≡ false) s → trim_start s ≡ s
unfolding trim_start
trim_start_solid [] h = refl
trim_start_solid (x ∷ xs) (h, hs) = rw h refl

-- A text without whitespace is trimmed already.
pub trim_solid : (s : Str) → All (λ c. is_whitespace c ≡ false) s → trim s ≡ s
unfolding trim
trim_solid s h = rw (trim_start_solid s h) (trim_end_solid s h)

-- `char::is_ascii_alphanumeric`.
unfoldable pub is_ascii_alphanumeric : ℕ → Bool
is_ascii_alphanumeric c =
    (leb b'0' c && leb c b'9') || (leb b'A' c && leb c b'Z') || (leb b'a' c && leb c b'z')
