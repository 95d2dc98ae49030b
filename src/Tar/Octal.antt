-- ===== src/Tar/Octal.antt =====
-- src/formats/tar.rs: the octal fields of a header, as the writer makes them and the reader takes
-- them.
use isomage.Prelude.{
  ℕ, zero, suc, ◌+◌, ◌*◌, ◌/◌, ◌%◌, ◌^◌, ◌≤◌, ◌<◌, ◌≡◌, refl, ap, sym, ◌∙◌, length-append, List, [],
  ◌∷◌, ◌++◌, some, arith, All, All-append, false, length,
}
use mathlib.Core.List.{append-nil, append_assoc}
use isomage.Text.{trim_solid, is_whitespace}
use isomage.Text.Decimal.{from_str_radix, digits_value, digit, without_plus}
use isomage.Text.Utf8.{from_utf8_ascii, IsAscii}
use isomage.Tar.{octal, parse_octal, until_nul_or_space, unwrap_or}

abbrev IsOctal : ℕ → Type 0
IsOctal c = (b'0' ≤ c) × (c ≤ b'7')

octal-IsOctal : (k n : ℕ) → All IsOctal (octal k n)
unfolding octal
octal-IsOctal zero n = tt
octal-IsOctal (suc k) n = All-append IsOctal _ _ (octal-IsOctal k (n / 8)) (omega arith)

until_nul_or_space-digits :
    (ds rest : List ℕ) → All IsOctal ds → until_nul_or_space (ds ++ 0 ∷ rest) ≡ ds
unfolding until_nul_or_space
until_nul_or_space-digits [] rest h = refl
until_nul_or_space-digits (d ∷ ds) rest (h, hs) =
    ground (arith, until_nul_or_space-digits ds rest hs)

next_digit :
    (q d n : ℕ) (rest : List ℕ)
    → d < 8
    → q * 8 + d ≡ n
    → n < 2 ^ 64
    → digits_value 8 q ((b'0' + d) ∷ rest) ≡ digits_value 8 n rest
unfolding digits_value digit
next_digit q d n rest hd e b = ground (arith, ap (λ m. digits_value 8 m rest) e)

digits_value-octal :
    (k n : ℕ) (rest : List ℕ)
    → n < 8 ^ k
    → n < 2 ^ 64
    → digits_value 8 0 (octal k n ++ rest) ≡ digits_value 8 n rest
unfolding octal digits_value digit
digits_value-octal zero n rest h b = ap (λ m. digits_value 8 m rest) (omega arith)
digits_value-octal (suc k) n rest h b =
    rw (append_assoc (octal k (n / 8)) ((b'0' + n % 8) ∷ []) rest) (
      rw (digits_value-octal k (n / 8) ((b'0' + n % 8) ∷ rest) (omega arith) (omega arith))
        (next_digit (n / 8) (n % 8) n rest (omega arith) (omega arith) b))

IsOctal-solid : (ds : List ℕ) → All IsOctal ds → All (λ c. is_whitespace c ≡ false) ds
unfolding is_whitespace
IsOctal-solid [] h = tt
IsOctal-solid (d ∷ ds) (h, hs) = (ground (arith, h), IsOctal-solid ds hs)

IsOctal-IsAscii : (ds : List ℕ) → All IsOctal ds → All IsAscii ds
IsOctal-IsAscii [] h = tt
IsOctal-IsAscii (d ∷ ds) (h, hs) = (omega (arith, h), IsOctal-IsAscii ds hs)

length-octal : (k n : ℕ) → length (octal k n) ≡ k
unfolding octal
length-octal zero n = refl
length-octal (suc k) n =
    omega (arith, length-append (octal k (n / 8)) ((b'0' + n % 8) ∷ []), length-octal k (n / 8))

all_digits : (k n : ℕ) → n < 8 ^ k → n < 2 ^ 64 → digits_value 8 0 (octal k n) ≡ some n
unfolding digits_value
all_digits k n h b =
    ap (λ ds. digits_value 8 0 ds) (sym (append-nil (octal k n))) ∙ digits_value-octal k n [] h b

from_str_radix-octals :
    (ds : List ℕ) → All IsOctal ds → 0 < length ds → from_str_radix 8 ds ≡ digits_value 8 0 ds
unfolding from_str_radix without_plus
from_str_radix-octals [] h l = ground (arith, l)
from_str_radix-octals (d ∷ ds) (h, hs) l = ground (arith, h)

-- A number below 8 ^ (k + 1) and 2 ^ 64, printed with k + 1 octal digits and a NUL after them as
-- the writer prints a field, is read back by `parse_octal`, whatever follows in the field.
pub parse_octal-octal :
    (k n : ℕ) (rest : List ℕ)
    → n < 8 ^ suc k
    → n < 2 ^ 64
    → parse_octal (octal (suc k) n ++ 0 ∷ rest) ≡ n
unfolding parse_octal unwrap_or
parse_octal-octal k n rest h b =
    let ds = octal (suc k) n in
    let octals = octal-IsOctal (suc k) n in
    rw (until_nul_or_space-digits ds rest octals) (
      rw (from_utf8_ascii ds (IsOctal-IsAscii ds octals)) (
        rw (trim_solid ds (IsOctal-solid ds octals)) (
          rw (from_str_radix-octals ds octals (omega (arith, length-octal (suc k) n)))
            (rw (all_digits (suc k) n h b) refl))))
