-- ===== src/Text/Decimal.antt =====
-- Numbers in text: `format!` with `{}`, `{:02x}`, and `parse` / `from_str_radix`.
use isomage.Prelude.{
  ℕ, zero, suc, ◌+◌, ◌-◌, ◌*◌, ◌/◌, ◌%◌, ◌^◌, ◌≤◌, ◌<◌, ◌≡◌, refl, sym, ap, ◌∙◌, ◌&&◌, List, [],
  ◌∷◌, ◌++◌, Option, none, some, arith, ltb, leb, ◌==◌, if◌then◌else◌, All, All-append, Bool-cases,
  inl, inr, ltb→lt,
}

-- `{}` on a number below 10 ^ (fuel + 1).
decimal_fuel : ℕ → ℕ → List ℕ
decimal_fuel zero n = (b'0' + n % 10) ∷ []
decimal_fuel (suc k) n =
    let rest = decimal_fuel k (n / 10) in
    if ltb n 10 then (b'0' + n) ∷ [] else rest ++ (b'0' + n % 10) ∷ []

-- `{}` on a `u64`: it has at most 20 digits.
unfoldable pub decimal : ℕ → List ℕ
unfolding decimal_fuel
decimal n = decimal_fuel 19 n

hex_digit : ℕ → ℕ
hex_digit d = if ltb d 10 then b'0' + d else b'a' + (d - 10)

-- `{:02x}` on a `u8`.
unfoldable pub hex2 : ℕ → List ℕ
unfolding hex_digit
hex2 b = hex_digit (b / 16) ∷ hex_digit (b % 16) ∷ []

-- The value of a text of decimal digits.
value : ℕ → List ℕ → ℕ
value acc [] = acc
value acc (d ∷ ds) = value (acc * 10 + (d - b'0')) ds

value-concat :
    (acc : ℕ) (ds : List ℕ) (d : ℕ) → value acc (ds ++ d ∷ []) ≡ value acc ds * 10 + (d - b'0')
unfolding value
value-concat acc [] d = refl
value-concat acc (x ∷ xs) d = value-concat (acc * 10 + (x - b'0')) xs d

value-decimal_fuel : (k n : ℕ) → n < 10 ^ suc k → value 0 (decimal_fuel k n) ≡ n
unfolding decimal_fuel value
value-decimal_fuel zero n h = omega arith
value-decimal_fuel (suc k) n h = ground (
  arith,
  value-decimal_fuel k (n / 10) (omega arith),
  value-concat 0 (decimal_fuel k (n / 10)) (b'0' + n % 10),
)

-- Different numbers print differently.
pub decimal-injective : (a b : ℕ) → a < 2 ^ 64 → b < 2 ^ 64 → decimal a ≡ decimal b → a ≡ b
unfolding decimal
decimal-injective a b ha hb e =
    sym (value-decimal_fuel 19 a (omega arith))
    ∙ ap (value 0) e
    ∙ value-decimal_fuel 19 b (omega arith)

abbrev pub IsDigit : ℕ → Type 0
IsDigit c = (b'0' ≤ c) × (c ≤ b'9')

decimal_fuel-IsDigit : (k n : ℕ) → All IsDigit (decimal_fuel k n)
unfolding decimal_fuel
decimal_fuel-IsDigit zero n = omega arith
decimal_fuel-IsDigit (suc k) n = elim (Bool-cases (ltb n 10)) [
  | inl small ↦ rw small (omega (arith, ltb→lt n 10 small))
  | inr large ↦ rw large (All-append IsDigit _ _ (decimal_fuel-IsDigit k (n / 10)) (omega arith))
]

-- Decimal digits, and at least one.
pub decimal-IsDigit : (n : ℕ) → All IsDigit (decimal n)
unfolding decimal
decimal-IsDigit n = decimal_fuel-IsDigit 19 n

-- The digit in the last place of a radix up to ten.
unfoldable pub digit : ℕ → ℕ → Option ℕ
digit radix c = if leb b'0' c && ltb c (b'0' + radix) then some (c - b'0') else none

-- `checked_mul` and `checked_add` on `u64`, digit by digit.
unfoldable pub digits_value : ℕ → ℕ → List ℕ → Option ℕ
unfolding digit
digits_value radix acc [] = some acc
digits_value radix acc (c ∷ cs) = elim (digit radix c) [
  | none ↦ none
  | some d ↦
      if ltb (acc * radix + d) (2 ^ 64) then digits_value radix (acc * radix + d) cs else none
]

unfoldable pub without_plus : List ℕ → List ℕ
without_plus [] = []
without_plus (c ∷ cs) = if c == b'+' then cs else c ∷ cs

-- `u64::from_str_radix`: an optional plus sign, at least one digit, and no overflow.
unfoldable pub from_str_radix : ℕ → List ℕ → Option ℕ
unfolding digits_value without_plus
from_str_radix radix s = elim (without_plus s) [
  | [] ↦ none
  | c ∷ cs ↦ digits_value radix 0 (c ∷ cs)
]
