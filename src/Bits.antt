-- ===== src/Bits.antt =====
-- Bit operations on machine words: the law for the lowest digit of `^`, and what follows from it
-- for words of bytes.
pub mod Fields
use Prim.Native.Nat.{digits, differ, bit_xor-bitwise}
use native.Mathlib.Nat.{pow-suc}
use isomage.Bits.Fields.{half_rounds}
use isomage.Prelude.{
  ℕ, zero, suc, ◌+◌, ◌-◌, ap, ◌*◌, ◌/◌, ◌%◌, ◌≤◌, ◌<◌, ◌≡◌, refl, bit_xor, ◌∙◌, ◌^◌, arith,
}

pub zero-bit_xor : (b : ℕ) → bit_xor 0 b ≡ b
zero-bit_xor b = bit_xor-bitwise 0 b

differ_zero : (d : ℕ) → differ d 0 ≡ d
differ_zero zero = refl
differ_zero (suc d) = refl

-- The lowest digit of the result, and the rest.
bit_xor_step : (x y : ℕ) → bit_xor x y ≡ bit_xor (x / 2) (y / 2) * 2 + differ (x % 2) (y % 2)
bit_xor_step zero y =
    let low : differ 0 (y % 2) ≡ y % 2 = refl in
    zero-bit_xor y ∙ omega (arith, low, zero-bit_xor (y / 2))
bit_xor_step (suc x) y =
    let half = suc x / 2 in
    bit_xor-bitwise (suc x) y
    ∙ omega (arith, half_rounds (λ d. d) differ x (y / 2), bit_xor-bitwise half (y / 2))

-- An even right operand leaves the lowest digit alone.
bit_xor_even : (a b : ℕ) → bit_xor a (b * 2) ≡ bit_xor (a / 2) b * 2 + a % 2
bit_xor_even a b =
    let half : b * 2 / 2 ≡ b = omega arith in
    let even : b * 2 % 2 ≡ 0 = omega arith in
    bit_xor_step a (b * 2) ∙ rw (half, even, differ_zero (a % 2))

-- Two more binary places at a time.
bit_xor_four : (a b : ℕ) → bit_xor a (b * 4) ≡ bit_xor (a / 4) b * 4 + a % 4
bit_xor_four a b =
    let twice : b * 4 ≡ b * 2 * 2 = omega arith in
    let halves : a / 4 ≡ a / 2 / 2 = omega arith in
    rw (twice, halves) (omega (arith, bit_xor_even a (b * 2), bit_xor_even (a / 2) b))

bit_xor_sixteen : (a b : ℕ) → bit_xor a (b * 16) ≡ bit_xor (a / 16) b * 16 + a % 16
bit_xor_sixteen a b =
    let twice : b * 16 ≡ b * 4 * 4 = omega arith in
    let halves : a / 16 ≡ a / 4 / 4 = omega arith in
    rw (twice, halves) (omega (arith, bit_xor_four a (b * 4), bit_xor_four (a / 4) b))

-- A byte shifted up by eight meets only what stands above the lowest byte.
pub bit_xor_byte : (a b : ℕ) → bit_xor a (b * 256) ≡ bit_xor (a / 256) b * 256 + a % 256
bit_xor_byte a b =
    let twice : b * 256 ≡ b * 16 * 16 = omega arith in
    let halves : a / 256 ≡ a / 16 / 16 = omega arith in
    rw (twice, halves) (omega (arith, bit_xor_sixteen a (b * 16), bit_xor_sixteen (a / 16) b))

-- A byte is below 256 after any exclusive or with another byte.
differ-lt : (x y : ℕ) → x < 2 → y < 2 → differ x y < 2
differ-lt zero y hx hy = hy
differ-lt (suc x) zero hx hy = hx
differ-lt (suc x) (suc y) hx hy = differ-lt x y (omega arith) (omega arith)

pub bit_xor_width : (w a b : ℕ) → a < 2 ^ w → b < 2 ^ w → bit_xor a b < 2 ^ w
bit_xor_width zero a b ha hb = let e : a ≡ 0 = omega arith in rw e (rw zero-bit_xor hb)
bit_xor_width (suc w) a b ha hb = omega (
  arith,
  bit_xor_step a b,
  differ-lt (a % 2) (b % 2) (omega arith) (omega arith),
  pow-suc 2 w,
  bit_xor_width w (a / 2) (b / 2) (omega (arith, pow-suc 2 w)) (omega (arith, pow-suc 2 w)),
)

pub bit_xor-lt : (a b : ℕ) → a < 256 → b < 256 → bit_xor a b < 256
bit_xor-lt a b ha hb = bit_xor_width 8 a b ha hb
