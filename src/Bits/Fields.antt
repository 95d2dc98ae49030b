-- ===== src/Bits/Fields.antt =====
-- The bit operations digit by digit: `|` of numbers that share no binary place, and `&` with a power
-- of two.
use Prim.Native.Nat.{digits, bit_or-bitwise, bit_and-bitwise, max}
use native.Mathlib.Nat.{pow-suc}
use isomage.Prelude.{
  ℕ, zero, suc, ◌+◌, ◌-◌, ap, ◌*◌, ◌/◌, ◌%◌, ◌≤◌, ◌<◌, ◌≡◌, refl, bit_and, bit_or, ◌∙◌, ◌^◌, arith,
  min,
}

module _ (z : ℕ → ℕ) (f : ℕ → ℕ → ℕ) where
  one_round : (rounds x y : ℕ) → x ≤ rounds → digits z f (suc rounds) x y ≡ digits z f rounds x y
  one_round zero zero y enough = refl
  one_round zero (suc x) y enough = absurd (omega arith)
  one_round (suc rounds) zero y enough = refl
  one_round (suc rounds) (suc x) y enough =
      let halved : suc x / 2 ≤ rounds = omega arith in
      omega (arith, one_round rounds (suc x / 2) (y / 2) halved)

  spare_rounds : (spare x y : ℕ) → digits z f (spare + x) x y ≡ digits z f x x y
  spare_rounds zero x y = let none_spare : 0 + x ≡ x = omega arith in rw none_spare
  spare_rounds (suc spare) x y =
      let one_spare : suc spare + x ≡ suc (spare + x) = omega arith in
      rw one_spare (one_round (spare + x) x y (omega arith) ∙ spare_rounds spare x y)

  pub half_rounds : (x y : ℕ) → digits z f x (suc x / 2) y ≡ digits z f (suc x / 2) (suc x / 2) y
  half_rounds x y =
      let rest : x ≡ x - suc x / 2 + suc x / 2 = omega arith in
      ap (λ n. digits z f n (suc x / 2) y) rest ∙ spare_rounds (x - suc x / 2) (suc x / 2) y

zero-bit_or : (b : ℕ) → bit_or 0 b ≡ b
zero-bit_or b = bit_or-bitwise 0 b

bit_or_step : (x y : ℕ) → bit_or x y ≡ bit_or (x / 2) (y / 2) * 2 + max (x % 2) (y % 2)
bit_or_step zero y =
    let low : max 0 (y % 2) ≡ y % 2 = omega arith in
    zero-bit_or y ∙ omega (arith, low, zero-bit_or (y / 2))
bit_or_step (suc x) y =
    bit_or-bitwise (suc x) y
    ∙ omega (arith, half_rounds (λ b. b) max x (y / 2), bit_or-bitwise (suc x / 2) (y / 2))

bit_and_step : (x y : ℕ) → bit_and x y ≡ bit_and (x / 2) (y / 2) * 2 + min (x % 2) (y % 2)
bit_and_step zero y =
    let low : min 0 (y % 2) ≡ 0 = omega arith in
    bit_and-bitwise 0 y ∙ omega (arith, low, bit_and-bitwise 0 (y / 2))
bit_and_step (suc x) y =
    bit_and-bitwise (suc x) y
    ∙ omega (arith, half_rounds (λ b. 0) min x (y / 2), bit_and-bitwise (suc x / 2) (y / 2))

and_rounds : (rounds a : ℕ) → digits (λ b. 0) min rounds a 0 ≡ 0
and_rounds zero a = refl
and_rounds (suc rounds) zero = refl
and_rounds (suc rounds) (suc a) = omega (arith, and_rounds rounds (suc a / 2))

bit_and-zero : (a : ℕ) → bit_and a 0 ≡ 0
bit_and-zero a = bit_and-bitwise a 0 ∙ and_rounds a a

-- A number moved up by `k` binary places.
abbrev pub up : ℕ → ℕ → ℕ
up zero b = b
up (suc k) b = up k b * 2

pub bit_or-up : (k a b : ℕ) → a < 2 ^ k → bit_or a (up k b) ≡ a + up k b
bit_or-up zero a b h = let none : a ≡ 0 = omega arith in rw none (omega (arith, zero-bit_or b))
bit_or-up (suc k) a b h =
    let low : max (a % 2) (up k b * 2 % 2) ≡ a % 2 = omega arith in
    let half : up k b * 2 / 2 ≡ up k b = omega arith in
    bit_or_step a (up k b * 2)
    ∙ rw half (omega (arith, low, bit_or-up k (a / 2) b (omega (arith, pow-suc 2 k))))

-- The binary digit at place `k`.
abbrev pub digit : ℕ → ℕ → ℕ
digit zero a = a % 2
digit (suc k) a = digit k (a / 2)

pub bit_and-up : (k a : ℕ) → bit_and a (up k 1) ≡ up k (digit k a)
bit_and-up zero a =
    let one : 1 / 2 ≡ 0 = refl in
    let low : min (a % 2) 1 ≡ a % 2 = omega arith in
    bit_and_step a 1 ∙ omega (arith, low, bit_and-zero (a / 2))
bit_and-up (suc k) a =
    let low : min (a % 2) (up k 1 * 2 % 2) ≡ 0 = omega arith in
    let half : up k 1 * 2 / 2 ≡ up k 1 = omega arith in
    bit_and_step a (up k 1 * 2) ∙ rw half (omega (arith, low, bit_and-up k (a / 2)))
