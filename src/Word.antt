-- ===== src/Word.antt =====
-- Unsigned machine integers as native numbers: what the source's `+`, `*` and the saturating and
-- rounding methods of `u64` give. An unchecked overflow wraps, as in a release build.
use isomage.Prelude.{ℕ, ◌+◌, ◌-◌, ◌*◌, ◌/◌, ◌%◌, ◌^◌, min, leb, if◌then◌else◌}

abbrev pub u64_max : ℕ
u64_max = 2 ^ 64 - 1

abbrev pub add64 : ℕ → ℕ → ℕ
add64 a b = (a + b) % 2 ^ 64

abbrev pub mul64 : ℕ → ℕ → ℕ
mul64 a b = a * b % 2 ^ 64

abbrev pub saturating_add : ℕ → ℕ → ℕ
saturating_add a b = min (a + b) u64_max

abbrev pub saturating_mul : ℕ → ℕ → ℕ
saturating_mul a b = min (a * b) u64_max

-- `div_ceil`, for a divisor that is not 0.
abbrev pub div_ceil : ℕ → ℕ → ℕ
div_ceil a b = if leb (a % b) 0 then a / b else a / b + 1
