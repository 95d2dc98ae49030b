-- ===== src/Ntfs/Runs/Fields.antt =====
-- src/formats/ntfs.rs, `decode_runlist`: the fields of a run, and their sign extension.
use native.Mathlib.Nat.{mul_assoc, pow-suc, pow-le-pow_right}
use isomage.Prelude.{
  ℕ, zero, suc, ◌+◌, ◌-◌, ◌*◌, ◌/◌, ◌%◌, ◌^◌, ◌≤◌, ◌<◌, ◌≡◌, refl, sym, ap, subst, ◌∙◌, true, false,
  List, [], ◌∷◌, Bool-cases, inl, inr, ltb, ◌==◌, if◌then◌else◌, arith, bit_and, bit_or,
}
use isomage.Bits.Fields.{up, digit, bit_or-up, bit_and-up}
use isomage.Ntfs.Attributes.{shl64, or_bytes, sign_extend}

-- `count` bytes of a number, the lowest first.
abbrev pub field : ℕ → ℕ → List ℕ
field zero v = []
field (suc count) v = v % 256 ∷ field count (v / 256)

up-power : (k b : ℕ) → up k b ≡ b * 2 ^ k
up-power zero b = omega arith
up-power (suc k) b =
    omega (arith, up-power k b, ap (λ p. b * p) (pow-suc 2 k), mul_assoc b (2 ^ k) 2)

up-fits : (k b : ℕ) → b < 256 → up k b + 2 ^ k ≤ 2 ^ (k + 8)
up-fits zero b h = omega arith
up-fits (suc k) b h =
    let behind : suc k + 8 ≡ suc (k + 8) = omega arith in
    rw behind (omega (arith, up-fits k b h, pow-suc 2 k, pow-suc 2 (k + 8)))

up-sum : (k a b : ℕ) → up k (a + b) ≡ up k a + up k b
up-sum zero a b = refl
up-sum (suc k) a b = omega (arith, up-sum k a b)

up-byte : (k v : ℕ) → up k (v / 256) * 256 ≡ up k (v / 256 * 256)
up-byte zero v = refl
up-byte (suc k) v = omega (arith, up-byte k v)

-- Eight binary places more.
next_byte : (i : ℕ) → suc i * 8 ≡ suc (suc (suc (suc (suc (suc (suc (suc (i * 8))))))))
next_byte i = omega arith

pow-byte : (i : ℕ) → 2 ^ (suc i * 8) ≡ 256 * 2 ^ (i * 8)
pow-byte i =
    let k = i * 8 in
    rw (next_byte i) (
      omega (
        arith,
        pow-suc 2 k,
        pow-suc 2 (suc k),
        pow-suc 2 (suc (suc k)),
        pow-suc 2 (suc (suc (suc k))),
        pow-suc 2 (suc (suc (suc (suc k)))),
        pow-suc 2 (suc (suc (suc (suc (suc k))))),
        pow-suc 2 (suc (suc (suc (suc (suc (suc k)))))),
        pow-suc 2 (suc (suc (suc (suc (suc (suc (suc k))))))),
      ))

up-byte_more : (i v : ℕ) → up (suc i * 8) v ≡ up (i * 8) v * 256
up-byte_more i v = rw (next_byte i) (omega arith)

up-byte-lt : (i b : ℕ) → b < 256 → up (i * 8) b + 2 ^ (i * 8) ≤ 2 ^ (suc i * 8)
up-byte-lt i b small =
    let next : i * 8 + 8 ≡ suc i * 8 = omega arith in
    subst (λ k. up (i * 8) b + 2 ^ (i * 8) ≤ 2 ^ k) next (up-fits (i * 8) b small)

pub power_pos : (k : ℕ) → 1 ≤ 2 ^ k
power_pos zero = omega arith
power_pos (suc k) = omega (arith, power_pos k, pow-suc 2 k)

shl64-up : (i b : ℕ) → i < 8 → b < 256 → shl64 b (i * 8) ≡ up (i * 8) b
unfolding shl64
shl64-up i b h small =
    let place : i * 8 % 64 ≡ i * 8 = omega arith in
    let inside : i * 8 + 8 ≤ 64 = omega arith in
    let fits : 2 ^ (i * 8 + 8) ≤ 2 ^ 64 = pow-le-pow_right (omega arith) inside in
    rw (place, sym (up-power (i * 8) b))
      (omega (arith, fits, up-fits (i * 8) b small, power_pos (i * 8)))

up-split : (k v : ℕ) → up k (v % 256) + up k (v / 256) * 256 ≡ up k v
up-split k v =
    let whole : v % 256 + v / 256 * 256 ≡ v = omega arith in
    omega (arith, up-byte k v, sym (up-sum k (v % 256) (v / 256 * 256)), ap (up k) whole)

-- A field of at most eight bytes is read as the number that was written.
pub or_bytes-field :
    (count i acc v : ℕ)
    → i + count ≤ 8
    → acc < 2 ^ (i * 8)
    → v < 2 ^ (count * 8)
    → or_bytes acc i (field count v) ≡ acc + up (i * 8) v
unfolding or_bytes
or_bytes-field zero i acc v room low fits =
    let none : v ≡ 0 = omega arith in rw none (omega (arith, up-power (i * 8) 0))
or_bytes-field (suc count) i acc v room low fits =
    let b = v % 256 in
    let small : b < 256 = omega arith in
    let acc' = acc + up (i * 8) b in
    ap (λ n. or_bytes n (suc i) (field count (v / 256)))
      (ap (bit_or acc) (shl64-up i b (omega arith) small) ∙ bit_or-up (i * 8) acc b low)
    ∙ or_bytes-field count (suc i) acc' (v / 256) (omega arith)
        (omega (arith, pow-byte i, up-byte-lt i b small)) (omega (arith, pow-byte count))
    ∙ omega (arith, up-byte_more i (v / 256), up-split (i * 8) v)

digit-low : (k a : ℕ) → a < 2 ^ k → digit k a ≡ 0
digit-low zero a h = omega arith
digit-low (suc k) a h = digit-low k (a / 2) (omega (arith, pow-suc 2 k))

digit-high : (k a : ℕ) → 2 ^ k ≤ a → a < 2 ^ suc k → digit k a ≡ 1
digit-high zero a h h' = omega arith
digit-high (suc k) a h h' =
    digit-high k (a / 2) (omega (arith, pow-suc 2 k))
      (omega (arith, pow-suc 2 k, pow-suc 2 (suc k)))

-- A number of `w` bytes whose highest digit is set stands for a negative one.
abbrev pub extended : ℕ → ℕ → ℕ
extended w raw = if ltb raw (2 ^ (w * 8 - 1)) then raw else raw + (2 ^ 64 - 2 ^ (w * 8))

extend-place :
    (k raw fill sign mask : ℕ)
    → raw < 2 ^ suc k
    → sign ≡ up k 1
    → mask ≡ up (suc k) fill
    → (if bit_and raw sign == 0 then raw else bit_or raw mask)
      ≡ (if ltb raw (2 ^ k) then raw else raw + mask)
extend-place k raw fill sign mask h same_sign same_mask =
    let and_sign : bit_and raw sign ≡ up k (digit k raw) =
      ap (bit_and raw) same_sign ∙ bit_and-up k raw in
    elim (Bool-cases (ltb raw (2 ^ k))) [
      | inl low ↦
          let below : raw < 2 ^ k = ground (arith, low) in
          let none : bit_and raw sign ≡ 0 =
            and_sign ∙ ap (up k) (digit-low k raw below) ∙ up-power k 0 ∙ omega arith in
          let t : (bit_and raw sign == 0) ≡ true = ground (arith, none) in rw (t, low) refl
      | inr high ↦
          let above : 2 ^ k ≤ raw = ground (arith, high) in
          let some_place : 1 ≤ 2 ^ k = power_pos k in
          let one : bit_and raw sign ≡ 1 * 2 ^ k =
            and_sign ∙ ap (up k) (digit-high k raw above h) ∙ up-power k 1 in
          let nonzero : 1 ≤ bit_and raw sign = omega (arith, one, some_place) in
          let t : (bit_and raw sign == 0) ≡ false = ground (arith, nonzero) in
          rw (t, high, same_mask) (bit_or-up (suc k) raw fill h)
    ]

pub sign_extend-extended :
    (w raw : ℕ) → 1 ≤ w → w ≤ 8 → raw < 2 ^ (w * 8) → sign_extend w raw ≡ extended w raw
unfolding sign_extend shl64
sign_extend-extended zero raw some few h = absurd (omega arith)
sign_extend-extended (suc zero) raw some few h = extend-place 7 raw (2 ^ 56 - 1) _ _ h refl refl
sign_extend-extended (suc (suc zero)) raw some few h =
    extend-place 15 raw (2 ^ 48 - 1) _ _ h refl refl
sign_extend-extended (suc (suc (suc zero))) raw some few h =
    extend-place 23 raw (2 ^ 40 - 1) _ _ h refl refl
sign_extend-extended (suc (suc (suc (suc zero)))) raw some few h =
    extend-place 31 raw (2 ^ 32 - 1) _ _ h refl refl
sign_extend-extended (suc (suc (suc (suc (suc zero))))) raw some few h =
    extend-place 39 raw (2 ^ 24 - 1) _ _ h refl refl
sign_extend-extended (suc (suc (suc (suc (suc (suc zero)))))) raw some few h =
    extend-place 47 raw (2 ^ 16 - 1) _ _ h refl refl
sign_extend-extended (suc (suc (suc (suc (suc (suc (suc zero))))))) raw some few h =
    extend-place 55 raw (2 ^ 8 - 1) _ _ h refl refl
sign_extend-extended (suc (suc (suc (suc (suc (suc (suc (suc zero)))))))) raw some few h =
    extend-place 63 raw 0 _ _ h refl refl
sign_extend-extended (suc (suc (suc (suc (suc (suc (suc (suc (suc w))))))))) raw some few h =
    absurd (omega arith)
