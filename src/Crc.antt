-- ===== src/Crc.antt =====
-- src/simd/crc.rs: CRC-16-CCITT with a table of 256 entries, against the bitwise definition.
use isomage.Prelude.{
  ℕ, zero, suc, ◌+◌, ◌*◌, ◌/◌, ◌%◌, ◌^◌, ◌<◌, ◌≡◌, ◌∙◌, ap, refl, sym, ltb, ltb→lt, true, List, [],
  ◌∷◌, arith, bit_and, bit_xor, ◌==◌, ==_iff, if◌then◌else◌, get_or, All, all_below,
  all_below_sound,
}
use isomage.Bytes.{IsByte}
use isomage.Bits.{bit_xor_byte, bit_xor-lt, bit_xor_width}

-- The body of the inner loop: one bit is shifted out of the `u16`.
shift_bit : ℕ → ℕ
shift_bit c = if bit_and c 0x8000 == 0 then c * 2 % 2 ^ 16 else bit_xor (c * 2 % 2 ^ 16) 0x1021

shift_bits : ℕ → ℕ → ℕ
shift_bits zero c = c
shift_bits (suc j) c = shift_bits j (shift_bit c)

table_entry : ℕ → ℕ
unfolding shift_bits shift_bit
table_entry i = shift_bits 8 (i * 256 % 2 ^ 16)

table_from : ℕ → ℕ → List ℕ
table_from i zero = []
table_from i (suc n) = table_entry i ∷ table_from (suc i) n

-- `TABLE`.
table : List ℕ
unfolding table_from table_entry
table = table_from 0 256

-- One round of the loop over the bytes: `crc >> 8` is cast to `u8`, and `crc << 8` drops the top
-- byte.
crc_byte : ℕ → ℕ → ℕ
unfolding table
crc_byte crc b = bit_xor (crc * 256 % 2 ^ 16) (get_or table (bit_xor (crc / 256 % 256) b) 0)

crc_loop : ℕ → List ℕ → ℕ
unfolding crc_byte
crc_loop crc [] = crc
crc_loop crc (b ∷ bs) = crc_loop (crc_byte crc b) bs

unfoldable pub crc16_ccitt : List ℕ → ℕ
unfolding crc_loop
crc16_ccitt bytes = crc_loop 0 bytes

-- The bitwise definition: the byte is added to the top of the register, and eight bits are
-- shifted out.
bitwise_loop : ℕ → List ℕ → ℕ
bitwise_loop crc [] = crc
bitwise_loop crc (b ∷ bs) = bitwise_loop (shift_bits 8 (bit_xor crc (b * 256))) bs

unfoldable pub crc16_bitwise : List ℕ → ℕ
unfolding bitwise_loop shift_bits shift_bit
crc16_bitwise bytes = bitwise_loop 0 bytes

get_or-table_from : (i n k : ℕ) → k < n → get_or (table_from i n) k 0 ≡ table_entry (i + k)
unfolding table_from
get_or-table_from i zero k h = absurd (omega arith)
get_or-table_from i (suc n) zero h = let e : i + 0 ≡ i = omega arith in rw e
get_or-table_from i (suc n) (suc k) h =
    let e : i + suc k ≡ suc i + k = omega arith in
    rw e (get_or-table_from (suc i) n k (omega arith))

get_or-table : (k : ℕ) → k < 256 → get_or table k 0 ≡ table_entry k
get_or-table k h =
    unfold table in
    (get_or-table_from 0 256 k h ∙ (let e : 0 + k ≡ k = omega arith in ap table_entry e))

-- Shifting out eight bits, for every register: a table over its two bytes.
register_table :
    all_below 256 (λ hi.
      all_below 256 (λ lo. shift_bits 8 (hi * 256 + lo) == bit_xor (lo * 256) (table_entry hi)))
    ≡ true
unfolding all_below table_entry
register_table = refl

register_shift :
    (hi lo : ℕ)
    → hi < 256
    → lo < 256
    → shift_bits 8 (hi * 256 + lo) ≡ bit_xor (lo * 256) (table_entry hi)
register_shift hi lo h l =
    (==_iff _ _).0 (all_below_sound 256 _ lo (all_below_sound 256 _ hi register_table h) l)

entry_table : all_below 256 (λ i. ltb (table_entry i) (2 ^ 16)) ≡ true
unfolding all_below table_entry
entry_table = refl

table_entry-lt : (i : ℕ) → i < 256 → table_entry i < 2 ^ 16
table_entry-lt i h = ltb→lt _ _ (all_below_sound 256 _ i entry_table h)

-- One round of the loop on the bits and on the table.
crc_byte-shift_bits :
    (crc b : ℕ) → crc < 2 ^ 16 → b < 256 → crc_byte crc b ≡ shift_bits 8 (bit_xor crc (b * 256))
unfolding crc_byte
crc_byte-shift_bits crc b hc hb =
    let top : crc / 256 % 256 ≡ crc / 256 = omega arith in
    let shifted : crc * 256 % 2 ^ 16 ≡ crc % 256 * 256 = omega arith in
    let small = bit_xor-lt (crc / 256) b (omega arith) hb in
    rw (top, shifted, get_or-table _ small, bit_xor_byte crc b)
      (sym (register_shift (bit_xor (crc / 256) b) (crc % 256) small (omega arith)))

crc_byte-lt : (crc b : ℕ) → crc < 2 ^ 16 → b < 256 → crc_byte crc b < 2 ^ 16
unfolding crc_byte
crc_byte-lt crc b hc hb =
    let top : crc / 256 % 256 ≡ crc / 256 = omega arith in
    let small = bit_xor-lt (crc / 256) b (omega arith) hb in
    rw (top, get_or-table _ small) (bit_xor_width 16 _ _ (omega arith) (table_entry-lt _ small))

crc_loop-bitwise_loop :
    (crc : ℕ) (bs : List ℕ) → crc < 2 ^ 16 → All IsByte bs → crc_loop crc bs ≡ bitwise_loop crc bs
unfolding crc_loop bitwise_loop
crc_loop-bitwise_loop crc [] hc h = refl
crc_loop-bitwise_loop crc (b ∷ bs) hc (hb, h) =
    crc_loop-bitwise_loop (crc_byte crc b) bs (crc_byte-lt crc b hc hb) h
    ∙ ap (λ c. bitwise_loop c bs) (crc_byte-shift_bits crc b hc hb)

-- The table-driven checksum of any bytes is the bitwise CRC-16-CCITT.
pub crc16_ccitt-crc16_bitwise :
    (bytes : List ℕ) → All IsByte bytes → crc16_ccitt bytes ≡ crc16_bitwise bytes
unfolding crc16_ccitt crc16_bitwise
crc16_ccitt-crc16_bitwise bytes h = crc_loop-bitwise_loop 0 bytes (omega arith) h
