-- ===== src/Fat/Fat12.antt =====
-- src/formats/fat.rs: FAT12 packs two 12-bit entries into three bytes.
use isomage.Prelude.{ℕ, ◌+◌, ◌*◌, ◌/◌, ◌%◌, ◌^◌, ◌<◌, ◌≡◌, [], ◌∷◌, arith}
use isomage.Bytes.{le16}
use isomage.Fat.Bpb.{fat12}
use isomage.Fat.Chain.{entry_offset, decode_entry}

-- The three bytes of the entries `a` and `b`, as a formatter writes them.
abbrev pub first_byte : ℕ → ℕ
first_byte a = a % 256

abbrev pub shared_byte : ℕ → ℕ → ℕ
shared_byte a b = a / 256 + b % 16 * 16

abbrev pub last_byte : ℕ → ℕ
last_byte b = b / 16

-- Clusters 2k and 2k + 1 have their entries in the three bytes from 3k on: the first begins
-- there, the second one byte later, and each is decoded to what was written, for entries
-- below 2 ^ 12.
fat12_pair :
    (k a b : ℕ)
    → a < 2 ^ 12
    → b < 2 ^ 12
    → (entry_offset fat12 (2 * k) ≡ 3 * k)
      × (entry_offset fat12 (2 * k + 1) ≡ 3 * k + 1)
      × (decode_entry fat12 (2 * k) (first_byte a ∷ shared_byte a b ∷ []) ≡ a)
      × (decode_entry fat12 (2 * k + 1) (shared_byte a b ∷ last_byte b ∷ []) ≡ b)
unfolding entry_offset decode_entry le16
fat12_pair k a b ha hb = (omega arith, omega arith, ground arith, ground arith)
