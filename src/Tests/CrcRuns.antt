-- ===== src/Tests/CrcRuns.antt =====
-- src/simd/crc.rs on its test vectors.
use isomage.Prelude.{◌≡◌, refl, [], arith}
use isomage.Text.{codes}
use isomage.Crc.{crc16_ccitt, crc16_bitwise, crc16_ccitt-crc16_bitwise}

check_vector : crc16_ccitt (codes "123456789") ≡ 0x31c3
unfolding crc16_ccitt
check_vector = refl

no_bytes : crc16_ccitt [] ≡ 0
unfolding crc16_ccitt
no_bytes = refl

crc16_ccitt-crc16_bitwise_example :
    crc16_ccitt (codes "123456789") ≡ crc16_bitwise (codes "123456789")
crc16_ccitt-crc16_bitwise_example = crc16_ccitt-crc16_bitwise (codes "123456789") (omega arith)
