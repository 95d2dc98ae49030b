-- ===== src/Tests/Qcow2Runs.antt =====
-- src/formats/qcow2.rs on a version 3 header.
use isomage.Prelude.{ℕ, ◌≡◌, refl, List, [], ◌∷◌, ◌++◌, replicate, ok, err}
use isomage.Bytes.{be32, be64}
use isomage.Qcow2.{check_header, encrypted}

-- Clusters of 64 KiB and a disk of 4096 bytes; `e` is the encryption method.
abbrev header : ℕ → List ℕ
header e =
    (0x51 ∷ 0x46 ∷ 0x49 ∷ 0xfb ∷ 0 ∷ 0 ∷ 0 ∷ 3 ∷ [])
    ++ (replicate 12 0
        ++ ((0 ∷ 0 ∷ 0 ∷ 16 ∷ 0 ∷ 0 ∷ 0 ∷ 0 ∷ 0 ∷ 0 ∷ 16 ∷ 0 ∷ 0 ∷ 0 ∷ 0 ∷ e ∷ [])
            ++ replicate 36 0))

plain : check_header (header 0) ≡ ok 4096
unfolding check_header be64 be32
plain = refl

luks : check_header (header 2) ≡ err encrypted
unfolding check_header be64 be32
luks = refl
