-- ===== src/Fat/Geometry.antt =====
-- The geometry that src/formats/fat.rs derives from a boot sector: what every accepted one has.
use isomage.Prelude.{
  ℕ, ◌+◌, ◌-◌, ◌*◌, ◌/◌, ◌%◌, ◌^◌, ◌≤◌, ◌<◌, ◌≡◌, refl, true, ◌||◌, not, ◌==◌, List, arith,
  Bool-cases, inl, inr, Result, ok, err,
}
use native.Mathlib.Nat.{div-add-mod}
use isomage.Bytes.{byte}
use isomage.Fat.Bpb.{
  Error, Context, Fields, read_fields, is_plausible, is_sector_size, is_power_of_two, cluster_count,
  choose_fat_type, choose_root_cluster, geometry, parse_bpb, system_sectors,
}
use isomage.Fat.Chain.{cluster_abs}
use isomage.Fat.Walk.{IsData}

is_sector_size_bounds : (n : ℕ) → is_sector_size n ≡ true → (0 < n) × (n ≤ 4096)
unfolding is_sector_size
is_sector_size_bounds n h = ground arith

is_power_of_two_bounds : (n : ℕ) → is_power_of_two n ≡ true → (0 < n) × (n ≤ 128)
unfolding is_power_of_two
is_power_of_two_bounds n h = ground arith

plausible_fields :
    (f : Fields)
    → is_plausible f ≡ true
    → (0 < f.bytes_per_sector)
      × (0 < f.sectors_per_cluster)
      × (f.sectors_per_cluster ≤ 128)
      × (f.bytes_per_sector ≤ 4096)
unfolding is_plausible
plausible_fields f h =
    ground (
      arith,
      is_sector_size_bounds f.bytes_per_sector,
      is_power_of_two_bounds f.sectors_per_cluster,
    )

after_choice :
    (base : ℕ) (f : Fields) (res : Result Error ℕ) {ctx : Context}
    → (let x : Result Error Context = elim res [
      | err e ↦ err e
      | ok rc ↦ ok (geometry base f rc)
    ] in
        x)
      ≡ ok ctx
    → (root_cluster : ℕ) × (ctx ≡ geometry base f root_cluster)
after_choice base f (ok rc) e = (rc, cc)
after_choice base f (err x) e = cc

-- The accepted boot sectors, and what is made of them.
parse_bpb_inv :
    (base : ℕ) (sector : List ℕ) {ctx : Context}
    → parse_bpb base sector ≡ ok ctx
    → (root_cluster : ℕ) × (is_plausible (read_fields sector) ≡ true)
      × (ctx ≡ geometry base (read_fields sector) root_cluster)
unfolding parse_bpb
parse_bpb_inv base sector {ctx} e =
    let f = read_fields sector in
    elim (Bool-cases (not (byte sector 510 == 0x55) || not (byte sector 511 == 0xaa))) [
      | inl bad ↦ cc (rw bad at e)
      | inr signed ↦ elim (Bool-cases (is_plausible f)) [
        | inr bad ↦ cc (rw (signed, bad) at e)
        | inl good ↦
            let (rc, is) =
              after_choice base f
                (choose_root_cluster (choose_fat_type f (cluster_count f)) f.root_cluster_32)
                (rw (signed, good) at e) in
            (rc, good, is)
      ]
    ]

mul_mono : (x y m : ℕ) → x ≤ y → x * m ≤ y * m
mul_mono x y m h = grind arith

-- The clusters that fit, with `spc` sectors each, behind `used` of `total` sectors.
clusters_fit :
    (total used spc n : ℕ) → n ≡ (total - used) / spc % 2 ^ 32 → 1 ≤ n → used + n * spc ≤ total
clusters_fit total used spc n e h =
    let few : n ≤ (total - used) / spc = omega arith in
    let many = mul_mono n ((total - used) / spc) spc few in
    grind (arith, div-add-mod (total - used) spc)

geometry_inside :
    (base : ℕ) (f : Fields) (root_cluster c : ℕ)
    → is_plausible f ≡ true
    → IsData (geometry base f root_cluster) c
    → (0 < (geometry base f root_cluster).bytes_per_cluster)
      × (base ≤ cluster_abs (geometry base f root_cluster) c)
      × (cluster_abs (geometry base f root_cluster) c
            + (geometry base f root_cluster).bytes_per_cluster
          ≤ base + f.total_sectors * f.bytes_per_sector)
unfolding geometry cluster_abs
geometry_inside base f rc c h (lo, hi) =
    let (bps, spc, _, _) = plausible_fields f h in
    let fit =
      clusters_fit f.total_sectors (system_sectors f) f.sectors_per_cluster (cluster_count f)
        (unfold cluster_count in refl) (omega arith) in
    let here = mul_mono (c - 2 + 1) (cluster_count f) f.sectors_per_cluster (omega arith) in
    let bytes =
      mul_mono (system_sectors f + (c - 2 + 1) * f.sectors_per_cluster) f.total_sectors
        f.bytes_per_sector (omega arith) in
    (
      omega (arith, mul_mono 1 f.sectors_per_cluster f.bytes_per_sector spc),
      omega arith,
      omega arith,
    )

-- Every data cluster of a file system that `read_bpb` accepts has a size, and lies between the
-- start of the file system and the end that its sector count gives it.
pub cluster_abs_inside :
    (base : ℕ) (sector : List ℕ) (c : ℕ) {ctx : Context}
    → parse_bpb base sector ≡ ok ctx
    → IsData ctx c
    → (0 < ctx.bytes_per_cluster)
      × (base ≤ cluster_abs ctx c)
      × (cluster_abs ctx c + ctx.bytes_per_cluster
          ≤ base + (read_fields sector).total_sectors * (read_fields sector).bytes_per_sector)
cluster_abs_inside base sector c e d =
    let (rc, good, is) = parse_bpb_inv base sector e in
    rw is (geometry_inside base (read_fields sector) rc c good (rw is at d))
