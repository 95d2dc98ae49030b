-- ===== src/Iso9660/Scan.antt =====
-- src/iso9660.rs: the loop over the volume descriptors.
use isomage.Prelude.{
  ℕ, zero, suc, ◌+◌, ◌*◌, ◌/◌, ◌^◌, ◌≤◌, ◌<◌, ◌≡◌, ◌≢◌, refl, ap, List, length, ltb, leb, arith,
  Bool-cases, inl, inr, leb→le, Result, ok, err,
}
use isomage.Reader.{Reader, seek_start, read_exact}
use isomage.Iso9660.Record.{Error, no_fuel}
use isomage.Iso9660.Directory.{sector_size}
use isomage.Iso9660.{
  primary_volume_descriptor_sector, Found, Step, stop, again, vd_step, after_read, after_seek,
  vd_turn, after_turn, vd_loop, scan_descriptors,
}

vd_step-no_fuel : (sector : ℕ) (f : Found) (buffer : List ℕ) → vd_step sector f buffer ≢ err no_fuel
unfolding vd_step
vd_step-no_fuel sector f buffer = ground arith

-- The outcome of a read of the sector at the cursor.
after_read_outcome :
    (sector : ℕ) (f : Found) (r : Reader)
    → ((after_read sector f (read_exact sector_size r)).1.image ≡ r.image)
      × ((after_read sector f (read_exact sector_size r)).0 ≢ err no_fuel)
      × ((f' : Found)
          → (after_read sector f (read_exact sector_size r)).0 ≡ ok (again f')
          → r.pos + sector_size ≤ length r.image)
unfolding after_read read_exact
after_read_outcome sector f r = elim (Bool-cases (leb (r.pos + sector_size) (length r.image))) [
  | inl inside ↦ rw inside (refl, vd_step-no_fuel sector f _, λ f' e. leb→le _ _ inside)
  | inr outside ↦ rw outside (refl, (λ e. cc), (λ f' e. cc))
]

-- A turn that goes on has read its sector, and leaves the image alone; none runs out of fuel.
pub vd_turn_outcome :
    (sector : ℕ) (f : Found) (r : Reader)
    → ((vd_turn sector f r).1.image ≡ r.image)
      × ((vd_turn sector f r).0 ≢ err no_fuel)
      × ((f' : Found)
          → (vd_turn sector f r).0 ≡ ok (again f')
          → sector * sector_size + sector_size ≤ length r.image)
unfolding vd_turn after_seek seek_start
vd_turn_outcome sector f r = elim (Bool-cases (ltb (sector * sector_size) (2 ^ 63))) [
  | inl near ↦ rw near (after_read_outcome sector f (record r { pos = sector * sector_size }))
  | inr far ↦ rw far (refl, (λ e. cc), (λ f' e. cc))
]

after_turn-fuel :
    (next : Found → Reader → Result Error Found × Reader) (f : Found)
    (x : Result Error Step × Reader)
    → x.0 ≢ err no_fuel
    → ((f' : Found) → x.0 ≡ ok (again f') → (next f' x.1).0 ≢ err no_fuel)
    → (after_turn next f x).0 ≢ err no_fuel
unfolding after_turn
after_turn-fuel next f (err e, r) h k eq =
    h (ap (λ (y : Result Error Found). elim y [ ok a ↦ ok stop | err e' ↦ err e' ]) eq)
after_turn-fuel next f (ok stop, r) h k eq = cc
after_turn-fuel next f (ok (again f'), r) h k eq = k f' refl eq

vd_loop_fuel :
    (fuel sector : ℕ) (f : Found) (r : Reader)
    → length r.image < (fuel + sector) * sector_size
    → 1 ≤ fuel
    → (vd_loop fuel sector f r).0 ≢ err no_fuel
unfolding vd_loop
vd_loop_fuel zero sector f r h pos = absurd (omega arith)
vd_loop_fuel (suc fuel) sector f r h pos =
    let (same, covered, inside) = vd_turn_outcome sector f r in
    after_turn-fuel (vd_loop fuel (suc sector)) f (vd_turn sector f r) covered (λ f' e.
      vd_loop_fuel fuel (suc sector) f' (vd_turn sector f r).1 (omega (arith, h, ap length same))
        (omega (arith, h, inside f' e)))

-- The scan of the volume descriptors ends on every image, within its fuel of one turn for each
-- sector of the image and one more.
pub scan_descriptors_fuel : (r : Reader) → (scan_descriptors r).0 ≢ err no_fuel
unfolding scan_descriptors
scan_descriptors_fuel r =
    vd_loop_fuel (length r.image / sector_size + 1) primary_volume_descriptor_sector _ r
      (omega arith) (omega arith)
