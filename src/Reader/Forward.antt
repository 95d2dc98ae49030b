-- ===== src/Reader/Forward.antt =====
-- Computations that leave the image alone and never move the cursor back.
use isomage.Prelude.{
  ℕ, ◌≤◌, ◌≡◌, ◌∙◌, refl, Bool, true, false, if◌then◌else◌, arith, Result, ok, err,
}
use isomage.Reader.{Reader, M, ◌>>=◌, map_error, pure, fail, seek_current, read_exact}

-- From the reader `r` to `r'`.
abbrev pub IsForward : Reader → Reader → Type 0
IsForward r r' = (r'.image ≡ r.image) × (r.pos ≤ r'.pos)

abbrev pub MovesForward : {E A : Type 0} → M E A → Type 0
MovesForward m = (r : Reader) → IsForward r (m r).1

module _ (E : Type 0) where
  pub fail-MovesForward : (A : Type 0) (e : E) → MovesForward (fail {E = E} {A = A} e)
  fail-MovesForward A e r = (refl, omega arith)

  pub pure-MovesForward : (A : Type 0) (a : A) → MovesForward (pure {E = E} a)
  pure-MovesForward A a r = (refl, omega arith)

module _ {E A : Type 0} where
  pub if-MovesForward :
      (b : Bool) (m k : M E A) → MovesForward m → MovesForward k → MovesForward (if b then m else k)
  if-MovesForward true m k h h' = h
  if-MovesForward false m k h h' = h'

module _ {E A B : Type 0} where
  after_bind :
      (res : Result E A) (r r₁ : Reader) (f : A → M E B)
      → IsForward r r₁
      → ((a : A) → MovesForward (f a))
      → IsForward r
          (let x : Result E B × Reader = elim res [ ok a ↦ f a r₁ | err e ↦ (err e, r₁) ] in x.1)
  after_bind (ok a) r r₁ f (same, on) k =
      let (same', on') = k a r₁ in (same' ∙ same, omega (arith, on, on'))
  after_bind (err e) r r₁ f h k = h

  pub >>=-MovesForward :
      (m : M E A) (f : A → M E B)
      → MovesForward m
      → ((a : A) → MovesForward (f a))
      → MovesForward (m >>= f)
  >>=-MovesForward m f h k r = after_bind (m r).0 r (m r).1 f (h r) k

module _ {E F A : Type 0} where
  after_map :
      (f : E → F) (res : Result E A) (r r₁ : Reader)
      → IsForward r r₁
      → IsForward r (
          let x : Result F A × Reader = elim res [ ok a ↦ (ok a, r₁) | err e ↦ (err (f e), r₁) ] in
          x.1)
  after_map f (ok a) r r₁ h = h
  after_map f (err e) r r₁ h = h

  pub map_error-MovesForward :
      (f : E → F) (m : M E A) → MovesForward m → MovesForward (map_error f m)
  map_error-MovesForward f m h r = after_map f (m r).0 r (m r).1 (h r)

pub seek_current-MovesForward : (n : ℕ) → MovesForward (seek_current n)
unfolding seek_current
seek_current-MovesForward n r = (refl, omega arith)

pub read_exact-MovesForward : (n : ℕ) → MovesForward (read_exact n)
unfolding read_exact
read_exact-MovesForward n r = ground arith
