-- ===== src/Reader/Keeps.antt =====
-- Computations that move the cursor and leave the image alone: all that the parsers are made of.
use isomage.Prelude.{
  ℕ, ◌^◌, ◌<◌, ◌≡◌, ◌∙◌, refl, ap, Bool, true, false, if◌then◌else◌, arith, Result, ok, err,
}
use isomage.Reader.{
  Reader, M, IoError, ◌>>=◌, map_error, lift, fail, stream_position, seek_start, seek_end, read,
  read_exact, read_at,
}

abbrev pub KeepsImage : {E A : Type 0} → M E A → Type 0
KeepsImage m = (r : Reader) → (m r).1.image ≡ r.image

module _ {E : Type 0} where
  pub fail-KeepsImage : (A : Type 0) (e : E) → KeepsImage (fail {E = E} {A = A} e)
  fail-KeepsImage A e r = refl

module _ {E A : Type 0} where
  pub lift-KeepsImage : (res : Result E A) → KeepsImage (lift res)
  lift-KeepsImage res r = refl

  pub if-KeepsImage :
      (b : Bool) (m k : M E A) → KeepsImage m → KeepsImage k → KeepsImage (if b then m else k)
  if-KeepsImage true m k h h' = h
  if-KeepsImage false m k h h' = h'

module _ {E A B : Type 0} where
  after_bind :
      (res : Result E A) (r₁ : Reader) (f : A → M E B) (image : _)
      → r₁.image ≡ image
      → ((a : A) → KeepsImage (f a))
      → (let x : Result E B × Reader = elim res [ ok a ↦ f a r₁ | err e ↦ (err e, r₁) ] in
          x.1.image)
        ≡ image
  after_bind (ok a) r₁ f image h k = k a r₁ ∙ h
  after_bind (err e) r₁ f image h k = h

  pub >>=-KeepsImage :
      (m : M E A) (f : A → M E B)
      → KeepsImage m
      → ((a : A) → KeepsImage (f a))
      → KeepsImage (m >>= f)
  >>=-KeepsImage m f h k r = after_bind (m r).0 (m r).1 f r.image (h r) k

module _ {E F A : Type 0} where
  after_map :
      (f : E → F) (res : Result E A) (r₁ : Reader)
      → (let x : Result F A × Reader = elim res [ ok a ↦ (ok a, r₁) | err e ↦ (err (f e), r₁) ] in
          x.1)
        ≡ r₁
  after_map f (ok a) r₁ = refl
  after_map f (err e) r₁ = refl

  pub map_error-KeepsImage : (f : E → F) (m : M E A) → KeepsImage m → KeepsImage (map_error f m)
  map_error-KeepsImage f m h r = ap (λ (x : Reader). x.image) (after_map f (m r).0 (m r).1) ∙ h r

pub seek_start-KeepsImage : (n : ℕ) → KeepsImage (seek_start n)
unfolding seek_start
seek_start-KeepsImage n r = ground arith

pub seek_end-KeepsImage : KeepsImage seek_end
unfolding seek_end
seek_end-KeepsImage r = refl

pub stream_position-KeepsImage : KeepsImage stream_position
unfolding stream_position
stream_position-KeepsImage r = refl

pub read_exact-KeepsImage : (n : ℕ) → KeepsImage (read_exact n)
unfolding read_exact
read_exact-KeepsImage n r = ground arith

pub read-KeepsImage : (n : ℕ) → KeepsImage (read n)
unfolding read
read-KeepsImage n r = refl

pub read_at-KeepsImage : (n k : ℕ) → KeepsImage (read_at n k)
unfolding read_at
read_at-KeepsImage n k r = ground arith

-- Seeking back to a position that a file can have restores the cursor.
pub seek_start_back :
    (r r₁ : Reader) → r.pos < 2 ^ 63 → r₁.image ≡ r.image → (seek_start r.pos r₁).1 ≡ r
unfolding seek_start
seek_start_back r r₁ h e = ground arith

-- A seek and a read with their errors mapped, and a check of the bytes.
module _ {E : Type 0} (f g : IoError → E) (offset n : ℕ) where
  pub seek_read-KeepsImage :
      KeepsImage (map_error f (seek_start offset) >>= λ _. map_error g (read_exact n))
  seek_read-KeepsImage =
      >>=-KeepsImage (map_error f (seek_start offset)) (λ _. map_error g (read_exact n))
        (map_error-KeepsImage f (seek_start offset) (seek_start-KeepsImage offset))
        (λ _. map_error-KeepsImage g (read_exact n) (read_exact-KeepsImage n))
