-- ===== src/Reader/Laws.antt =====
-- Inversion of the reads and seeks that succeed.
use isomage.Prelude.{
  sym, ◌∙◌, ap, lt→ltb, le→leb, ℕ, ◌+◌, ◌^◌, ◌≤◌, ◌<◌, ◌≡◌, refl, List, arith, length, Result, ok,
  err,
}
use isomage.Bytes.{slice}
use isomage.Reader.{Reader, IoError, M, ◌>>=◌, map_error, seek_start, read_exact, read_at}

module _ {E A B : Type 0} where
  after_bind :
      (res : Result E A) (r₁ : Reader) (f : A → M E B) {b : B} {r' : Reader}
      → (let x : Result E B × Reader = elim res [ ok a ↦ f a r₁ | err e ↦ (err e, r₁) ] in x)
        ≡ (ok b, r')
      → (a : A) × (res ≡ ok a) × (f a r₁ ≡ (ok b, r'))
  after_bind (ok a) r₁ f h = (a, refl, h)
  after_bind (err e) r₁ f h = cc

  -- A successful bind is two successful steps.
  pub >>=-eq-ok :
      (m : M E A) (f : A → M E B) (r : Reader) {b : B} {r' : Reader}
      → (m >>= f) r ≡ (ok b, r')
      → (a : A) × ((m r).0 ≡ ok a) × (f a (m r).1 ≡ (ok b, r'))
  >>=-eq-ok m f r h = after_bind (m r).0 (m r).1 f h

  -- The first step of a bind with a result.
  pub first-eq-ok :
      (m : M E A) (f : A → M E B) (r : Reader) {b : B}
      → ((m >>= f) r).0 ≡ ok b
      → (a : A) × ((m r).0 ≡ ok a)
  first-eq-ok m f r {b} h =
      let full : (m >>= f) r ≡ (ok b, ((m >>= f) r).1) =
        ap (λ (x : Result E B). let y : Result E B × Reader = (x, ((m >>= f) r).1) in y) h in
      let (a, done, rest) = >>=-eq-ok m f r full in (a, done)

module _ {E F A : Type 0} where
  after_map :
      (f : E → F) (res : Result E A) (r₁ : Reader) {a : A}
      → (let x : Result F A × Reader = elim res [ ok a ↦ (ok a, r₁) | err e ↦ (err (f e), r₁) ] in
          x.0)
        ≡ ok a
      → (res ≡ ok a)
        × ((let x : Result F A × Reader = elim res [
          | ok a ↦ (ok a, r₁)
          | err e ↦ (err (f e), r₁)
        ] in
              x.1)
            ≡ r₁)
  after_map f (ok a) r₁ h = (cc, refl)
  after_map f (err e) r₁ h = cc

  pub map_error-eq-ok :
      (f : E → F) (m : M E A) (r : Reader) {a : A}
      → (map_error f m r).0 ≡ ok a
      → ((m r).0 ≡ ok a) × ((map_error f m r).1 ≡ (m r).1)
  map_error-eq-ok f m r h = after_map f (m r).0 (m r).1 h

pub seek_start-eq-ok :
    (n : ℕ) (r : Reader) {a : ℕ}
    → (seek_start n r).0 ≡ ok a
    → (n < 2 ^ 63) × ((seek_start n r).1 ≡ record r { pos = n })
unfolding seek_start
seek_start-eq-ok n r h = ground arith

-- What `read_exact` returns is the slice of the image at the cursor.
pub read_exact-eq-ok :
    (n : ℕ) (r : Reader) {bytes : List ℕ}
    → (read_exact n r).0 ≡ ok bytes
    → (r.pos + n ≤ length r.image)
      × (bytes ≡ slice r.image r.pos (r.pos + n))
      × ((read_exact n r).1 ≡ record r { pos = r.pos + n })
unfolding read_exact
read_exact-eq-ok n r h = ground arith

-- A successful `read_at` gives the bytes at the offset, which lie in the image.
pub read_at-eq-ok :
    (n k : ℕ) (r : Reader) {bytes : List ℕ}
    → (read_at n k r).0 ≡ ok bytes
    → (n + k ≤ length r.image)
      × (bytes ≡ slice r.image n (n + k))
      × ((read_at n k r).1 ≡ record r { pos = n + k })
unfolding read_at
read_at-eq-ok n k r h = ground arith

pub read_at-near :
    (n k : ℕ) (r : Reader) {bytes : List ℕ} → (read_at n k r).0 ≡ ok bytes → n < 2 ^ 63
unfolding read_at
read_at-near n k r h = ground arith

-- A bind after a known outcome.
module _ {E A B : Type 0} where
  pub bind_ok :
      (m : M E A) (f : A → M E B) (r : Reader) {a : A} {r' : Reader}
      → m r ≡ (ok a, r')
      → (m >>= f) r ≡ f a r'
  bind_ok m f r e =
      ap
        (λ (x : Result E A × Reader).
          let y : Result E B × Reader = elim x.0 [ ok a ↦ f a x.1 | err e' ↦ (err e', x.1) ] in y)
        e

  stopped :
      (res : Result E A) (r₁ : Reader) (f : A → M E B) {e : E}
      → res ≡ err e
      → (let x : Result E B × Reader = elim res [ ok a ↦ f a r₁ | err e' ↦ (err e', r₁) ] in x.0)
        ≡ err e
  stopped (ok a) r₁ f h = cc
  stopped (err e') r₁ f h = cc

  pub bind_err :
      (m : M E A) (f : A → M E B) (r : Reader) {e : E} → (m r).0 ≡ err e → ((m >>= f) r).0 ≡ err e
  bind_err m f r h = stopped (m r).0 (m r).1 f h

-- A read that lies in the image succeeds.
read_at_ok :
    (n k : ℕ) (r : Reader)
    → n < 2 ^ 63
    → n + k ≤ length r.image
    → read_at n k r ≡ (ok (slice r.image n (n + k)), record r { pos = n + k })
unfolding read_at read_exact
read_at_ok n k r near within = rw (lt→ltb _ _ near, le→leb _ _ within) refl

module _ {F : Type 0} where
  pub read_at_inside :
      (f : IoError → F) (n k : ℕ) (r : Reader)
      → n < 2 ^ 63
      → n + k ≤ length r.image
      → map_error f (read_at n k) r ≡ (ok (slice r.image n (n + k)), record r { pos = n + k })
  read_at_inside f n k r near within =
      ap
        (λ (x : Result IoError (List ℕ) × Reader).
          let y : Result F (List ℕ) × Reader = elim x.0 [
            | ok a ↦ (ok a, x.1)
            | err e ↦ (err (f e), x.1)
          ] in
          y)
        (read_at_ok n k r near within)

pub read_exact_inside :
    (n : ℕ) (r : Reader)
    → r.pos + n ≤ length r.image
    → read_exact n r ≡ (ok (slice r.image r.pos (r.pos + n)), record r { pos = r.pos + n })
unfolding read_exact
read_exact_inside n r within = rw (le→leb _ _ within) refl

pub seek_start_near :
    {F : Type 0} (f : IoError → F) (offset : ℕ) (r : Reader)
    → offset < 2 ^ 63
    → map_error f (seek_start offset) r ≡ (ok offset, record r { pos = offset })
unfolding seek_start
seek_start_near f offset r near =
    let taken : seek_start offset r ≡ (ok offset, record r { pos = offset }) =
      rw (lt→ltb _ _ near) refl in
    ap (λ x. map_error f (λ r'. x) r) taken

-- A seek, and a read that ends in the image, with their errors mapped.
module _ {F : Type 0} (f g : IoError → F) (offset n : ℕ) (r : Reader) where
  found_bytes :
      offset + n ≤ length r.image
      → map_error g (read_exact n) (record r { pos = offset })
        ≡ (ok (slice r.image offset (offset + n)), record r { pos = offset + n })
  found_bytes within =
      ap (λ x. map_error g (λ r'. x) (record r { pos = offset }))
        (read_exact_inside n (record r { pos = offset }) within)

  pub seek_read_inside :
      offset < 2 ^ 63
      → offset + n ≤ length r.image
      → (map_error f (seek_start offset) >>= λ _. map_error g (read_exact n)) r
        ≡ (ok (slice r.image offset (offset + n)), record r { pos = offset + n })
  seek_read_inside near within =
      bind_ok (map_error f (seek_start offset)) (λ _. map_error g (read_exact n)) r
        (seek_start_near f offset r near)
      ∙ found_bytes within

  pub seek_read-eq-ok :
      {bytes : List ℕ}
      → ((map_error f (seek_start offset) >>= λ _. map_error g (read_exact n)) r).0 ≡ ok bytes
      → (offset < 2 ^ 63) × (offset + n ≤ length r.image)
  seek_read-eq-ok h =
      let seek : M F ℕ = map_error f (seek_start offset) in
      let rest : ℕ → M F (List ℕ) = λ _. map_error g (read_exact n) in
      let (a, done) = first-eq-ok seek rest r h in
      let near = (seek_start-eq-ok offset r (map_error-eq-ok f (seek_start offset) r done).0).0 in
      let got =
        sym (
          ap (λ (x : Result F (List ℕ) × Reader). x.0)
            (bind_ok seek rest r (seek_start_near f offset r near)))
        ∙ h in
      (
        near,
        (read_exact-eq-ok n (record r { pos = offset })
            (map_error-eq-ok g (read_exact n) (record r { pos = offset }) got).0).0,
      )
