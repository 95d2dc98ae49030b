-- ===== src/Extract/Asks.antt =====
-- src/lib.rs: computations of the extraction that ask the file system only for operations with a
-- property.
use isomage.Prelude.{
  ℕ, zero, suc, ◌-◌, ◌≡◌, inl, inr, refl, Bool, List, [], ◌∷◌, ◌==◌, min, All, All-append, arith,
  Bool-cases, Result, ok, err,
}
use isomage.Reader.{seek_start, read_exact}
use isomage.Cat.{chunk_size}
use isomage.Extract.{
  FilePath, Op, write_all, Error, State, X, ◌>>=◌, ◌>>◌, done, fail, lift, seek, read, perform,
  copy_loop,
}

-- The computations that ask only for operations with the property.
module _ (P : Op → Type 0) where
  abbrev pub Asks : {A : Type 0} → X A → Type 0
  Asks m = (s : State) → All P s.log → All P (m s).1.log

  module _ {A B : Type 0} where
    after_bind :
        (res : Result Error A) (s : State) (f : A → X B)
        → All P s.log
        → ((a : A) → res ≡ ok a → Asks (f a))
        → All P (
            let x : Result Error B × State = elim res [ ok a ↦ f a s | err e ↦ (err e, s) ] in
            x.1.log)
    after_bind (ok a) s f h k = k a refl s h
    after_bind (err e) s f h k = h

    pub bind-Asks : (m : X A) (f : A → X B) → Asks m → ((a : A) → Asks (f a)) → Asks (m >>= f)
    bind-Asks m f h k s all = after_bind (m s).0 (m s).1 f (h s all) (λ a e. k a)

  pub done-Asks : Asks done
  done-Asks s all = all

  pub fail-Asks : (A : Type 0) (e : Error) → Asks (fail {A = A} e)
  fail-Asks A e s all = all

  pub lift-bind_Asks :
      {A B : Type 0} (res : Result Error A) (f : A → X B)
      → ((a : A) → res ≡ ok a → Asks (f a))
      → Asks (lift res >>= f)
  lift-bind_Asks (ok a) f h s all = h a refl s all
  lift-bind_Asks (err e) f h s all = all

  pub seek-Asks : (n : ℕ) → Asks (seek n)
  unfolding seek_start
  seek-Asks n s all = ground arith

  read-Asks : (n : ℕ) → Asks (read n)
  unfolding read_exact
  read-Asks n s all = ground arith

  module _ (refuses : List Op → Op → Bool) where
    pub perform-Asks : (op : Op) → P op → Asks (perform refuses op)
    unfolding perform
    perform-Asks op h s all = elim (Bool-cases (refuses s.log op)) [
      | inl denied ↦ rw denied (All-append P s.log (op ∷ []) all (h, tt))
      | inr granted ↦ rw granted (All-append P s.log (op ∷ []) all (h, tt))
    ]

    pub perform-then_Asks :
        {B : Type 0} (op : Op) (k : X B) → P op → Asks k → Asks (perform refuses op >> k)
    perform-then_Asks op k h hk =
        bind-Asks (perform refuses op) (λ _. k) (perform-Asks op h) (λ _. hk)

    pub copy_loop-Asks :
        (fuel : ℕ) (target : FilePath) (remaining : ℕ)
        → ((bytes : List ℕ) → P (write_all target bytes))
        → Asks (copy_loop refuses fuel target remaining)
    unfolding copy_loop
    copy_loop-Asks zero target remaining h s all = all
    copy_loop-Asks (suc fuel) target remaining h s all = elim (Bool-cases (remaining == 0)) [
      | inl empty ↦ rw empty all
      | inr more ↦
          let n = min remaining chunk_size in
          rw more (
            bind-Asks (read n)
              (λ buf.
                perform refuses (write_all target buf)
                >> copy_loop refuses fuel target (remaining - n))
              (read-Asks n)
              (λ buf.
                perform-then_Asks (write_all target buf)
                  (copy_loop refuses fuel target (remaining - n)) (h buf)
                  (copy_loop-Asks fuel target (remaining - n) h))
              s all)
    ]
