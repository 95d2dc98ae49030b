-- ===== src/Apfs/Superblock.antt =====
-- src/formats/apfs.rs, `read_nx_superblock`: what an accepted superblock holds.
use isomage.Prelude.{
  subst, ℕ, zero, suc, ◌≤◌, ◌≡◌, ◌≢◌, ◌-◌, refl, List, [], ◌∷◌, Result, ok, err, length, ◌==◌,
  if◌then◌else◌, arith, All, bit_and,
}
use isomage.Bytes.{le32, le64}
use isomage.Reader.{
  Reader, M, ◌>>=◌, lift, pure, map_error, seek_start, IoError, unexpected_eof, invalid_input,
  read_exact,
}
use isomage.Apfs.{
  Error, read_field, check_magic, NxSuperblock, oid_loop, after_oid, check_block_size,
  is_block_size, read_nx_superblock,
}

-- At most `n` identifiers, none of them zero.
AreVolumes : ℕ → List ℕ → Type 0
AreVolumes n oids = (length oids ≤ n) × All (λ oid. oid ≢ 0) oids

with_oid :
    (n oid : ℕ) (r r' : Reader) (rest : Result Error (List ℕ))
    (rest_lem : (oids : List ℕ) → rest ≡ ok oids → AreVolumes n oids) (oids : List ℕ)
    → (let y : Result Error (List ℕ) × Reader =
          if oid == 0
          then (ok [], r)
          else (elim rest [ ok oids' ↦ ok (oid ∷ oids') | err e ↦ err e ], r') in
        y.0)
      ≡ ok oids
    → AreVolumes (suc n) oids
unfolding AreVolumes
with_oid n oid r r' (ok found) rest_lem oids h =
    let (few, all) = rest_lem found refl in ground arith
with_oid n oid r r' (err e) rest_lem oids h = ground arith

after_oid-AreVolumes :
    (n : ℕ) (next : Reader → Result Error (List ℕ) × Reader)
    (next_lem : (r : Reader) (oids : List ℕ) → (next r).0 ≡ ok oids → AreVolumes n oids)
    (x : Result IoError (List ℕ) × Reader) (oids : List ℕ)
    → (after_oid next x).0 ≡ ok oids
    → AreVolumes (suc n) oids
unfolding after_oid AreVolumes
after_oid-AreVolumes n next next_lem (err unexpected_eof, r) oids h = ground arith
after_oid-AreVolumes n next next_lem (err invalid_input, r) oids h = ground arith
after_oid-AreVolumes n next next_lem (ok buf8, r) oids h =
    with_oid n (le64 buf8 0) r (next r).1 (next r).0 (next_lem r) oids h

oid_loop-AreVolumes :
    (n : ℕ) (r : Reader) (oids : List ℕ) → (oid_loop n r).0 ≡ ok oids → AreVolumes n oids
unfolding oid_loop AreVolumes
oid_loop-AreVolumes zero r oids h = ground arith
oid_loop-AreVolumes (suc n) r oids h =
    after_oid-AreVolumes n (oid_loop n) (oid_loop-AreVolumes n) (read_exact 8 r) oids h

-- Every result that the computation gives has the property.
Gives : {A : Type 0} → (A → Type 0) → M Error A → Type 0
Gives {A = A} P m = (r : Reader) (a : A) → (m r).0 ≡ ok a → P a

of_outcome :
    {A B : Type 0} (P : A → Type 0) (Q : B → Type 0) (res : Result Error A) (r : Reader)
    (f : A → M Error B)
    → ((a : A) → res ≡ ok a → P a)
    → ((a : A) → P a → Gives Q (f a))
    → (b : B)
    → (let x : Result Error B × Reader = elim res [ ok a ↦ f a r | err e ↦ (err e, r) ] in x.0)
      ≡ ok b
    → Q b
unfolding Gives
of_outcome P Q (ok a) r f first next b h = next a (first a refl) r b h
of_outcome P Q (err e) r f first next b h = cc

>>=-Gives :
    {A B : Type 0} (P : A → Type 0) (Q : B → Type 0) (m : M Error A) (f : A → M Error B)
    → Gives P m
    → ((a : A) → P a → Gives Q (f a))
    → Gives Q (m >>= f)
unfolding Gives
>>=-Gives P Q m f first next r b h = of_outcome P Q (m r).0 (m r).1 f (first r) next b h

anything : {A : Type 0} (m : M Error A) → Gives (λ _. Unit {0}) m
unfolding Gives
anything m r a h = tt

-- A power of two from 4096 to 65536.
pub IsBlockSize : ℕ → Type 0
IsBlockSize n = (4096 ≤ n) × (n ≤ 65536) × (bit_and n (n - 1) ≡ 0)

check_block_size-Gives : (n : ℕ) → Gives IsBlockSize (lift (check_block_size n))
unfolding Gives IsBlockSize check_block_size is_block_size
check_block_size-Gives n r a h = ground arith

IsSuperblock : NxSuperblock → Type 0
IsSuperblock nx = IsBlockSize nx.block_size × AreVolumes 100 nx.fs_oids

pure-Gives : {A : Type 0} (P : A → Type 0) (a : A) → P a → Gives P (pure a)
unfolding Gives
pure-Gives P a p r b h = let same : a ≡ b = cc in subst P same p

loop-Gives : (n : ℕ) → Gives (AreVolumes n) (oid_loop n)
unfolding Gives
loop-Gives n = oid_loop-AreVolumes n

oids-Gives :
    (block_size : ℕ)
    → IsBlockSize block_size
    → Gives IsSuperblock
        (oid_loop 100 >>= λ fs_oids. pure (record { block_size = block_size; fs_oids = fs_oids }))
unfolding IsSuperblock
oids-Gives block_size is =
    >>=-Gives (AreVolumes 100) IsSuperblock (oid_loop 100) _ (loop-Gives 100) λ oids are.
      pure-Gives IsSuperblock (record { block_size = block_size; fs_oids = oids }) (is, are)

read_nx_superblock-Gives : Gives IsSuperblock read_nx_superblock
unfolding read_nx_superblock
read_nx_superblock-Gives =
    >>=-Gives (λ _. Unit) IsSuperblock (read_field 32 4) _ (anything _)
      λ magic _.
        >>=-Gives (λ _. Unit) IsSuperblock (lift (check_magic magic)) _ (anything _)
          λ _ _.
            >>=-Gives (λ _. Unit) IsSuperblock (read_field 36 4) _ (anything _)
              λ size _.
                >>=-Gives IsBlockSize IsSuperblock (lift (check_block_size (le32 size 0))) _
                  (check_block_size-Gives (le32 size 0))
                  λ block_size is.
                    >>=-Gives (λ _. Unit) IsSuperblock (map_error Error.io (seek_start 180)) _
                      (anything _) λ _ _. oids-Gives block_size is

-- A superblock that is accepted has a block size that is a power of two from 4096 to 65536, and
-- lists at most 100 volumes, none of them with the number 0.
pub read_nx_superblock-eq-ok :
    (r : Reader) (nx : NxSuperblock)
    → (read_nx_superblock r).0 ≡ ok nx
    → IsBlockSize nx.block_size × (length nx.fs_oids ≤ 100) × All (λ oid. oid ≢ 0) nx.fs_oids
unfolding Gives IsSuperblock AreVolumes
read_nx_superblock-eq-ok r nx h =
    let (size, (few, all)) = read_nx_superblock-Gives r nx h in (size, few, all)
