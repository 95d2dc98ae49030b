-- ===== src/Ntfs/Runs.antt =====
-- src/formats/ntfs.rs, `decode_runlist`: the layout of runs on disk, and what is read.
pub mod Fields
use native.Mathlib.Nat.{mul_assoc, pow-suc, pow-le-pow_right}
use isomage.Prelude.{
  ℕ, zero, suc, ◌+◌, ◌-◌, ◌*◌, ◌/◌, ◌%◌, ◌^◌, ◌≤◌, ◌<◌, ◌≡◌, refl, sym, ap, subst, ◌∙◌, Bool, true,
  false, List, [], ◌∷◌, ◌++◌, All, Bool-cases, inl, inr, ltb, leb, ◌==◌, if◌then◌else◌, length,
  take, drop, arith, length-append, take-append, drop-append, bit_and, bit_or,
}
use isomage.Bits.Fields.{up, digit, bit_or-up, bit_and-up}
use mathlib.Core.List.{append_assoc}
use isomage.Bytes.{drop-drop}
use isomage.Word.{add64, u64_max}
use isomage.Ntfs.Attributes.{Run, shl64, or_bytes, sign_extend, push_run, run_loop, decode_runlist}
use isomage.Ntfs.Runs.Fields.{field, extended, power_pos, or_bytes-field, sign_extend-extended}

-- What a run of a list with fields of `w` bytes has for the cluster number `lcn` behind `prev`.
abbrev pub delta : ℕ → ℕ → ℕ → ℕ
delta w prev lcn = if leb prev lcn then lcn - prev else 2 ^ (w * 8) - (prev - lcn)

-- Fields that are wide enough.
abbrev pub IsRun : ℕ → ℕ → Run → Type 0
IsRun w prev run =
    (1 ≤ w)
    × (w ≤ 8)
    × (run.run_length < 2 ^ (w * 8))
    × (run.start_lcn < 2 ^ 64)
    × (run.start_lcn < prev + 2 ^ (w * 8 - 1))
    × (prev ≤ run.start_lcn + 2 ^ (w * 8 - 1))

abbrev pub run_bytes : ℕ → ℕ → Run → List ℕ
run_bytes w prev run = w * 17 ∷ field w run.run_length ++ field w (delta w prev run.start_lcn)

-- Runs with the width of their fields; a 0 ends the list, whatever follows.
abbrev pub runlist : ℕ → List (ℕ × Run) → List ℕ → List ℕ
runlist prev [] tail = 0 ∷ tail
runlist prev ((w, run) ∷ rs) tail = run_bytes w prev run ++ runlist run.start_lcn rs tail

abbrev pub AreRuns : ℕ → List (ℕ × Run) → Type 0
AreRuns prev [] = Unit
AreRuns prev ((w, run) ∷ rs) = IsRun w prev run × AreRuns run.start_lcn rs

abbrev pub runs_of : List (ℕ × Run) → List Run
runs_of [] = []
runs_of ((w, run) ∷ rs) = run ∷ runs_of rs

length-field : (count v : ℕ) → length (field count v) ≡ count
length-field zero v = refl
length-field (suc count) v = ap suc (length-field count (v / 256))

module _ (w prev lcn : ℕ) (some : 1 ≤ w) (few : w ≤ 8) (fits : lcn < 2 ^ 64)
    (forward : lcn < prev + 2 ^ (w * 8 - 1)) (back : prev ≤ lcn + 2 ^ (w * 8 - 1)) where
  halves : 2 ^ (w * 8) ≡ 2 ^ (w * 8 - 1) * 2
  halves =
      let last : suc (w * 8 - 1) ≡ w * 8 = omega arith in
      subst (λ k. 2 ^ k ≡ 2 ^ (w * 8 - 1) * 2) last (pow-suc 2 (w * 8 - 1))

  in_word : 2 ^ (w * 8) ≤ 2 ^ 64
  in_word = let inside : w * 8 ≤ 64 = omega arith in pow-le-pow_right (omega arith) inside

  delta-lt : delta w prev lcn < 2 ^ (w * 8)
  delta-lt = ground (arith, halves, in_word, power_pos (w * 8))

  add64-extended : add64 prev (extended w (delta w prev lcn)) ≡ lcn
  add64-extended = ground (arith, halves, in_word)

take-field : (w v : ℕ) (rest : List ℕ) → take w (field w v ++ rest) ≡ field w v
take-field w v rest =
    subst (λ n. take n (field w v ++ rest) ≡ field w v) (length-field w v)
      (take-append (field w v) rest)

drop-field : (w v : ℕ) (rest : List ℕ) → drop w (field w v ++ rest) ≡ rest
drop-field w v rest =
    subst (λ n. drop n (field w v ++ rest) ≡ rest) (length-field w v) (drop-append (field w v) rest)

-- The two fields of a run and what is behind them.
module _ (w v d : ℕ) (rest : List ℕ) where
  abbrev fields : List ℕ
  fields = field w v ++ (field w d ++ rest)

  length-fields : length fields ≡ w + (w + length rest)
  length-fields =
      length-append (field w v) (field w d ++ rest)
      ∙ omega (arith, length-append (field w d) rest, length-field w d, length-field w v)

  behind_fields : drop (w + w) fields ≡ rest
  behind_fields =
      sym (drop-drop fields w w)
      ∙ ap (drop w) (drop-field w v (field w d ++ rest))
      ∙ drop-field w d rest

-- One run and what is behind it.
run_loop-run_bytes :
    (fuel w prev : ℕ) (run : Run) (rest : List ℕ) (runs : List Run)
    → IsRun w prev run
    → run_loop fuel run.start_lcn rest ≡ (runs, false)
    → run_loop (suc fuel) prev (run_bytes w prev run ++ rest) ≡ (run ∷ runs, false)
unfolding run_loop push_run
run_loop-run_bytes fuel w prev run rest runs (some, few, long, fits, forward, back) h =
    let d = delta w prev run.start_lcn in
    let joined : field w run.run_length ++ field w d ++ rest
        ≡ field w run.run_length ++ (field w d ++ rest) =
      append_assoc (field w run.run_length) (field w d) rest in
    let high : w * 17 / 16 ≡ w = omega arith in
    let low : w * 17 % 16 ≡ w = omega arith in
    let t₁ : (w * 17 == 0) ≡ false = ground arith in
    let size = length-fields w run.run_length d rest in
    let t₂ : ltb (length (fields w run.run_length d rest)) (w + w) ≡ false = ground (arith, size) in
    let t₃ : (w == 0) ≡ false = ground arith in
    let read : (v : ℕ) → v < 2 ^ (w * 8) → or_bytes 0 0 (field w v) ≡ v =
      λ v less. or_bytes-field w 0 0 v (omega arith) (omega arith) less ∙ omega arith in
    let below : d < 2 ^ (w * 8) = delta-lt w prev run.start_lcn some few fits forward back in
    let there : add64 prev (sign_extend w d) ≡ run.start_lcn =
      ap (add64 prev) (sign_extend-extended w d some few below)
      ∙ add64-extended w prev run.start_lcn some few fits forward back in
    rw
      (
        joined,
        high,
        low,
        t₁,
        t₂,
        t₃,
        take-field w run.run_length (field w d ++ rest),
        drop-field w run.run_length (field w d ++ rest),
        take-field w d rest,
        behind_fields w run.run_length d rest,
        read run.run_length long,
        read d below,
        there,
        h,
      )
      refl

run_loop-runlist :
    (fuel prev : ℕ) (rs : List (ℕ × Run)) (tail : List ℕ)
    → length rs < fuel
    → AreRuns prev rs
    → run_loop fuel prev (runlist prev rs tail) ≡ (runs_of rs, false)
unfolding run_loop
run_loop-runlist zero prev rs tail enough all = absurd (omega arith)
run_loop-runlist (suc fuel) prev [] tail enough all = refl
run_loop-runlist (suc fuel) prev ((w, run) ∷ rs) tail enough (is, all) =
    run_loop-run_bytes fuel w prev run (runlist run.start_lcn rs tail) (runs_of rs) is
      (run_loop-runlist fuel run.start_lcn rs tail (omega arith) all)

length-runlist :
    (prev : ℕ) (rs : List (ℕ × Run)) (tail : List ℕ) → length rs < length (runlist prev rs tail)
length-runlist prev [] tail = omega arith
length-runlist prev ((w, run) ∷ rs) tail = omega (
  arith,
  length-runlist run.start_lcn rs tail,
  length-append (run_bytes w prev run) (runlist run.start_lcn rs tail),
)

-- A list of runs, each with a length and a signed distance from the run before in fields of the same
-- width of one to eight bytes, which they fit, is read back as these runs, without sparse ones,
-- whatever follows the 0 that ends the list.
pub decode_runlist-runlist :
    (rs : List (ℕ × Run)) (tail : List ℕ)
    → AreRuns 0 rs
    → decode_runlist (runlist 0 rs tail) ≡ (runs_of rs, false)
unfolding decode_runlist
decode_runlist-runlist rs tail all =
    run_loop-runlist (length (runlist 0 rs tail)) 0 rs tail (length-runlist 0 rs tail) all
