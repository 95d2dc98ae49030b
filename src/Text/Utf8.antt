-- ===== src/Text/Utf8.antt =====
-- `String::from_utf8_lossy`, `str::from_utf8` and `String::from_utf16_lossy` of the standard
-- library. The UTF-8 decoder is one pass over the bytes; an ill-formed maximal prefix of a
-- sequence is one error, as the standard library reports it.
use isomage.Prelude.{
  ℕ, ◌+◌, ◌-◌, ◌*◌, ◌%◌, ◌<◌, ◌≡◌, refl, ◌&&◌, List, [], ◌∷◌, ◌++◌, map, Option, none, some, arith,
  ltb, leb, ◌==◌, if◌then◌else◌, All, ap,
}

-- Between sequences, or inside one: how many bytes are missing, the range of the next one, and
-- the bits collected.
pub data Utf8State : Type 0 where
  between : Utf8State
  inside : ℕ → ℕ → ℕ → ℕ → Utf8State

-- What a first byte gives: a character or an error (`none`), or nothing yet.
lead : ℕ → List (Option ℕ) × Utf8State
lead b =
    if ltb b 0x80
    then (some b ∷ [], between)
    else if ltb b 0xc2
    then (none ∷ [], between)
    else if ltb b 0xe0
    then ([], inside 1 0x80 0xbf (b - 0xc0))
    else if b == 0xe0
    then ([], inside 2 0xa0 0xbf 0)
    else if b == 0xed
    then ([], inside 2 0x80 0x9f 13)
    else if ltb b 0xf0
    then ([], inside 2 0x80 0xbf (b - 0xe0))
    else if b == 0xf0
    then ([], inside 3 0x90 0xbf 0)
    else if ltb b 0xf4
    then ([], inside 3 0x80 0xbf (b - 0xf0))
    else if b == 0xf4
    then ([], inside 3 0x80 0x8f 4)
    else (none ∷ [], between)

utf8_step : Utf8State → ℕ → List (Option ℕ) × Utf8State
unfolding lead
utf8_step between b = lead b
utf8_step (inside need lo hi acc) b =
    let acc' = acc * 64 + b % 64 in
    let (out, st) = lead b in
    if leb lo b && leb b hi
    then (if leb need 1 then (some acc' ∷ [], between) else ([], inside (need - 1) 0x80 0xbf acc'))
    else (none ∷ out, st)

utf8_run : Utf8State → List ℕ → List (Option ℕ)
unfolding utf8_step
utf8_run between [] = []
utf8_run (inside _ _ _ _) [] = none ∷ []
utf8_run st (b ∷ bs) = let (out, st') = utf8_step st b in out ++ utf8_run st' bs

or_replacement : Option ℕ → ℕ
or_replacement none = 0xfffd
or_replacement (some c) = c

unfoldable pub from_utf8_lossy : List ℕ → List ℕ
unfolding utf8_run or_replacement
from_utf8_lossy bytes = map or_replacement (utf8_run between bytes)

all_some : List (Option ℕ) → Option (List ℕ)
all_some [] = some []
all_some (none ∷ os) = none
all_some (some c ∷ os) = elim (all_some os) [ none ↦ none | some cs ↦ some (c ∷ cs) ]

unfoldable pub from_utf8 : List ℕ → Option (List ℕ)
unfolding utf8_run all_some
from_utf8 bytes = all_some (utf8_run between bytes)

-- A high surrogate waits for its low one; what is printed, and what waits, after one unit.
utf16_step : Option ℕ → ℕ → List ℕ × Option ℕ
utf16_step none u =
    if leb 0xd800 u && leb u 0xdbff
    then ([], some u)
    else if leb 0xdc00 u && leb u 0xdfff
    then (0xfffd ∷ [], none)
    else (u ∷ [], none)
utf16_step (some h) u =
    if leb 0xdc00 u && leb u 0xdfff
    then ((0x10000 + (h - 0xd800) * 1024 + (u - 0xdc00)) ∷ [], none)
    else if leb 0xd800 u && leb u 0xdbff
    then (0xfffd ∷ [], some u)
    else (0xfffd ∷ u ∷ [], none)

utf16_run : Option ℕ → List ℕ → List ℕ
unfolding utf16_step
utf16_run none [] = []
utf16_run (some h) [] = 0xfffd ∷ []
utf16_run st (u ∷ us) = let (out, st') = utf16_step st u in out ++ utf16_run st' us

unfoldable pub from_utf16_lossy : List ℕ → List ℕ
unfolding utf16_run
from_utf16_lossy units = utf16_run none units

abbrev pub IsAscii : ℕ → Type 0
IsAscii b = b < 0x80

-- ASCII bytes are their own characters.
utf8_run_ascii : (bs : List ℕ) → All IsAscii bs → utf8_run between bs ≡ map some bs
unfolding utf8_run
utf8_run_ascii [] h = refl
utf8_run_ascii (b ∷ bs) (h, hs) = ground (arith, utf8_run_ascii bs hs)

pub from_utf8_lossy_ascii : (bs : List ℕ) → All IsAscii bs → from_utf8_lossy bs ≡ bs
unfolding from_utf8_lossy
from_utf8_lossy_ascii bs h = rw (utf8_run_ascii bs h) (unwrapped bs)
  where
    unwrapped : (xs : List ℕ) → map or_replacement (map some xs) ≡ xs
    unwrapped [] = refl
    unwrapped (x ∷ xs) = ap (◌∷◌ x) (unwrapped xs)

pub from_utf8_ascii : (bs : List ℕ) → All IsAscii bs → from_utf8 bs ≡ some bs
unfolding from_utf8
from_utf8_ascii bs h = rw (utf8_run_ascii bs h) (all_of bs)
  where
    all_of : (xs : List ℕ) → all_some (map some xs) ≡ some xs
    all_of [] = refl
    all_of (x ∷ xs) = rw (all_of xs)
