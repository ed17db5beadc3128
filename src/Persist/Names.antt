-- ===== src/Persist/Names.antt =====
-- The names of segment files: the Sprintf of createSegment, and the tests of loadSegments.
-- A name is the list of its bytes.
pub mod Numbers
use ping_santo.Prelude.Decimals.{parse_int}
use ping_santo.Prelude.{
  ℕ, zero, suc, ◌+◌, ◌-◌, ◌*◌, ◌/◌, ◌%◌, ◌^◌, ◌==◌, ltb, leb, ◌&&◌, if◌then◌else◌, Bool, true,
  false, Option, none, some, List, [], ◌∷◌, ◌++◌, length, take, drop,
}

-- `segmentPrefix`, the bytes of "segment-"
abbrev pub segment_prefix : List ℕ
segment_prefix = 115 ∷ 101 ∷ 103 ∷ 109 ∷ 101 ∷ 110 ∷ 116 ∷ 45 ∷ []

-- `segmentSuffix`, the bytes of ".log"
abbrev pub segment_suffix : List ℕ
segment_suffix = 46 ∷ 108 ∷ 111 ∷ 103 ∷ []

-- The decimal digits of `n`, which has at most `suc fuel` of them.
unfoldable pub decimal : ℕ → ℕ → List ℕ
decimal zero n = (48 + n % 10) ∷ []
decimal (suc fuel) n =
    let rest = decimal fuel (n / 10) in
    if ltb n 10 then (48 + n) ∷ [] else rest ++ ((48 + n % 10) ∷ [])

abbrev pub zeros : ℕ → List ℕ
zeros zero = []
zeros (suc n) = 48 ∷ zeros n

-- The verb "%06d"
unfoldable pub six_digits : ℕ → List ℕ
unfolding decimal
six_digits n = zeros (6 - length (decimal n n)) ++ decimal n n

-- The base name of the path in `createSegment`
unfoldable pub segment_name : ℕ → List ℕ
unfolding six_digits
segment_name seq = segment_prefix ++ (six_digits seq ++ segment_suffix)

unfoldable pub same_bytes : List ℕ → List ℕ → Bool
same_bytes [] [] = true
same_bytes (x ∷ xs) (y ∷ ys) = (x == y) && same_bytes xs ys
same_bytes _ _ = false

-- `strings.TrimPrefix` behind `strings.HasPrefix`
unfoldable pub strip_prefix : List ℕ → List ℕ → Option (List ℕ)
unfolding same_bytes
strip_prefix p name =
    if leb (length p) (length name) && same_bytes (take (length p) name) p
    then some (drop (length p) name)
    else none

-- `strings.TrimSuffix` behind `strings.HasSuffix`
unfoldable pub strip_suffix : List ℕ → List ℕ → Option (List ℕ)
unfolding same_bytes
strip_suffix s name =
    let n = length name - length s in
    if leb (length s) (length name) && same_bytes (drop n name) s then some (take n name) else none

abbrev pub chain : {A B : Type 0} → Option A → (A → Option B) → Option B
chain none f = none
chain (some a) f = f a

-- The number of the segment that a name of the directory stands for: the tests of `loadSegments`
-- that `continue`. No end of "segment-" is a start of ".log", so the suffix is part of what
-- follows the prefix.
unfoldable pub segment_number : List ℕ → Option ℕ
unfolding strip_prefix strip_suffix parse_int
segment_number name =
    chain (strip_prefix segment_prefix name)
      (λ rest. chain (strip_suffix segment_suffix rest) parse_int)
