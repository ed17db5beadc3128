-- ===== src/Prelude/Decimals.antt =====
-- Go's strconv.ParseInt to the base 10, on the bytes of a text.
use Prim.Native.Nat.{ℕ, zero, ◌+◌, ◌-◌, ◌*◌, ◌^◌}
use mathlib.Core.Bool.{◌&&◌}
use mathlib.Core.Option.{Option, none, some}
use mathlib.Core.List.{List, [], ◌∷◌}
use ping_santo.Prelude.Tests.{ltb, leb, ◌==◌, if◌then◌else◌}

-- The digits in `strconv.ParseUint`, behind a number that is read
unfoldable pub parse_digits : ℕ → List ℕ → Option ℕ
parse_digits n [] = some n
parse_digits n (d ∷ ds) =
    let rest = parse_digits (n * 10 + (d - 48)) ds in if leb 48 d && leb d 57 then rest else none

-- The bound of an int64
unfoldable pub in_int64 : Option ℕ → Option ℕ
in_int64 none = none
in_int64 (some n) = if ltb n (2 ^ 63) then some n else none

-- A number behind a minus sign. Only 0 is kept: negative numbers are left out, here as there where
-- a text is no number.
unfoldable pub negated : Option ℕ → Option ℕ
negated (some zero) = some 0
negated _ = none

abbrev pub parse_unsigned : List ℕ → Option ℕ
parse_unsigned [] = none
parse_unsigned (d ∷ ds) = parse_digits 0 (d ∷ ds)

-- `strconv.ParseInt` to the base 10
unfoldable pub parse_int : List ℕ → Option ℕ
unfolding parse_digits in_int64 negated
parse_int [] = none
parse_int (c ∷ cs) =
    if c == 43
    then in_int64 (parse_unsigned cs)
    else if c == 45
    then negated (parse_unsigned cs)
    else in_int64 (parse_unsigned (c ∷ cs))
