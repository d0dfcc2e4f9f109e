-- ===== src/Prelude/Splits.antt =====
-- `split(',')`, `slice(n)` and the decimal text of a number.
use Prim.Native.Char.{Char, code}
use Prim.Native.Nat.{ℕ, zero, suc, ◌+◌, ◌/◌, ◌%◌}
use Prim.Native.String.{String, [], ◌∷◌, ◌++◌}
use mathlib.Core.List.{List}
use driveparts_websockets.Prelude.Tests.{eqb, ltb, if◌then◌else◌}

-- `s.slice(n)`
abbrev pub slice_from : ℕ → String → String
slice_from zero s = s
slice_from (suc n) [] = []
slice_from (suc n) (c ∷ s) = slice_from n s

abbrev add_first : Char → String × List String → String × List String
add_first c (part, parts) = if eqb (code c) 44 then ([], List.◌∷◌ part parts) else (c ∷ part, parts)

abbrev cut_first : String → String × List String
cut_first [] = ([], List.[])
cut_first (c ∷ s) = add_first c (cut_first s)

abbrev listed_parts : String × List String → List String
listed_parts (part, parts) = List.◌∷◌ part parts

-- `s.split(',')`
abbrev pub split_commas : String → List String
split_commas s = listed_parts (cut_first s)

abbrev digit : ℕ → String
digit n =
    if ltb n 5
    then (if eqb n 0
        then "0"
        else if eqb n 1
        then "1"
        else if eqb n 2
        then "2"
        else if eqb n 3
        then "3"
        else "4")
    else (if eqb n 5
        then "5"
        else if eqb n 6
        then "6"
        else if eqb n 7
        then "7"
        else if eqb n 8
        then "8"
        else "9")

-- A number below 10 ^ fuel has at most `fuel` digits.
abbrev digits : ℕ → ℕ → String
digits zero n = []
digits (suc fuel) n =
    let rest = digits fuel (n / 10) in if ltb n 10 then digit n else rest ++ digit (n % 10)

-- `String(n)`: a number n is below 10 ^ (n + 1).
abbrev pub decimal : ℕ → String
decimal n = digits (n + 1) n
