-- ===== src/Tests/Ids.antt =====
-- A text for each number, different for different numbers, in place of the hexadecimal text of an id,
-- and a text for each text, without a colon and different for different texts, in place of base64url.
use Prim.Native.Nat.{ℕ, zero, suc}
use Prim.Native.Char.{code}
use Prim.Native.String.{String, [], ◌∷◌}
use mathlib.Core.Bool.{Bool, false, true≢false}
use mathlib.Core.Path.{◌≡◌, refl, sym, ap}
use text.Mathlib.TextEquality.{Char-path}
use mathlib.Core.Option
use driveparts_websockets.Prelude.{eqb, Option, some}
use driveparts_websockets.Gateway.Rooms.{NoColon}

abbrev pub tallied : ℕ → String
tallied zero = []
tallied (suc n) = "1" ∷ tallied n

pub tallied_injective : (a b : ℕ) → tallied a ≡ tallied b → a ≡ b
tallied_injective zero zero h = refl
tallied_injective zero (suc b) h = absurd cc
tallied_injective (suc a) zero h = absurd cc
tallied_injective (suc a) (suc b) h =
    let rest : tallied a ≡ tallied b = cc in ap suc (tallied_injective a b rest)

-- The number of the text, whatever its characters are.
abbrev pub untallied : String → Option ℕ
untallied [] = some 0
untallied (c ∷ s) = Option.map suc (untallied s)

pub untallied-tallied : (n : ℕ) → untallied (tallied n) ≡ some n
untallied-tallied zero = refl
untallied-tallied (suc n) = ap (Option.map suc) (untallied-tallied n)

-- A text of ticks for each code point, ended by a full stop, in place of base64url.
abbrev ticks : ℕ → String → String
ticks zero rest = "." ∷ rest
ticks (suc n) rest = "1" ∷ ticks n rest

abbrev pub ticked : String → String
ticked [] = []
ticked (c ∷ s) = ticks (code c) (ticked s)

abbrev starts_with_dot : String → Bool
starts_with_dot [] = false
starts_with_dot (c ∷ s) = eqb (code c) 46

ticks-NoColon : (n : ℕ) (s : String) → NoColon s → NoColon (ticks n s)
ticks-NoColon zero s h = h
ticks-NoColon (suc n) s h = ticks-NoColon n s h

pub ticked-NoColon : (s : String) → NoColon (ticked s)
ticked-NoColon [] = refl
ticked-NoColon (c ∷ s) = ticks-NoColon (code c) (ticked s) (ticked-NoColon s)

ticks_injective : (n m : ℕ) (s t : String) → ticks n s ≡ ticks m t → (n ≡ m) × (s ≡ t)
ticks_injective zero zero s t e = (refl, cc)
ticks_injective zero (suc m) s t e = absurd (true≢false (ap starts_with_dot e))
ticks_injective (suc n) zero s t e = absurd (true≢false (sym (ap starts_with_dot e)))
ticks_injective (suc n) (suc m) s t e =
    let rest : ticks n s ≡ ticks m t = cc in
    let (same, equal) = ticks_injective n m s t rest in (ap suc same, equal)

nothing_ticked : (n : ℕ) (s : String) → [] ≡ ticks n s → ⊥
nothing_ticked zero s e = absurd cc
nothing_ticked (suc n) s e = absurd cc

pub ticked_injective : (s t : String) → ticked s ≡ ticked t → s ≡ t
ticked_injective [] [] e = refl
ticked_injective [] (c ∷ t) e = absurd (nothing_ticked (code c) (ticked t) e)
ticked_injective (c ∷ s) [] e = absurd (nothing_ticked (code c) (ticked s) (sym e))
ticked_injective (c ∷ s) (d ∷ t) e =
    let (same, rest) = ticks_injective (code c) (code d) (ticked s) (ticked t) e in
    let equal : s ≡ t = ticked_injective s t rest in
    let first_char : c ≡ d = Char-path c d same in cc
