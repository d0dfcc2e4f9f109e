-- ===== src/Prelude/Texts.antt =====
-- The string operations of the language: `trim`, `slice(0, n)`, `startsWith`, `length`. A text is
-- its sequence of code points; for text of the basic plane those are JavaScript's code units.
use Prim.Native.Char.{Char, code}
use Prim.Native.Nat.{ℕ, zero, suc, ◌≤◌}
use Prim.Native.String.{String, [], ◌∷◌, ◌++◌}
use mathlib.Core.Bool.{true≢false, Bool, true, false, not, ◌&&◌, ◌||◌}
use mathlib.Core.Path.{◌≡◌, refl, sym, ap, ◌∙◌}
use mathlib.Core.Logic.{◌≢◌}
use native.Mathlib.Omega.{arith}
use text.Mathlib.TextLemmas.{nil-append, cons-append}
use driveparts_websockets.Prelude.Tests.{leb, ltb, eqb, eqb_iff, and-left, if◌then◌else◌}

-- The white space and line terminators of ECMAScript.
abbrev is_space : ℕ → Bool
is_space c =
    (leb 9 c && leb c 13)
    || eqb c 32
    || eqb c 160
    || eqb c 5760
    || (leb 8192 c && leb c 8202)
    || eqb c 8232
    || eqb c 8233
    || eqb c 8239
    || eqb c 8287
    || eqb c 12288
    || eqb c 65279

pub trim_start : String → String
trim_start [] = []
trim_start (c ∷ s) = let rest = trim_start s in if is_space (code c) then rest else c ∷ s

abbrev end_cons : Char → String → String
end_cons c [] = if is_space (code c) then [] else c ∷ []
end_cons c (d ∷ s) = c ∷ d ∷ s

pub trim_end : String → String
trim_end [] = []
trim_end (c ∷ s) = end_cons c (trim_end s)

unfoldable pub trim : String → String
unfolding trim_start trim_end
trim s = trim_end (trim_start s)

-- `s.length`
abbrev pub text_length : String → ℕ
text_length [] = 0
text_length (c ∷ s) = suc (text_length s)

-- `s.slice(0, n)`
abbrev pub slice_to : ℕ → String → String
slice_to zero s = []
slice_to (suc n) [] = []
slice_to (suc n) (c ∷ s) = c ∷ slice_to n s

pub text_length-slice_to : (n : ℕ) (s : String) → text_length (slice_to n s) ≤ n
text_length-slice_to zero s = omega arith
text_length-slice_to (suc n) [] = omega arith
text_length-slice_to (suc n) (c ∷ s) = omega (arith, text_length-slice_to n s)

-- The order of texts by their code points, in which `sort()` puts them.
abbrev pub text_leb : String → String → Bool
text_leb [] t = true
text_leb (c ∷ s) [] = false
text_leb (c ∷ s) (d ∷ t) = ltb (code c) (code d) || (eqb (code c) (code d) && text_leb s t)

-- No code point of the text is n.
abbrev pub avoids : ℕ → String → Bool
avoids n [] = true
avoids n (c ∷ s) = not (eqb (code c) n) && avoids n s

abbrev colon : Char
colon = ":"

colon-append : (s : String) → ":" ++ s ≡ colon ∷ s
colon-append s = cons-append colon [] s ∙ ap (colon ∷◌) (nil-append s)

avoids-colon : (d : Char) (b : String) → avoids 58 (d ∷ b) ≡ true → colon ≢ d
avoids-colon d b h e =
    let first_char : eqb (code d) 58 ≡ true = (eqb_iff (code d) 58).1 (sym (ap code e)) in
    let other : not (eqb (code d) 58) ≡ true = and-left (not (eqb (code d) 58)) (avoids 58 b) h in
    absurd (true≢false (sym other ∙ ap not first_char))

at_colon_injective :
    (a b s t : String)
    → avoids 58 a ≡ true
    → avoids 58 b ≡ true
    → a ++ (colon ∷ s) ≡ b ++ (colon ∷ t)
    → (a ≡ b) × (s ≡ t)
at_colon_injective [] [] s t h k = simp (nil-append) λ e. (refl, cc)
at_colon_injective [] (d ∷ b) s t h k =
    rw (nil-append, cons-append) λ e. absurd (avoids-colon d b k cc)
at_colon_injective (c ∷ a) [] s t h k =
    rw (nil-append, cons-append) λ e. absurd (avoids-colon c a h cc)
at_colon_injective (c ∷ a) (d ∷ b) s t h k =
    rw (cons-append, cons-append) λ e. ground (arith, at_colon_injective a b s t)

at_colon_missing : (a b s : String) → avoids 58 b ≡ true → a ++ (colon ∷ s) ≢ b
at_colon_missing [] [] s h = rw nil-append λ e. cc
at_colon_missing [] (d ∷ b) s h = rw nil-append λ e. avoids-colon d b h cc
at_colon_missing (c ∷ a) [] s h = rw cons-append λ e. cc
at_colon_missing (c ∷ a) (d ∷ b) s h = rw cons-append λ e. ground (arith, at_colon_missing a b s)

-- What stands before the first colon and what stands after it.
pub colon_injective :
    (a b s t : String)
    → avoids 58 a ≡ true
    → avoids 58 b ≡ true
    → a ++ (":" ++ s) ≡ b ++ (":" ++ t)
    → (a ≡ b) × (s ≡ t)
colon_injective a b s t h k = rw (colon-append s, colon-append t) (at_colon_injective a b s t h k)

pub colon_missing : (a b s : String) → avoids 58 b ≡ true → a ++ (":" ++ s) ≢ b
colon_missing a b s h = rw (colon-append s) (at_colon_missing a b s h)
