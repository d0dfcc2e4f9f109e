-- ===== src/Prelude/Growth.antt =====
-- Lists whose elements only move on: nothing is removed, and each element is later or as it was.
use mathlib.Core.Path.{◌≡◌, refl}
use mathlib.Core.Bool.{Bool, true}
use mathlib.Core.Option.{Option, none, some}
use mathlib.Core.List.{List, [], ◌∷◌, ◌++◌}
use Prim.Native.Nat.{ℕ, ◌+◌}
use native.Mathlib.Omega.{arith}
use driveparts_websockets.Prelude.Lists.{update_first, update_all}

-- A value that is there stays.
abbrev pub Stays : {A : Type 0} → Option A → Option A → Type 0
Stays none o = Unit
Stays (some a) o = o ≡ some a

module _ {A : Type 0} where
  pub Stays-refl : (a : Option A) → Stays a a
  Stays-refl none = tt
  Stays-refl (some a) = refl

  pub Stays-trans : (a b c : Option A) → Stays a b → Stays b c → Stays a c
  Stays-trans none b c h k = tt
  Stays-trans (some a) none c h k = absurd (ground arith)
  Stays-trans (some a) (some b) c h k = ground arith

-- Nothing comes before a number.
abbrev pub option_rank : Option ℕ → ℕ
option_rank none = 0
option_rank (some n) = n + 1

module _ {A : Type 0} (Later : A → A → Type 0) (Later-refl : (a : A) → Later a a) where
  -- Every element of the first list is in the second at its place, as it was or later.
  abbrev pub Extends : List A → List A → Type 0
  Extends [] ys = Unit
  Extends (x ∷ xs) [] = ⊥
  Extends (x ∷ xs) (y ∷ ys) = Later x y × Extends xs ys

  pub Extends-refl : (xs : List A) → Extends xs xs
  Extends-refl [] = tt
  Extends-refl (x ∷ xs) = (Later-refl x, Extends-refl xs)

  pub Extends-trans :
      ((a b c : A) → Later a b → Later b c → Later a c)
      → (xs ys zs : List A) → Extends xs ys
      → Extends ys zs
      → Extends xs zs
  Extends-trans t [] ys zs h k = tt
  Extends-trans t (x ∷ xs) [] zs h k = absurd h
  Extends-trans t (x ∷ xs) (y ∷ ys) [] h k = absurd k
  Extends-trans t (x ∷ xs) (y ∷ ys) (z ∷ zs) h k =
      (t x y z h.0 k.0, Extends-trans t xs ys zs h.1 k.1)

  pub Extends-append : (xs ys : List A) → Extends xs (xs ++ ys)
  Extends-append [] ys = tt
  Extends-append (x ∷ xs) ys = (Later-refl x, Extends-append xs ys)

  pub Extends-update_first :
      (p : A → Bool) (f : A → A) (xs : List A)
      → ((a : A) → p a ≡ true → Later a (f a))
      → Extends xs (update_first p f xs)
  Extends-update_first p f [] h = tt
  Extends-update_first p f (x ∷ xs) h =
      ground (arith, h x, Extends-refl xs, Later-refl x, Extends-update_first p f xs h)

  pub Extends-update_all :
      (p : A → Bool) (f : A → A) (xs : List A)
      → ((a : A) → p a ≡ true → Later a (f a))
      → Extends xs (update_all p f xs)
  Extends-update_all p f [] h = tt
  Extends-update_all p f (x ∷ xs) h = ground (arith, h x, Later-refl x, Extends-update_all p f xs h)
