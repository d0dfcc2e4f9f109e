-- ===== src/Prelude/Sorting.antt =====
-- Lists sorted by a number, and what filtering, taking and reversing keep.
use Prim.Native.Nat.{ℕ, zero, suc, ◌≤◌, ◌<◌}
use mathlib.Core.Path.{◌≡◌, refl}
use mathlib.Core.Logic.{◌≢◌}
use mathlib.Core.Bool.{Bool, true, ◌&&◌}
use mathlib.Core.List.{List, [], ◌∷◌, ◌++◌, reverse, reverse-cons}
use native.Mathlib.Omega.{arith}
use driveparts_websockets.Prelude.Tests.{if◌then◌else◌}
use driveparts_websockets.Prelude.Lists.{length, take, keep, All, insert_by, sort_by, length-append}

module _ {ℓ κ} {A : Type ℓ} (P : A → Type κ) where
  pub All-append : (xs ys : List A) → All P xs → All P ys → All P (xs ++ ys)
  All-append [] ys h k = k
  All-append (x ∷ xs) ys h k = (h.0, All-append xs ys h.1 k)

  pub All-reverse : (xs : List A) → All P xs → All P (reverse xs)
  All-reverse [] h = h
  All-reverse (x ∷ xs) h =
      rw reverse-cons (All-append (reverse xs) (x ∷ []) (All-reverse xs h.1) (h.0, tt))

  pub All-take : (n : ℕ) (xs : List A) → All P xs → All P (take n xs)
  All-take zero xs h = tt
  All-take (suc n) [] h = tt
  All-take (suc n) (x ∷ xs) h = (h.0, All-take n xs h.1)

  pub All-keep : (p : A → Bool) (xs : List A) → All P xs → All P (keep p xs)
  All-keep p [] h = tt
  All-keep p (x ∷ xs) h = ground (arith, All-keep p xs h.1)

  pub All-insert_by :
      (id : A → ℕ) (x : A) (xs : List A) → P x → All P xs → All P (insert_by id x xs)
  All-insert_by id x [] h k = (h, tt)
  All-insert_by id x (y ∷ ys) h k = ground (arith, All-insert_by id x ys h k.1)

  pub All-sort_by : (id : A → ℕ) (xs : List A) → All P xs → All P (sort_by id xs)
  All-sort_by id [] h = tt
  All-sort_by id (x ∷ xs) h = All-insert_by id x (sort_by id xs) h.0 (All-sort_by id xs h.1)

module _ {ℓ} {A : Type ℓ} where
  pub length-reverse : (xs : List A) → length (reverse xs) ≡ length xs
  length-reverse [] = refl
  length-reverse (x ∷ xs) =
      rw reverse-cons (omega (arith, length-append (reverse xs) (x ∷ []), length-reverse xs))

  pub All-kept : (p : A → Bool) (xs : List A) → All (λ x. p x ≡ true) (keep p xs)
  All-kept p [] = tt
  All-kept p (x ∷ xs) = ground (arith, All-kept p xs)

  pub keep_congr : (p q : A → Bool) (xs : List A) → ((x : A) → p x ≡ q x) → keep p xs ≡ keep q xs
  keep_congr p q [] h = refl
  keep_congr p q (x ∷ xs) h = ground (arith, h x, keep_congr p q xs h)

  pub keep-keep : (p q : A → Bool) (xs : List A) → keep p (keep q xs) ≡ keep (λ x. q x && p x) xs
  keep-keep p q [] = refl
  keep-keep p q (x ∷ xs) = ground (arith, keep-keep p q xs)

module _ {A : Type 0} (id : A → ℕ) where
  -- Strictly in the order of the numbers.
  abbrev pub Ascending : List A → Type 0
  Ascending [] = Unit
  Ascending (x ∷ xs) = All (λ y. id x < id y) xs × Ascending xs

  All-below : (m n : ℕ) (xs : List A) → m ≤ n → All (λ y. n < id y) xs → All (λ y. m < id y) xs
  All-below m n [] h a = tt
  All-below m n (x ∷ xs) h a = (omega arith, All-below m n xs h a.1)

  insert_by_least : (x : A) (xs : List A) → All (λ y. id x < id y) xs → insert_by id x xs ≡ x ∷ xs
  insert_by_least x [] h = refl
  insert_by_least x (y ∷ ys) h = ground arith

  pub insert_by-Ascending :
      (x : A) (xs : List A)
      → All (λ y. id x ≢ id y) xs
      → Ascending xs
      → Ascending (insert_by id x xs)
  insert_by-Ascending x [] h a = (tt, tt)
  insert_by-Ascending x (y ∷ ys) h a = ground (
    arith,
    All-below (id x) (id y) ys,
    All-insert_by (λ z. id y < id z) id x ys,
    insert_by-Ascending x ys h.1 a.1,
  )

  pub keep-insert_by :
      (q : A → Bool) (x : A) (ys : List A)
      → All (λ y. id x ≢ id y) ys
      → Ascending ys
      → keep q (insert_by id x ys) ≡ (if q x then insert_by id x (keep q ys) else keep q ys)
  keep-insert_by q x [] h a = ground arith
  keep-insert_by q x (y ∷ ys) h a = ground (
    arith,
    keep-insert_by q x ys h.1 a.1,
    insert_by_least x (keep q ys),
    All-keep (λ z. id x < id z) q ys,
    All-below (id x) (id y) ys,
  )

  -- The numbers of the list are pairwise different.
  abbrev pub Distinct : List A → Type 0
  Distinct [] = Unit
  Distinct (x ∷ xs) = All (λ y. id x ≢ id y) xs × Distinct xs

  pub keep-Distinct : (q : A → Bool) (xs : List A) → Distinct xs → Distinct (keep q xs)
  keep-Distinct q [] d = tt
  keep-Distinct q (x ∷ xs) d =
      ground (arith, All-keep (λ y. id x ≢ id y) q xs d.0, keep-Distinct q xs d.1)

  pub sort_by-Ascending : (xs : List A) → Distinct xs → Ascending (sort_by id xs)
  sort_by-Ascending [] d = tt
  sort_by-Ascending (x ∷ xs) d =
      insert_by-Ascending x (sort_by id xs) (All-sort_by (λ y. id x ≢ id y) id xs d.0)
        (sort_by-Ascending xs d.1)

  -- Filtering before or after sorting is the same.
  pub keep-sort_by :
      (q : A → Bool) (xs : List A) → Distinct xs → keep q (sort_by id xs) ≡ sort_by id (keep q xs)
  keep-sort_by q [] d = refl
  keep-sort_by q (x ∷ xs) d = ground (
    arith,
    keep-insert_by q x (sort_by id xs) (All-sort_by (λ y. id x ≢ id y) id xs d.0)
        (sort_by-Ascending xs d.1),
    keep-sort_by q xs d.1,
  )
