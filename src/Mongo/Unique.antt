-- ===== src/Mongo/Unique.antt =====
-- Collections under a unique index (src/db/mongo.ts declares them): what the commands keep, and what
-- a query on the key finds after them.
use driveparts_websockets.Prelude.{
  keep, ◌⊎◌, none, ◌≡◌, refl, Bool, true, false, ◌||◌, some, List, [], ◌∷◌, ◌++◌, arith, any, first,
  update_first, remove_first, Bool-cases, inl, inr,
}

module _ {Doc : Type 0} where
  -- No stored document conflicts with a later one.
  abbrev pub IsUnique : (Doc → Doc → Bool) → List Doc → Type 0
  IsUnique conflicts [] = Unit
  IsUnique conflicts (x ∷ xs) = (any (conflicts x) xs ≡ false) × IsUnique conflicts xs

  pub any-implies :
      (p q : Doc → Bool) (xs : List Doc)
      → ((d : Doc) → p d ≡ true → q d ≡ true)
      → any q xs ≡ false
      → any p xs ≡ false
  any-implies p q [] i h = refl
  any-implies p q (x ∷ xs) i h = ground (arith, i x, any-implies p q xs i)

  -- If the document with the key fails the test, no document passes it.
  pub any_by_key :
      (conflicts : Doc → Doc → Bool) (p q : Doc → Bool) (xs : List Doc) (r : Doc)
      → ((d : Doc) → p d ≡ true → q d ≡ true)
      → ((d e : Doc) → q d ≡ true → q e ≡ true → conflicts d e ≡ true)
      → IsUnique conflicts xs
      → first q xs ≡ some r
      → p r ≡ false
      → any p xs ≡ false
  any_by_key conflicts p q [] r i c u h n = refl
  any_by_key conflicts p q (x ∷ xs) r i c u h n = elim (Bool-cases (q x)) [
    | inl here ↦ ground (arith, i x, any-implies p (conflicts x) xs (λ d t. c x d here (i d t)))
    | inr later ↦ ground (arith, i x, any_by_key conflicts p q xs r i c)
  ]

  pub any_of_first :
      (p q : Doc → Bool) (xs : List Doc) (r : Doc)
      → first q xs ≡ some r
      → p r ≡ true
      → any p xs ≡ true
  any_of_first p q [] r h n = ground arith
  any_of_first p q (x ∷ xs) r h n = ground (arith, any_of_first p q xs r)

  -- An update of the document with the key is what a later query on the key finds.
  pub first-update_first :
      (p q : Doc → Bool) (f : Doc → Doc) (xs : List Doc) (r : Doc)
      → ((d : Doc) → p d ≡ true → q d ≡ true)
      → first q xs ≡ some r
      → p r ≡ true
      → q (f r) ≡ true
      → first q (update_first p f xs) ≡ some (f r)
  first-update_first p q f [] r i h n k = ground arith
  first-update_first p q f (x ∷ xs) r i h n k = ground (arith, i x, first-update_first p q f xs r i)

  -- An updated document passes the test that the update makes true.
  pub any-update_self :
      (p c : Doc → Bool) (f : Doc → Doc) (xs : List Doc)
      → ((d : Doc) → p d ≡ true → c (f d) ≡ true)
      → any p xs ≡ true
      → any c (update_first p f xs) ≡ true
  any-update_self p c f [] k h = ground arith
  any-update_self p c f (x ∷ xs) k h = ground (arith, k x, any-update_self p c f xs k)

  -- Under a unique key at most one document passes the test, and the update makes it fail.
  pub any_at_key :
      (conflicts : Doc → Doc → Bool) (p : Doc → Bool) (f : Doc → Doc) (xs : List Doc)
      → ((d e : Doc) → p d ≡ true → p e ≡ true → conflicts d e ≡ true)
      → ((d : Doc) → p (f d) ≡ false)
      → IsUnique conflicts xs
      → any p (update_first p f xs) ≡ false
  any_at_key conflicts p f [] c k u = refl
  any_at_key conflicts p f (x ∷ xs) c k u = elim (Bool-cases (p x)) [
    | inl here ↦ ground (arith, k x, any-implies p (conflicts x) xs (λ d t. c x d here t))
    | inr later ↦ ground (arith, any_at_key conflicts p f xs c k)
  ]

  -- The document that passes the test is the one with the key, if no other of them may be stored.
  pub first_unique :
      (conflicts : Doc → Doc → Bool) (p q : Doc → Bool) (xs : List Doc) (r : Doc)
      → ((d : Doc) → p d ≡ true → conflicts d r ≡ true)
      → IsUnique conflicts xs
      → first q xs ≡ some r
      → p r ≡ true
      → first p xs ≡ some r
  first_unique conflicts p q [] r c u h n = absurd (ground arith)
  first_unique conflicts p q (x ∷ xs) r c u h n =
      ground (arith, c x, any_of_first (conflicts x) q xs r, first_unique conflicts p q xs r c u.1)

  -- An update of the document that two tests find first, by one of them.
  pub first-update_same :
      (p q : Doc → Bool) (f : Doc → Doc) (xs : List Doc) (r : Doc)
      → first p xs ≡ some r
      → first q xs ≡ some r
      → p r ≡ true
      → q r ≡ true
      → q (f r) ≡ true
      → first q (update_first p f xs) ≡ some (f r)
  first-update_same p q f [] r h k a b c = ground arith
  first-update_same p q f (x ∷ xs) r h k a b c = ground (arith, first-update_same p q f xs r)

  -- An update or a removal that passes over the document with the key leaves it.
  pub first-update_other :
      (p q : Doc → Bool) (f : Doc → Doc) (xs : List Doc) (r : Doc)
      → ((d : Doc) → q (f d) ≡ q d)
      → first q xs ≡ some r
      → p r ≡ false
      → first q (update_first p f xs) ≡ some r
  first-update_other p q f [] r k h n = ground arith
  first-update_other p q f (x ∷ xs) r k h n = ground (arith, k x, first-update_other p q f xs r k)

  pub first-remove_other :
      (p q : Doc → Bool) (xs : List Doc) (r : Doc)
      → first q xs ≡ some r
      → p r ≡ false
      → first q (remove_first p xs) ≡ some r
  first-remove_other p q [] r h n = ground arith
  first-remove_other p q (x ∷ xs) r h n = ground (arith, first-remove_other p q xs r)

  -- A removal of the document with the key leaves none.
  pub first-remove_first :
      (conflicts : Doc → Doc → Bool) (p q : Doc → Bool) (xs : List Doc) (r : Doc)
      → ((d : Doc) → p d ≡ true → q d ≡ true)
      → ((d e : Doc) → q d ≡ true → q e ≡ true → conflicts d e ≡ true)
      → IsUnique conflicts xs
      → first q xs ≡ some r
      → p r ≡ true
      → any q (remove_first p xs) ≡ false
  first-remove_first conflicts p q [] r i c u h n = refl
  first-remove_first conflicts p q (x ∷ xs) r i c u h n = elim (Bool-cases (q x)) [
    | inl here ↦ ground (arith, i x, any-implies q (conflicts x) xs (λ d t. c x d here t))
    | inr later ↦ ground (arith, i x, first-remove_first conflicts p q xs r i c)
  ]

  pub first_missing : (p : Doc → Bool) (xs : List Doc) → any p xs ≡ false → first p xs ≡ none
  first_missing p [] h = refl
  first_missing p (x ∷ xs) h = ground (arith, first_missing p xs)

  -- An update that keeps what a query asks for: the query finds the same document, updated or not.
  pub first-updated :
      (p q : Doc → Bool) (f : Doc → Doc) (xs : List Doc) (x : Doc)
      → ((d : Doc) → p (f d) ≡ p d)
      → first p xs ≡ some x
      → (first p (update_first q f xs) ≡ some x) ⊎ (first p (update_first q f xs) ≡ some (f x))
  first-updated p q f [] x k h = absurd (ground arith)
  first-updated p q f (y ∷ ys) x k h = ground (arith, k y, first-updated p q f ys x k)

  -- A query finds the same document after a deletion that keeps it.
  pub first-keep :
      (p q : Doc → Bool) (xs : List Doc) (r : Doc)
      → first p xs ≡ some r
      → q r ≡ true
      → first p (keep q xs) ≡ some r
  first-keep p q [] r h k = ground arith
  first-keep p q (x ∷ xs) r h k = ground (arith, first-keep p q xs r)

  pub any-append :
      (p : Doc → Bool) (xs : List Doc) (d : Doc) → any p (xs ++ d ∷ []) ≡ (any p xs || p d)
  any-append p [] d = ground arith
  any-append p (x ∷ xs) d = ground (arith, any-append p xs d)

  pub first-append :
      (q : Doc → Bool) (xs : List Doc) (d : Doc)
      → any q xs ≡ false
      → q d ≡ true
      → first q (xs ++ d ∷ []) ≡ some d
  first-append q [] d h k = ground arith
  first-append q (x ∷ xs) d h k = ground (arith, first-append q xs d)

  pub update_first-append :
      (p : Doc → Bool) (f : Doc → Doc) (xs : List Doc) (d : Doc)
      → any p xs ≡ false
      → p d ≡ true
      → update_first p f (xs ++ d ∷ []) ≡ xs ++ f d ∷ []
  update_first-append p f [] d h k = ground arith
  update_first-append p f (x ∷ xs) d h k = ground (arith, update_first-append p f xs d)

  pub first-append_old :
      (q : Doc → Bool) (xs : List Doc) (d r : Doc)
      → first q xs ≡ some r
      → first q (xs ++ d ∷ []) ≡ some r
  first-append_old q [] d r h = ground arith
  first-append_old q (x ∷ xs) d r h = ground (arith, first-append_old q xs d r)

  pub append-IsUnique :
      (conflicts : Doc → Doc → Bool)
      → ((d e : Doc) → conflicts d e ≡ conflicts e d)
      → (xs : List Doc) (d : Doc) → IsUnique conflicts xs
      → any (conflicts d) xs ≡ false
      → IsUnique conflicts (xs ++ d ∷ [])
  append-IsUnique conflicts s [] d u h = (refl, tt)
  append-IsUnique conflicts s (x ∷ xs) d u h = (
    ground (arith, any-append (conflicts x) xs d, s x d),
    append-IsUnique conflicts s xs d u.1 (ground arith),
  )

  -- An update that keeps the key.
  abbrev pub KeepsKey : (Doc → Doc → Bool) → (Doc → Doc) → Type 0
  KeepsKey conflicts f =
      ((d e : Doc) → conflicts (f d) e ≡ conflicts d e)
      × ((d e : Doc) → conflicts d (f e) ≡ conflicts d e)

  pub any-update_first :
      (c p : Doc → Bool) (f : Doc → Doc) (xs : List Doc)
      → ((d : Doc) → c (f d) ≡ c d)
      → any c (update_first p f xs) ≡ any c xs
  any-update_first c p f [] k = refl
  any-update_first c p f (x ∷ xs) k = ground (arith, k x, any-update_first c p f xs k)

  any-implies_self :
      (c d : Doc → Bool) (xs : List Doc) → ((e : Doc) → c e ≡ d e) → any c xs ≡ any d xs
  any-implies_self c d [] k = refl
  any-implies_self c d (x ∷ xs) k = ground (arith, k x, any-implies_self c d xs k)

  pub update_first-IsUnique :
      (conflicts : Doc → Doc → Bool) (p : Doc → Bool) (f : Doc → Doc)
      → KeepsKey conflicts f
      → (xs : List Doc) → IsUnique conflicts xs
      → IsUnique conflicts (update_first p f xs)
  update_first-IsUnique conflicts p f k [] u = tt
  update_first-IsUnique conflicts p f k (x ∷ xs) u = ground (
    arith,
    any-implies_self (conflicts (f x)) (conflicts x) xs (k.0 x),
    any-update_first (conflicts x) p f xs (k.1 x),
    update_first-IsUnique conflicts p f k xs u.1,
  )

  any-remove_first :
      (c p : Doc → Bool) (xs : List Doc) → any c xs ≡ false → any c (remove_first p xs) ≡ false
  any-remove_first c p [] h = refl
  any-remove_first c p (x ∷ xs) h = ground (arith, any-remove_first c p xs)

  pub remove_first-IsUnique :
      (conflicts : Doc → Doc → Bool) (p : Doc → Bool) (xs : List Doc)
      → IsUnique conflicts xs
      → IsUnique conflicts (remove_first p xs)
  remove_first-IsUnique conflicts p [] u = tt
  remove_first-IsUnique conflicts p (x ∷ xs) u =
      ground (arith, any-remove_first (conflicts x) p xs, remove_first-IsUnique conflicts p xs u.1)
