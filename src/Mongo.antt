-- ===== src/Mongo.antt =====
-- The document database that src/repositories calls, as a record of the commands in use and of
-- what its manual promises about them. The commands are parameters of every repository.
pub mod Unique
use driveparts_websockets.Prelude.{
  ℕ, ◌≡◌, ◌≢◌, refl, Bool, true, Option, none, some, List, [], ◌∷◌, ◌++◌, if◌then◌else◌, any, keep,
  first, tally, update_first, update_all, remove_first, take, sort_by, sort_with, reverse,
}
use mathlib.Core.Option

-- A collection whose unique indexes refuse a document that `conflicts` with a stored one.
pub record Collection (Doc : Type 0) (conflicts : Doc → Doc → Bool) : Type 0 where
  -- insertOne; `none` is the duplicate key error E11000.
  pub insert_one : Doc → List Doc → Option (List Doc)
  pub insert_one_lem :
      (d : Doc) (xs : List Doc)
      → insert_one d xs ≡ (if any (conflicts d) xs then none else some (xs ++ d ∷ []))
  -- findOne
  pub find_one : (Doc → Bool) → List Doc → Option Doc
  pub find_one_lem : (p : Doc → Bool) (xs : List Doc) → find_one p xs ≡ first p xs
  -- find(...).toArray()
  pub find : (Doc → Bool) → List Doc → List Doc
  pub find_lem : (p : Doc → Bool) (xs : List Doc) → find p xs ≡ keep p xs
  -- updateOne: the collection, matchedCount and modifiedCount
  pub update_one : (Doc → Bool) → (Doc → Doc) → List Doc → List Doc × ℕ × ℕ
  pub update_one_docs :
      (p : Doc → Bool) (f : Doc → Doc) (xs : List Doc) → (update_one p f xs).0 ≡ update_first p f xs
  pub update_one_matched :
      (p : Doc → Bool) (f : Doc → Doc) (xs : List Doc)
      → (update_one p f xs).1 ≡ (if any p xs then 1 else 0)
  -- A matched document counts as modified where the update changes it.
  pub update_one_modified :
      (p : Doc → Bool) (f : Doc → Doc) (xs : List Doc)
      → ((d : Doc) → p d ≡ true → f d ≢ d)
      → (update_one p f xs).2 ≡ (if any p xs then 1 else 0)
  -- findOneAndUpdate with returnDocument 'after'
  pub find_one_and_update : (Doc → Bool) → (Doc → Doc) → List Doc → List Doc × Option Doc
  pub find_one_and_update_lem :
      (p : Doc → Bool) (f : Doc → Doc) (xs : List Doc)
      → find_one_and_update p f xs ≡ (update_first p f xs, Option.map f (first p xs))
  -- updateMany: the collection and modifiedCount
  pub update_many : (Doc → Bool) → (Doc → Doc) → List Doc → List Doc × ℕ
  pub update_many_docs :
      (p : Doc → Bool) (f : Doc → Doc) (xs : List Doc) → (update_many p f xs).0 ≡ update_all p f xs
  pub update_many_modified :
      (p : Doc → Bool) (f : Doc → Doc) (xs : List Doc)
      → ((d : Doc) → p d ≡ true → f d ≢ d)
      → (update_many p f xs).1 ≡ tally p xs
  -- deleteOne: the collection and deletedCount
  pub delete_one : (Doc → Bool) → List Doc → List Doc × ℕ
  pub delete_one_lem :
      (p : Doc → Bool) (xs : List Doc)
      → delete_one p xs ≡ (remove_first p xs, if any p xs then 1 else 0)

-- find(...).sort({ _id: 1 }) and find(...).sort({ _id: -1 }), each with .limit(n), on a collection
-- whose documents have the number `id`.
pub record SortedReads (Doc : Type 0) (id : Doc → ℕ) : Type 0 where
  pub oldest_first : (Doc → Bool) → ℕ → List Doc → List Doc
  pub oldest_first_lem :
      (p : Doc → Bool) (n : ℕ) (xs : List Doc)
      → oldest_first p n xs ≡ take n (sort_by id (keep p xs))
  pub newest_first : (Doc → Bool) → ℕ → List Doc → List Doc
  pub newest_first_lem :
      (p : Doc → Bool) (n : ℕ) (xs : List Doc)
      → newest_first p n xs ≡ take n (reverse (sort_by id (keep p xs)))
  -- The same without .limit(n).
  pub all_newest_first : (Doc → Bool) → List Doc → List Doc
  pub all_newest_first_lem :
      (p : Doc → Bool) (xs : List Doc) → all_newest_first p xs ≡ reverse (sort_by id (keep p xs))

abbrev pub sorted : {Doc : Type 0} (id : Doc → ℕ) → SortedReads Doc id
sorted id = record {
  oldest_first = λ p n xs. take n (sort_by id (keep p xs));
  oldest_first_lem = λ p n xs. refl;
  newest_first = λ p n xs. take n (reverse (sort_by id (keep p xs)));
  newest_first_lem = λ p n xs. refl;
  all_newest_first = λ p xs. reverse (sort_by id (keep p xs));
  all_newest_first_lem = λ p xs. refl;
}

-- find(...).sort(...) by several fields, with .limit(n) and without, in the order of `before`.
pub record OrderedReads (Doc : Type 0) (before : Doc → Doc → Bool) : Type 0 where
  pub in_order : (Doc → Bool) → ℕ → List Doc → List Doc
  pub in_order_lem :
      (p : Doc → Bool) (n : ℕ) (xs : List Doc)
      → in_order p n xs ≡ take n (sort_with before (keep p xs))
  pub all_in_order : (Doc → Bool) → List Doc → List Doc
  pub all_in_order_lem :
      (p : Doc → Bool) (xs : List Doc) → all_in_order p xs ≡ sort_with before (keep p xs)

abbrev pub ordered : {Doc : Type 0} (before : Doc → Doc → Bool) → OrderedReads Doc before
ordered before = record {
  in_order = λ p n xs. take n (sort_with before (keep p xs));
  in_order_lem = λ p n xs. refl;
  all_in_order = λ p xs. sort_with before (keep p xs);
  all_in_order_lem = λ p xs. refl;
}

-- A collection that keeps the promises, for the tests.
abbrev pub listed : {Doc : Type 0} (conflicts : Doc → Doc → Bool) → Collection Doc conflicts
listed conflicts = record {
  insert_one = λ d xs. if any (conflicts d) xs then none else some (xs ++ d ∷ []);
  insert_one_lem = λ d xs. refl;
  find_one = first;
  find_one_lem = λ p xs. refl;
  find = keep;
  find_lem = λ p xs. refl;
  update_one =
      λ p f xs. (update_first p f xs, if any p xs then 1 else 0, if any p xs then 1 else 0);
  update_one_docs = λ p f xs. refl;
  update_one_matched = λ p f xs. refl;
  update_one_modified = λ p f xs h. refl;
  find_one_and_update = λ p f xs. (update_first p f xs, Option.map f (first p xs));
  find_one_and_update_lem = λ p f xs. refl;
  update_many = λ p f xs. (update_all p f xs, tally p xs);
  update_many_docs = λ p f xs. refl;
  update_many_modified = λ p f xs h. refl;
  delete_one = λ p xs. (remove_first p xs, if any p xs then 1 else 0);
  delete_one_lem = λ p xs. refl;
}
