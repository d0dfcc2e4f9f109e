-- ===== src/Presence/Watched.antt =====
-- What an observer's new set does to the number of observers of each store.
use driveparts_websockets.Prelude.{
  ◌+◌, ◌≡◌, ◌∙◌, refl, sym, ap, false, ◌&&◌, none, List, [], ◌∷◌, String, ◌==◌, eq_iff, eq_refl,
  arith, contains, dedupe, dedupe_from, Bool-cases, inl, inr,
}
use mathlib.Core.Path.{subst}
use driveparts_websockets.Prelude.Maps.{Map, get, set, delete, get-set, get-delete}
use driveparts_websockets.Presence.{ids_or_empty}
use driveparts_websockets.Presence.Counted.{one_if, watching, HasOnce}

-- Every key is there once, with a list without repetition.
abbrev pub IsObserved : Map (List String) → Type 0
IsObserved [] = Unit
IsObserved ((k, v) ∷ m) = (get k m ≡ none) × HasOnce v × IsObserved m

pub watching-set :
    (s k : String) (v : List String) (m : Map (List String))
    → watching s (set k v m) + one_if (contains s (ids_or_empty (get k m)))
      ≡ watching s m + one_if (contains s v)
unfolding get set
watching-set s k v [] = ground arith
watching-set s k v ((j, w) ∷ m) = elim (Bool-cases (j == k)) [
  | inl same ↦ rw same (ground arith)
  | inr other ↦ rw other (ground (arith, watching-set s k v m))
]

pub watching-delete :
    (s k : String) (m : Map (List String))
    → IsObserved m
    → watching s (delete k m) + one_if (contains s (ids_or_empty (get k m))) ≡ watching s m
unfolding get delete
watching-delete s k [] u = ground arith
watching-delete s k ((j, w) ∷ m) u = elim (Bool-cases (j == k)) [
  | inl same ↦
      let absent : get k m ≡ none = subst (λ i. get i m ≡ none) ((eq_iff j k).0 same) u.0 in
      let rest : watching s (delete k m) + 0 ≡ watching s m =
        sym (ap (λ o. watching s (delete k m) + one_if (contains s (ids_or_empty o))) absent)
        ∙ watching-delete s k m u.2 in
      rw same (ground arith)
  | inr other ↦ rw other (ground (arith, watching-delete s k m u.2))
]

pub get-HasOnce :
    (k : String) (m : Map (List String)) → IsObserved m → HasOnce (ids_or_empty (get k m))
unfolding get
get-HasOnce k [] u = tt
get-HasOnce k ((j, w) ∷ m) u = elim (Bool-cases (j == k)) [
  | inl same ↦ rw same u.1
  | inr other ↦ rw other (get-HasOnce k m u.2)
]

pub set-IsObserved :
    (k : String) (v : List String) (m : Map (List String))
    → HasOnce v
    → IsObserved m
    → IsObserved (set k v m)
unfolding set get
set-IsObserved k v [] h u = (refl, h, tt)
set-IsObserved k v ((j, w) ∷ m) h u = elim (Bool-cases (j == k)) [
  | inl same ↦ rw same (subst (λ i. get i m ≡ none) ((eq_iff j k).0 same) u.0, h, u.2)
  | inr other ↦
      let differs : (k == j) ≡ false = ground (arith, eq_iff k j, eq_iff j k) in
      rw other (rw (get-set k j v m, differs) u.0, u.1, set-IsObserved k v m h u.2)
]

pub delete-IsObserved :
    (k : String) (m : Map (List String)) → IsObserved m → IsObserved (delete k m)
unfolding delete
delete-IsObserved k [] u = tt
delete-IsObserved k ((j, w) ∷ m) u = elim (Bool-cases (j == k)) [
  | inl same ↦ rw same (delete-IsObserved k m u.2)
  | inr other ↦
      let differs : (k == j) ≡ false = ground (arith, eq_iff k j, eq_iff j k) in
      rw other (rw (get-delete k j m, differs) u.0, u.1, delete-IsObserved k m u.2)
]

dedupe_from-unseen :
    (s : String) (seen xs : List String)
    → (contains s seen && contains s (dedupe_from seen xs)) ≡ false
dedupe_from-unseen s seen [] = ground arith
dedupe_from-unseen s seen (x ∷ xs) = elim (Bool-cases (contains x seen)) [
  | inl old ↦ rw old (dedupe_from-unseen s seen xs)
  | inr new ↦
      rw new
        (ground (arith, dedupe_from-unseen s (x ∷ seen) xs, ap (λ i. contains i seen), eq_iff x s))
]

dedupe_from-HasOnce : (seen xs : List String) → HasOnce (dedupe_from seen xs)
dedupe_from-HasOnce seen [] = tt
dedupe_from-HasOnce seen (x ∷ xs) = elim (Bool-cases (contains x seen)) [
  | inl old ↦ rw old (dedupe_from-HasOnce seen xs)
  | inr new ↦ rw new (
    ground (arith, dedupe_from-unseen x (x ∷ seen) xs, eq_refl x),
    dedupe_from-HasOnce (x ∷ seen) xs,
  )
]

pub dedupe-HasOnce : (xs : List String) → HasOnce (dedupe xs)
dedupe-HasOnce xs = dedupe_from-HasOnce [] xs
