-- ===== src/Presence/Counted.antt =====
-- The count of a store is the number of its observers.
use driveparts_websockets.Prelude.{
  ℕ, ◌+◌, ◌-◌, ◌≡◌, ◌∙◌, refl, sym, ap, Bool, true, false, not, ◌&&◌, List, [], ◌∷◌, String, ◌==◌,
  eq_iff, eqb, ltb, arith, if◌then◌else◌, contains, tally, Bool-cases, inl, inr,
}
use driveparts_websockets.Prelude.Maps.{Map, get, get-set, get-delete}
use driveparts_websockets.Presence.{
  Service, mark_tracking_changed, prune_tracking_generation, time_or_zero, is_store_tracked,
}
use driveparts_websockets.Presence.Observers.{
  remove_store_observer, remove_missing, add_store_observer, add_new, remove_all,
}

abbrev pub count : String → Service → ℕ
count s p = time_or_zero (get s p.observer_count_by_store)

abbrev pub one_if : Bool → ℕ
one_if b = if b then 1 else 0

-- How many observers observe the store.
abbrev pub watching : String → Map (List String) → ℕ
watching s m = tally (λ e. contains s e.1) m

prune-counts :
    (id : String) (p : Service)
    → (prune_tracking_generation id p).observer_count_by_store ≡ p.observer_count_by_store
unfolding prune_tracking_generation
prune-counts id p = elim (Bool-cases (is_store_tracked id p)) [
  | inl t ↦ rw t refl
  | inr t ↦ rw t refl
]

prune-observed :
    (id : String) (p : Service)
    → (prune_tracking_generation id p).observed_store_ids_by_observer
      ≡ p.observed_store_ids_by_observer
unfolding prune_tracking_generation
prune-observed id p = elim (Bool-cases (is_store_tracked id p)) [
  | inl t ↦ rw t refl
  | inr t ↦ rw t refl
]

same_count : (id s : String) (p : Service) → (id == s) ≡ true → count id p ≡ count s p
same_count id s p h = ap (λ i. count i p) ((eq_iff id s).0 h)

pub remove-count :
    (id s : String) (p : Service)
    → count s (remove_store_observer id p) ≡ count s p - one_if (id == s)
unfolding remove_store_observer mark_tracking_changed
remove-count id s p = elim (Bool-cases (eqb (count id p) 0)) [
  | inl nobody ↦ rw nobody (ground (arith, same_count id s p))
  | inr some_observer ↦ elim (Bool-cases (ltb 0 (count id p - 1))) [
    | inl others ↦
        rw (some_observer, others, get-set id s (count id p - 1) p.observer_count_by_store)
          (ground (arith, same_count id s p))
    | inr last ↦
        rw (some_observer, last, prune-counts, get-delete id s p.observer_count_by_store)
          (ground (arith, same_count id s p))
  ]
]

pub remove-observed :
    (id : String) (p : Service)
    → (remove_store_observer id p).observed_store_ids_by_observer ≡ p.observed_store_ids_by_observer
unfolding remove_store_observer mark_tracking_changed
remove-observed id p = elim (Bool-cases (eqb (count id p) 0)) [
  | inl nobody ↦ rw nobody refl
  | inr some_observer ↦ elim (Bool-cases (ltb 0 (count id p - 1))) [
    | inl others ↦ rw (some_observer, others) refl
    | inr last ↦ rw (some_observer, last, prune-observed) refl
  ]
]

add-count :
    (id s : String) (p : Service) → count s (add_store_observer id p) ≡ count s p + one_if (id == s)
add-count id s p =
    rw (get-set id s (count id p + 1) p.observer_count_by_store) (ground (arith, same_count id s p))

-- Every text of the list is there once.
abbrev pub HasOnce : List String → Type 0
HasOnce [] = Unit
HasOnce (x ∷ xs) = (contains x xs ≡ false) × HasOnce xs

pub contains-same :
    (x s : String) (xs : List String) → (x == s) ≡ true → contains s xs ≡ contains x xs
contains-same x s xs h = ap (λ i. contains i xs) (sym ((eq_iff x s).0 h))

one_removed :
    (next : List String) (id s : String) (p : Service)
    → count s (if contains id next then p else remove_store_observer id p)
      ≡ count s p - one_if (id == s && not (contains id next))
one_removed next id s p = elim (Bool-cases (contains id next)) [
  | inl kept ↦ rw kept (ground arith)
  | inr gone ↦ rw gone (ground (arith, remove-count id s p))
]

pub remove_missing-count :
    (next ids : List String) (s : String) (p : Service)
    → HasOnce ids
    → count s (remove_missing next ids p)
      ≡ count s p - one_if (contains s ids && not (contains s next))
remove_missing-count next [] s p u = omega arith
remove_missing-count next (id ∷ ids) s p u =
    let p' = if contains id next then p else remove_store_observer id p in
    let later = remove_missing-count next ids s p' u.1 in
    later
    ∙ rw (one_removed next id s p) (ground (arith, contains-same id s ids, contains-same id s next))

mark-count : (id s : String) (p : Service) → count s (mark_tracking_changed id p) ≡ count s p
unfolding mark_tracking_changed
mark-count id s p = refl

one_added :
    (previous : List String) (id s : String) (p : Service)
    → count s
        (mark_tracking_changed id (if contains id previous then p else add_store_observer id p))
      ≡ count s p + one_if (id == s && not (contains id previous))
one_added previous id s p = elim (Bool-cases (contains id previous)) [
  | inl old ↦ rw (mark-count id s, old) (ground arith)
  | inr new ↦ rw (mark-count id s, new) (ground (arith, add-count id s p))
]

pub add_new-count :
    (previous ids : List String) (s : String) (p : Service)
    → HasOnce ids
    → count s (add_new previous ids p)
      ≡ count s p + one_if (contains s ids && not (contains s previous))
add_new-count previous [] s p u = omega arith
add_new-count previous (id ∷ ids) s p u =
    let p' =
      mark_tracking_changed id (if contains id previous then p else add_store_observer id p) in
    let later = add_new-count previous ids s p' u.1 in
    later
    ∙ rw (one_added previous id s p)
        (ground (arith, contains-same id s ids, contains-same id s previous))

pub remove_missing-observed :
    (next ids : List String) (p : Service)
    → (remove_missing next ids p).observed_store_ids_by_observer ≡ p.observed_store_ids_by_observer
remove_missing-observed next [] p = refl
remove_missing-observed next (id ∷ ids) p = elim (Bool-cases (contains id next)) [
  | inl kept ↦
      remove_missing-observed next ids (if contains id next then p else remove_store_observer id p)
      ∙ rw kept refl
  | inr gone ↦
      remove_missing-observed next ids (if contains id next then p else remove_store_observer id p)
      ∙ rw gone (remove-observed id p)
]

mark-observed :
    (id : String) (p : Service)
    → (mark_tracking_changed id p).observed_store_ids_by_observer ≡ p.observed_store_ids_by_observer
unfolding mark_tracking_changed
mark-observed id p = refl

pub add_new-observed :
    (previous ids : List String) (p : Service)
    → (add_new previous ids p).observed_store_ids_by_observer ≡ p.observed_store_ids_by_observer
add_new-observed previous [] p = refl
add_new-observed previous (id ∷ ids) p =
    let p' = if contains id previous then p else add_store_observer id p in
    add_new-observed previous ids (mark_tracking_changed id p')
    ∙ mark-observed id p'
    ∙ same_observed (contains id previous)
  where
    same_observed :
        (b : Bool)
        → (if b then p else add_store_observer id p).observed_store_ids_by_observer
          ≡ p.observed_store_ids_by_observer
    same_observed true = refl
    same_observed false = refl

pub remove_all-count :
    (ids : List String) (s : String) (p : Service)
    → HasOnce ids
    → count s (remove_all ids p) ≡ count s p - one_if (contains s ids)
remove_all-count [] s p u = omega arith
remove_all-count (id ∷ ids) s p u =
    remove_all-count ids s (remove_store_observer id p) u.1
    ∙ rw (remove-count id s p) (ground (arith, contains-same id s ids))

pub remove_all-observed :
    (ids : List String) (p : Service)
    → (remove_all ids p).observed_store_ids_by_observer ≡ p.observed_store_ids_by_observer
remove_all-observed [] p = refl
remove_all-observed (id ∷ ids) p =
    remove_all-observed ids (remove_store_observer id p) ∙ remove-observed id p
