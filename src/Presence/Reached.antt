-- ===== src/Presence/Reached.antt =====
-- In every state that observers bring the service to, the count of a store is right.
use driveparts_websockets.Prelude.{
  ◌+◌, ◌≡◌, ◌∙◌, refl, sym, ap, Option, none, some, List, [], ◌∷◌, String, arith, contains, dedupe,
}
use mathlib.Core.Path.{subst}
use driveparts_websockets.Prelude.Maps.{Map, get, delete}
use driveparts_websockets.Presence.{Service, PresencePayload, ids_or_empty}
use driveparts_websockets.Presence.Observers.{
  remove_missing, add_new, put_observed, observe_ids, observed_ids, set_observed_presence,
  clear_found, clear_observer,
}
use driveparts_websockets.Presence.Counted.{
  count, one_if, watching, HasOnce, remove_missing-count, add_new-count, remove_missing-observed,
  add_new-observed, remove_all-count, remove_all-observed,
}
use driveparts_websockets.Presence.Watched.{
  IsObserved, watching-set, watching-delete, get-HasOnce, set-IsObserved, delete-IsObserved,
  dedupe-HasOnce,
}

-- What an observer may do.
pub data Step (p : Service) : Service → Type 0 where
  observes :
      (observer_id : String) (presence : List PresencePayload)
      → Step p (set_observed_presence observer_id presence p)
  leaves : (observer_id : String) → Step p (clear_observer observer_id p)

pub data Reach (p : Service) : Service → Type 0 where
  here : Reach p p
  next : {q r : Service} → Reach p q → Step q r → Reach p r

-- Each observer has one set of stores, and a store's count is the number of the sets that have it.
pub record IsWatched (p : Service) : Type 0 where
  pub observed : IsObserved p.observed_store_ids_by_observer
  pub counted : (s : String) → count s p ≡ watching s p.observed_store_ids_by_observer

put_observed-watching :
    (s observer_id : String) (ids : List String) (m : Map (List String))
    → IsObserved m
    → watching s (put_observed observer_id ids m)
        + one_if (contains s (ids_or_empty (get observer_id m)))
      ≡ watching s m + one_if (contains s ids)
put_observed-watching s observer_id [] m u = watching-delete s observer_id m u ∙ omega arith
put_observed-watching s observer_id (id ∷ ids) m u = watching-set s observer_id (id ∷ ids) m

put_observed-IsObserved :
    (observer_id : String) (ids : List String) (m : Map (List String))
    → HasOnce ids
    → IsObserved m
    → IsObserved (put_observed observer_id ids m)
put_observed-IsObserved observer_id [] m h u = delete-IsObserved observer_id m u
put_observed-IsObserved observer_id (id ∷ ids) m h u = set-IsObserved observer_id (id ∷ ids) m h u

observe_ids-IsWatched :
    (observer_id : String) (ids : List String) (p : Service)
    → HasOnce ids
    → IsWatched p
    → IsWatched (observe_ids observer_id ids p)
observe_ids-IsWatched observer_id ids p h w =
    let m = p.observed_store_ids_by_observer in
    let previous = ids_or_empty (get observer_id m) in
    let removed = remove_missing ids previous p in
    let same : (add_new previous ids removed).observed_store_ids_by_observer ≡ m =
      add_new-observed previous ids removed ∙ remove_missing-observed ids previous p in
    record {
      observed = rw same (put_observed-IsObserved observer_id ids m h w.observed);
      counted = λ s. rw same (
          ground (
            arith,
            add_new-count previous ids s removed h,
            remove_missing-count ids previous s p (get-HasOnce observer_id m w.observed),
            put_observed-watching s observer_id ids m w.observed,
            w.counted s,
          ));
    }

clear_found-IsWatched :
    (observer_id : String) (o : Option (List String)) (p : Service)
    → get observer_id p.observed_store_ids_by_observer ≡ o
    → IsWatched p
    → IsWatched (clear_found observer_id o p)
clear_found-IsWatched observer_id none p e w = w
clear_found-IsWatched observer_id (some ids) p e w =
    let m = p.observed_store_ids_by_observer in
    let left = record p { observed_store_ids_by_observer = delete observer_id m } in
    let is_set : HasOnce ids =
      subst (λ o. HasOnce (ids_or_empty o)) e (get-HasOnce observer_id m w.observed) in
    record {
      observed = rw (remove_all-observed ids left) (delete-IsObserved observer_id m w.observed);
      counted = λ s.
          let others : watching s (delete observer_id m) + one_if (contains s ids) ≡ watching s m =
            sym
              (ap (λ o. watching s (delete observer_id m) + one_if (contains s (ids_or_empty o))) e)
            ∙ watching-delete s observer_id m w.observed in
          rw (remove_all-observed ids left)
            (ground (arith, remove_all-count ids s left is_set, others, w.counted s));
    }

step-IsWatched : (p q : Service) → Step p q → IsWatched p → IsWatched q
unfolding set_observed_presence clear_observer
step-IsWatched p q (observes observer_id presence) w =
    let v =
      observe_ids-IsWatched observer_id (dedupe (observed_ids presence)) p (dedupe-HasOnce _) w in
    record { observed = v.observed; counted = v.counted }
step-IsWatched p q (leaves observer_id) w = clear_found-IsWatched observer_id _ p refl w

start-IsWatched :
    (p : Service)
    → p.observed_store_ids_by_observer ≡ []
    → p.observer_count_by_store ≡ []
    → IsWatched p
unfolding get
start-IsWatched p none_observed none_counted = record {
  observed = rw none_observed tt;
  counted = λ s. rw (none_observed, none_counted) refl;
}

-- In every state that observers bring about from one without any, through new observations and their
-- ends in any order, the count of a store is the number of observers whose set has it, and each
-- observer has one set, without repetition.
pub Reach-IsWatched :
    (p q : Service)
    → p.observed_store_ids_by_observer ≡ []
    → p.observer_count_by_store ≡ []
    → Reach p q
    → IsWatched q
Reach-IsWatched p q none_observed none_counted here = start-IsWatched p none_observed none_counted
Reach-IsWatched p r none_observed none_counted (next {q} reached step) =
    step-IsWatched q r step (Reach-IsWatched p q none_observed none_counted reached)
