-- ===== src/Presence/Observers.antt =====
-- The observers of src/services/presence_service.ts: who wants to know of which stores, and how many
-- observers each store has.
use driveparts_websockets.Prelude.{
  ◌+◌, ◌-◌, Bool, true, Option, none, some, List, [], ◌∷◌, String, ◌==◌, eqb, ltb, if◌then◌else◌,
  contains, dedupe,
}
use driveparts_websockets.Prelude.Maps.{Map, get, set, delete}
use driveparts_websockets.Presence.{
  Service, PresencePayload, mark_tracking_changed, prune_tracking_generation, ids_or_empty,
  is_there, time_or_zero,
}

-- The last step of remove_store_observer, when no observer remains.
abbrev forget_store : String → Service → Service
forget_store store_id p =
    let p' = record p { observer_count_by_store = delete store_id p.observer_count_by_store } in
    prune_tracking_generation store_id (record p' {
      authoritative_online_by_store =
          if is_there (get store_id p.local_socket_ids_by_store)
          then p.authoritative_online_by_store
          else delete store_id p.authoritative_online_by_store;
    })

-- A count that is missing or 0 is left alone.
unfoldable pub remove_store_observer : String → Service → Service
remove_store_observer store_id p =
    let current = time_or_zero (get store_id p.observer_count_by_store) in
    let p' = mark_tracking_changed store_id p in
    if eqb current 0
    then p
    else if ltb 0 (current - 1)
    then record p' {
      observer_count_by_store = set store_id (current - 1) p'.observer_count_by_store;
    }
    else forget_store store_id p'

-- The first loop: the stores that are no longer observed.
abbrev pub remove_missing : List String → List String → Service → Service
remove_missing next [] p = p
remove_missing next (id ∷ ids) p =
    remove_missing next ids (if contains id next then p else remove_store_observer id p)

abbrev pub add_store_observer : String → Service → Service
add_store_observer id p = record p {
  observer_count_by_store =
      set id (time_or_zero (get id p.observer_count_by_store) + 1) p.observer_count_by_store;
}

-- The second loop: the stores that are observed from now on.
abbrev pub add_new : List String → List String → Service → Service
add_new previous [] p = p
add_new previous (id ∷ ids) p =
    add_new previous ids
      (mark_tracking_changed id (if contains id previous then p else add_store_observer id p))

abbrev pub put_observed : String → List String → Map (List String) → Map (List String)
put_observed observer_id [] m = delete observer_id m
put_observed observer_id (id ∷ ids) m = set observer_id (id ∷ ids) m

-- The last loop: the stores that are known to be online.
abbrev put_online_all : List PresencePayload → Map Bool → Map Bool
put_online_all [] m = m
put_online_all (item ∷ items) m =
    put_online_all items (if item.online then set item.store_id true m else m)

abbrev pub observed_ids : List PresencePayload → List String
observed_ids [] = []
observed_ids (item ∷ items) =
    let rest = observed_ids items in if item.store_id == "" then rest else item.store_id ∷ rest

abbrev pub observe_ids : String → List String → Service → Service
observe_ids observer_id next p =
    let previous = ids_or_empty (get observer_id p.observed_store_ids_by_observer) in
    let p' = add_new previous next (remove_missing next previous p) in
    record p' {
      observed_store_ids_by_observer =
          put_observed observer_id next p'.observed_store_ids_by_observer;
    }

unfoldable pub set_observed_presence : String → List PresencePayload → Service → Service
set_observed_presence observer_id presence p =
    let p' = observe_ids observer_id (dedupe (observed_ids presence)) p in
    record p' {
      authoritative_online_by_store = put_online_all presence p'.authoritative_online_by_store;
    }

abbrev pub remove_all : List String → Service → Service
remove_all [] p = p
remove_all (id ∷ ids) p = remove_all ids (remove_store_observer id p)

abbrev pub clear_found : String → Option (List String) → Service → Service
clear_found observer_id none p = p
clear_found observer_id (some ids) p = remove_all ids (record p {
  observed_store_ids_by_observer = delete observer_id p.observed_store_ids_by_observer;
})

unfoldable pub clear_observer : String → Service → Service
clear_observer observer_id p =
    clear_found observer_id (get observer_id p.observed_store_ids_by_observer) p
