-- ===== src/Tests/Presences.antt =====
-- The presence of a store at concrete inputs.
use driveparts_websockets.Prelude.{
  ◌≤◌, ◌≡◌, refl, true, not, ◌&&◌, ◌||◌, some, none, false, [], List, ◌∷◌, ltb, any, keep,
}
use driveparts_websockets.Prelude.Maps.{get}
use driveparts_websockets.Config.{AppConfig}
use driveparts_websockets.Redis.{server, is_member, is_other}
use driveparts_websockets.RateLimiter.{answering}
use driveparts_websockets.Presence.{
  Shared, LocalSocket, PresencePayload, Service, Context, ttl_ms, member_of, register, unregister,
}
use driveparts_websockets.Presence.Observers.{set_observed_presence, clear_observer}
use driveparts_websockets.Presence.Reached.{
  here, next, observes, leaves, IsWatched, Reach-IsWatched,
}
use driveparts_websockets.Presence.Transitions.{
  counts, other_counts, seen_rank, register_changed, unregister_changed,
}

abbrev settings : AppConfig
settings = record {
  ecommerce_customer_rate_limit_window_seconds = 60;
  ecommerce_customer_rate_limit_max = 1;
  redis_socket_presence_time_to_live_seconds = 90;
  presence_persist_interval_seconds = 60;
  redis_key_prefix = "dp";
  redis_sync_cache_time_to_live_seconds = 30;
  socket_enforce_permissions = true;
  socket_max_in_flight_events = 1;
  max_chat_message_length = 4000;
}

abbrev context : Context
context = record {
  config = settings;
  redis = server;
  connection = answering;
  clock = 1000;
  server_now = 1000;
}

abbrev one_socket : LocalSocket
one_socket = record { member_id = "i:a"; store_id = "s1" }

abbrev service : Service
service = record {
  instance_id = "i";
  local_socket_ids_by_store = ("s1", "a" ∷ []) ∷ [];
  local_sockets = ("a", one_socket) ∷ [];
  local_last_seen_at = [];
  authoritative_online_by_store = [];
  observed_store_ids_by_observer = [];
  observer_count_by_store = [];
  tracking_generation_by_store = [];
  next_tracking_generation = 0;
}

-- The member of the socket, and one whose time is over.
abbrev shared : Shared
shared = record { members = ("i:a", 2000) ∷ ("j:b", 500) ∷ []; last_seen = some 900 }

register_changed_example :
    let (p', s', r) = register context "s1" "c" service shared in
    (r.changed ≡ not (any (counts 1000) shared.members))
    × (any (counts 1000) s'.members ≡ (
        ltb 0 (ttl_ms settings) || any (other_counts 1000 (member_of service "c")) shared.members))
    × (seen_rank (some 900) ≤ seen_rank s'.last_seen)
register_changed_example = register_changed context "s1" "c" service shared refl

known : get "a" service.local_sockets ≡ some one_socket
unfolding get
known = refl

unregister_changed_example :
    let (p', s', r) = unregister context "s1" "a" service shared in
    (r.changed ≡ (
      any (is_member "i:a") shared.members && not (any (other_counts 1000 "i:a") shared.members)))
    × (r.presence.online ≡ any (other_counts 1000 "i:a") shared.members)
    × (s'.members ≡ keep (counts 1000) (keep (is_other "i:a") shared.members))
    × (seen_rank (some 900) ≤ seen_rank s'.last_seen)
unregister_changed_example =
    unregister_changed context "s1" "a" one_socket service shared refl known

abbrev both : List PresencePayload
both =
    record { store_id = "s1"; online = true; last_seen_at = none }
    ∷ record { store_id = "s2"; online = false; last_seen_at = none }
    ∷ []

Reach-IsWatched_example : IsWatched (
    clear_observer "o1" (set_observed_presence "o2" both (set_observed_presence "o1" both service)))
Reach-IsWatched_example =
    Reach-IsWatched service
      (clear_observer "o1"
        (set_observed_presence "o2" both (set_observed_presence "o1" both service)))
      refl refl (next (next (next here (observes "o1" both)) (observes "o2" both)) (leaves "o1"))
