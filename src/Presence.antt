-- ===== src/Presence.antt =====
-- src/services/presence_service.ts: which stores have a connected socket, and when each was last seen.
-- The servers share one sorted set for each store, of members with the time until which they count,
-- and the time the store was last seen. Times are milliseconds.
pub mod Transitions
pub mod Observers
pub mod Counted
pub mod Watched
pub mod Reached
use Prim.Native.String
use driveparts_websockets.Prelude.{
  ℕ, zero, suc, ◌+◌, ◌*◌, Bool, true, false, not, ◌&&◌, Option, none, some, List, [], ◌∷◌, ◌++◌,
  String, ◌==◌, leb, ltb, if◌then◌else◌, contains, keep, length, max,
}
use driveparts_websockets.Prelude.Maps.{Map, get, set, delete}
use driveparts_websockets.Config.{AppConfig}
use driveparts_websockets.Redis.{SortedSets, Zset, at_most}
use driveparts_websockets.RateLimiter.{Connection, absent, not_ready, failing, answering}

-- The two keys of a store on the server.
pub record Shared : Type 0 where
  pub members : Zset
  pub last_seen : Option ℕ

-- `if not previous_seen_ms or now_ms >= previous_seen_ms then SET`
abbrev pub later_seen : ℕ → Option ℕ → Option ℕ
later_seen now none = some now
later_seen now (some previous) = if leb previous now then some now else some previous

module _ (redis : SortedSets) where
  -- The state, and `was_online`.
  unfoldable pub register_presence_script : ℕ → ℕ → String → Shared → Shared × ℕ
  register_presence_script now ttl member s =
      let (live, _) = redis.zremrangebyscore (at_most now) s.members in
      (
        record {
          members = redis.zadd (now + ttl) member live;
          last_seen = later_seen now s.last_seen;
        },
        redis.zcard live,
      )

  -- The state, `removed` and `remaining`; a set without members is no key.
  unfoldable pub unregister_presence_script : ℕ → String → Shared → Shared × ℕ × ℕ
  unregister_presence_script now member s =
      let (others, removed) = redis.zrem member s.members in
      let (live, _) = redis.zremrangebyscore (at_most now) others in
      (record { members = live; last_seen = later_seen now s.last_seen }, removed, redis.zcard live)

  abbrev zadd_all : ℕ → List String → Zset → Zset
  zadd_all score [] zs = zs
  zadd_all score (m ∷ ms) zs = zadd_all score ms (redis.zadd score m zs)

  -- The state, `online_before_local_refresh` and `online_after_refresh`.
  unfoldable refresh_presence_script : ℕ → ℕ → List String → Shared → Shared × ℕ × ℕ
  refresh_presence_script now ttl members s =
      let (live, expired) = redis.zremrangebyscore (at_most now) s.members in
      let refreshed = zadd_all (now + ttl) members live in
      (
        record {
          members = refreshed;
          last_seen =
              if ltb 0 (redis.zcard refreshed)
              then later_seen now s.last_seen
              else if ltb 0 expired
              then later_seen now s.last_seen
              else s.last_seen;
        },
        redis.zcard live,
        redis.zcard refreshed,
      )

unfoldable cache_last_seen_if_newer_script : ℕ → Shared → Shared
cache_last_seen_if_newer_script candidate s = record s {
  last_seen = later_seen candidate s.last_seen;
}

pub record LocalSocket : Type 0 where
  pub member_id : String
  pub store_id : String

pub record PresencePayload : Type 0 where
  pub store_id : String
  pub online : Bool
  pub last_seen_at : Option ℕ

pub record Transition : Type 0 where
  pub changed : Bool
  pub presence : PresencePayload

-- The fields of the service that connections and observers change. A connection and its end schedule
-- a write of the time to the database, which is not modelled.
pub record Service : Type 0 where
  pub instance_id : String
  pub local_socket_ids_by_store : Map (List String)
  pub local_sockets : Map LocalSocket
  pub local_last_seen_at : Map ℕ
  pub authoritative_online_by_store : Map Bool
  pub observed_store_ids_by_observer : Map (List String)
  pub observer_count_by_store : Map ℕ
  pub tracking_generation_by_store : Map ℕ
  pub next_tracking_generation : ℕ

abbrev pub time_or_zero : Option ℕ → ℕ
time_or_zero none = 0
time_or_zero (some at) = at

abbrev monotonic_local_time : ℕ → String → Service → ℕ
monotonic_local_time clock store_id p = max clock (time_or_zero (get store_id p.local_last_seen_at))

unfoldable pub mark_tracking_changed : String → Service → Service
mark_tracking_changed store_id p =
    let next = p.next_tracking_generation + 1 in
    record p {
      next_tracking_generation = next;
      tracking_generation_by_store = set store_id next p.tracking_generation_by_store;
    }

abbrev pub is_there {ℓ} : {A : Type ℓ} → Option A → Bool
is_there none = false
is_there (some _) = true

abbrev pub is_store_tracked : String → Service → Bool
is_store_tracked store_id p =
    if is_there (get store_id p.local_socket_ids_by_store)
    then true
    else if is_there (get store_id p.observer_count_by_store)
    then true
    else is_there (get store_id p.authoritative_online_by_store)

unfoldable pub prune_tracking_generation : String → Service → Service
prune_tracking_generation store_id p =
    if is_store_tracked store_id p
    then p
    else record p { tracking_generation_by_store = delete store_id p.tracking_generation_by_store }

abbrev pub ids_or_empty : Option (List String) → List String
ids_or_empty none = []
ids_or_empty (some ids) = ids

-- `Set.add`
abbrev pub add_id : String → List String → List String
add_id id ids = if contains id ids then ids else ids ++ id ∷ []

abbrev pub ttl_ms : AppConfig → ℕ
ttl_ms config = config.redis_socket_presence_time_to_live_seconds * 1000

-- What a call works with: the settings, the server's commands, the state of the client, the clock and
-- the server's clock, which is past 0.
pub record Context : Type 0 where
  pub config : AppConfig
  pub redis : SortedSets
  pub connection : Connection
  pub clock : ℕ
  pub server_now : ℕ

abbrev pub member_of : Service → String → String
member_of p socket_id = String.◌++◌ p.instance_id (String.◌++◌ ":" socket_id)

abbrev registered : String → Bool → Bool → ℕ → Service → Service × Transition
registered store_id authoritative was_online seen_at p = (
  record p { local_last_seen_at = set store_id seen_at p.local_last_seen_at },
  record {
    changed = authoritative && not was_online;
    presence = record { store_id = store_id; online = true; last_seen_at = some seen_at };
  },
)

abbrev register_with :
    Context
    → Connection
    → String
    → String
    → Bool
    → ℕ
    → Service
    → Shared
    → Service × Shared × Transition
register_with c absent store_id socket_id was_online seen_at p s =
    let (p', r) = registered store_id true was_online seen_at p in (p', s, r)
register_with c not_ready store_id socket_id was_online seen_at p s =
    let (p', r) = registered store_id false was_online seen_at p in (p', s, r)
register_with c failing store_id socket_id was_online seen_at p s =
    let (p', r) = registered store_id false was_online seen_at p in (p', s, r)
register_with c answering store_id socket_id was_online seen_at p s =
    let (s', live) =
      register_presence_script c.redis c.server_now (ttl_ms c.config) (member_of p socket_id) s in
    let p' = record p {
      authoritative_online_by_store = set store_id true p.authoritative_online_by_store;
    } in
    let (p'', r) = registered store_id true (ltb 0 live) c.server_now p' in (p'', s', r)

unfoldable pub register :
    Context → String → String → Service → Shared → Service × Shared × Transition
register c store_id socket_id p s =
    let ids = ids_or_empty (get store_id p.local_socket_ids_by_store) in
    let p' = mark_tracking_changed store_id (record p {
      local_socket_ids_by_store = set store_id (add_id socket_id ids) p.local_socket_ids_by_store;
      local_sockets =
          set socket_id (record { member_id = member_of p socket_id; store_id = store_id })
            p.local_sockets;
    }) in
    register_with c c.connection store_id socket_id (ltb 0 (length ids))
      (monotonic_local_time c.clock store_id p) p' s

abbrev of_store : String → Option LocalSocket → Bool
of_store store_id none = false
of_store store_id (some socket) = socket.store_id == store_id

-- `locally_removed`
abbrev removes_locally : String → String → Service → Bool
removes_locally store_id socket_id p =
    of_store store_id (get socket_id p.local_sockets)
    && contains socket_id (ids_or_empty (get store_id p.local_socket_ids_by_store))

abbrev remaining_ids : String → Bool → List String → List String
remaining_ids socket_id removed ids = if removed then keep (λ i. not (i == socket_id)) ids else ids

-- The ids after the removal; a store without a socket has no entry.
abbrev put_ids : String → List String → Option (List String) → Map (List String) → Map (List String)
put_ids store_id ids none m = m
put_ids store_id [] (some _) m = delete store_id m
put_ids store_id (id ∷ ids) (some _) m = set store_id (id ∷ ids) m

abbrev unregistered : String → Bool → Bool → Bool → ℕ → Service → Service × Transition
unregistered store_id authoritative changed online seen_at p = (
  prune_tracking_generation store_id
      (record p { local_last_seen_at = set store_id seen_at p.local_last_seen_at }),
  record {
    changed = authoritative && changed;
    presence = record { store_id = store_id; online = online; last_seen_at = some seen_at };
  },
)

abbrev put_online : String → Bool → Map Bool → Map Bool
put_online store_id true m = set store_id true m
put_online store_id false m = delete store_id m

abbrev unregister_with :
    Context
    → Connection
    → String
    → Option LocalSocket
    → Bool
    → Bool
    → ℕ
    → Service
    → Shared
    → Service × Shared × Transition
unregister_with c answering store_id (some socket) changed online seen_at p s =
    let (s', removed, remaining) =
      unregister_presence_script c.redis c.server_now socket.member_id s in
    let online' = ltb 0 remaining in
    let p' = record p {
      authoritative_online_by_store = put_online store_id online' p.authoritative_online_by_store;
    } in
    let (p'', r) =
      unregistered store_id true (ltb 0 removed && not online') online' c.server_now p' in
    (p'', s', r)
unregister_with c absent store_id socket changed online seen_at p s =
    let (p', r) = unregistered store_id true changed online seen_at p in (p', s, r)
unregister_with c _ store_id socket changed online seen_at p s =
    let (p', r) = unregistered store_id false changed online seen_at p in (p', s, r)

unfoldable pub unregister :
    Context → String → String → Service → Shared → Service × Shared × Transition
unregister c store_id socket_id p s =
    let removed = removes_locally store_id socket_id p in
    let before = get store_id p.local_socket_ids_by_store in
    let ids = remaining_ids socket_id removed (ids_or_empty before) in
    let p' = record p {
      local_sockets = delete socket_id p.local_sockets;
      local_socket_ids_by_store = put_ids store_id ids before p.local_socket_ids_by_store;
    } in
    let p'' = if removed then mark_tracking_changed store_id p' else p' in
    let online = ltb 0 (length ids) in
    unregister_with c c.connection store_id (get socket_id p.local_sockets) (removed && not online)
      online (monotonic_local_time c.clock store_id p) p'' s
