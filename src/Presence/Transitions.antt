-- ===== src/Presence/Transitions.antt =====
-- When a connection or its end is announced as a change of its store's presence.
use driveparts_websockets.Prelude.{
  ℕ, ◌+◌, ◌≤◌, ◌≡◌, refl, ap, Bool, not, ◌&&◌, ◌||◌, Option, none, some, [], ◌∷◌, String, arith,
  ltb, any, keep, length,
}
use driveparts_websockets.Prelude.Maps.{get}
use driveparts_websockets.Redis.{Zset, at_most, out_of_range, is_member, is_other}
use driveparts_websockets.RateLimiter.{answering}
use driveparts_websockets.Presence.{
  Shared, later_seen, LocalSocket, Service, Context, ttl_ms, member_of, register, unregister,
  register_presence_script, unregister_presence_script, mark_tracking_changed,
}

-- The member counts at the time: its own time is later.
abbrev pub counts : ℕ → String × ℕ → Bool
counts now e = out_of_range (at_most now) e

-- Another member than `m` that counts.
abbrev pub other_counts : ℕ → String → String × ℕ → Bool
other_counts now m e = is_other m e && counts now e

-- A store that was never seen comes before any time.
abbrev pub seen_rank : Option ℕ → ℕ
seen_rank none = 0
seen_rank (some at) = at + 1

later_seen-rank : (now : ℕ) (o : Option ℕ) → seen_rank o ≤ seen_rank (later_seen now o)
later_seen-rank now none = omega arith
later_seen-rank now (some previous) = ground arith

some_kept : (p : String × ℕ → Bool) (zs : Zset) → ltb 0 (length (keep p zs)) ≡ any p zs
some_kept p [] = refl
some_kept p (e ∷ zs) = ground (arith, some_kept p zs)

some_kept_twice :
    (now : ℕ) (m : String) (zs : Zset)
    → ltb 0 (length (keep (counts now) (keep (is_other m) zs))) ≡ any (other_counts now m) zs
some_kept_twice now m [] = refl
some_kept_twice now m (e ∷ zs) = ground (arith, some_kept_twice now m zs)

counts_kept :
    (now : ℕ) (m : String) (zs : Zset)
    → any (counts now) (keep (is_other m) (keep (counts now) zs)) ≡ any (other_counts now m) zs
counts_kept now m [] = refl
counts_kept now m (e ∷ zs) = ground (arith, counts_kept now m zs)

counts_after :
    (now ttl : ℕ) (m : String) (zs : Zset)
    → (counts now (m, now + ttl) || any (counts now) (keep (is_other m) (keep (counts now) zs)))
      ≡ (ltb 0 ttl || any (other_counts now m) zs)
counts_after now ttl m zs = rw (counts_kept now m zs) (ground arith)

-- A socket of a store connects while Redis answers: the change is announced exactly if no member of
-- the store counted, afterwards one counts if the time to live is positive or another member counted,
-- and the time the store was last seen has not gone back.
pub register_changed :
    (c : Context) (store_id socket_id : String) (p : Service) (s : Shared)
    → c.connection ≡ answering
    → let (p', s', r) = register c store_id socket_id p s in
      (r.changed ≡ not (any (counts c.server_now) s.members))
      × (any (counts c.server_now) s'.members ≡ (
          ltb 0 (ttl_ms c.config)
          || any (other_counts c.server_now (member_of p socket_id)) s.members))
      × (seen_rank s.last_seen ≤ seen_rank s'.last_seen)
unfolding register register_presence_script mark_tracking_changed
register_changed c store_id socket_id p s h =
    rw (h, c.redis.zremrangebyscore_lem, c.redis.zcard_lem, c.redis.zadd_lem)
      (
        ap not (some_kept (counts c.server_now) s.members),
        counts_after c.server_now (ttl_ms c.config) (member_of p socket_id) s.members,
        later_seen-rank c.server_now s.last_seen,
      )

-- A socket that this server knows ends while Redis answers: the change is announced exactly if its
-- member was there and no other member of the store counts, the store is reported online exactly if
-- another member counts, its set keeps just the other members that count, and the time it was last
-- seen has not gone back.
pub unregister_changed :
    (c : Context) (store_id socket_id : String) (socket : LocalSocket) (p : Service) (s : Shared)
    → c.connection ≡ answering
    → get socket_id p.local_sockets ≡ some socket
    → let (p', s', r) = unregister c store_id socket_id p s in
      (r.changed ≡ (
        any (is_member socket.member_id) s.members
        && not (any (other_counts c.server_now socket.member_id) s.members)))
      × (r.presence.online ≡ any (other_counts c.server_now socket.member_id) s.members)
      × (s'.members ≡ keep (counts c.server_now) (keep (is_other socket.member_id) s.members))
      × (seen_rank s.last_seen ≤ seen_rank s'.last_seen)
unfolding unregister unregister_presence_script
unregister_changed c store_id socket_id socket p s h known =
    rw
      (
        h,
        known,
        c.redis.zrem_lem,
        c.redis.zremrangebyscore_lem,
        c.redis.zcard_lem,
        some_kept_twice c.server_now socket.member_id s.members,
        some_kept (is_member socket.member_id) s.members,
      )
      (refl, refl, refl, later_seen-rank c.server_now s.last_seen)
