-- ===== src/RateLimiter.antt =====
-- src/services/customer_rate_limiter.ts: how many messages a customer may send. With Redis the limit
-- is a sliding window kept by a script, without it a fixed window for each scope in a local map.
-- `now` is the clock in milliseconds.
pub mod Sliding
pub mod Local
pub mod Trim
use driveparts_websockets.Prelude.{
  ℕ, suc, ◌+◌, ◌-◌, ◌*◌, ◌/◌, Bool, true, false, not, ◌&&◌, ◌||◌, Option, none, some, List, [], ◌∷◌,
  String, leb, ltb, ◌==◌, if◌then◌else◌, length, min, max,
}
use driveparts_websockets.Prelude.Maps.{Map, get, set, delete}
use driveparts_websockets.Redis.{SortedSets, Zset, minus}
use driveparts_websockets.Config.{AppConfig}

pub record RateLimitResult : Type 0 where
  pub allowed : Bool
  pub remaining : ℕ
  pub retry_after_seconds : ℕ
  pub unavailable : Bool

pub record LocalWindow : Type 0 where
  pub count : ℕ
  pub reset_at : ℕ

-- The fields of the class that change, and the times of its warnings in the log.
pub record Limiter : Type 0 where
  pub local_windows : Map LocalWindow
  pub last_redis_warning_at : ℕ
  pub warnings : List ℕ

-- What the Redis client is for one call.
pub data Connection : Type 0 where
  -- No client was configured.
  absent : Connection
  -- Its status is not `ready`.
  not_ready : Connection
  -- The call of the script throws.
  failing : Connection
  answering : Connection

-- `Math.ceil(ms / 1000)`
abbrev pub seconds_up : ℕ → ℕ
seconds_up ms = (ms + 999) / 1000

abbrev pub window_ms : AppConfig → ℕ
window_ms config = config.ecommerce_customer_rate_limit_window_seconds * 1000

-- `math.max(1, window_ms - (now_ms - score))` for the oldest member.
abbrev retry_after_ms : ℕ → ℕ → Option (String × ℕ) → ℕ
retry_after_ms now window none = window
retry_after_ms now window (some (_, score)) = max 1 (window + score - now)

-- The script: the set after it, and the three numbers that it returns.
unfoldable pub consume_rate_limit_script : SortedSets → ℕ → ℕ → ℕ → String → Zset → Zset × ℕ × ℕ × ℕ
consume_rate_limit_script redis now window limit member zs =
    let (recent, _) = redis.zremrangebyscore (minus now window) zs in
    let count = redis.zcard recent in
    if leb limit count
    then (recent, 0, 0, retry_after_ms now window (redis.zfirst recent))
    else (redis.zadd now member recent, 1, limit - count - 1, 0)

unfoldable unavailable_result : AppConfig → RateLimitResult
unavailable_result config = record {
  allowed = false;
  remaining = 0;
  retry_after_seconds = min 5 config.ecommerce_customer_rate_limit_window_seconds;
  unavailable = true;
}

unfoldable warn_redis_failure : ℕ → Limiter → Limiter
warn_redis_failure now l =
    if ltb now (l.last_redis_warning_at + 30000)
    then l
    else record l { last_redis_warning_at = now; warnings = now ∷ l.warnings }

abbrev pub maximum_local_scopes : ℕ
maximum_local_scopes = 10000

-- The loop over the map: `size` is the map's size and `inspected` the entries seen.
unfoldable pub sweep : ℕ → ℕ → ℕ → Map LocalWindow → Map LocalWindow
sweep now inspected size [] = []
sweep now inspected size ((scope, window) ∷ rest) =
    let size' = if leb window.reset_at now then size - 1 else size in
    let stop = leb 1000 (inspected + 1) || leb size' maximum_local_scopes in
    let swept = sweep now (inspected + 1) size' rest in
    let after = if stop then rest else swept in
    if leb window.reset_at now then after else (scope, window) ∷ after

-- `while (size > maximum_local_scopes)`: the oldest scope goes; an empty scope would end the loop.
unfoldable pub drop_oldest : Map LocalWindow → Map LocalWindow
drop_oldest [] = []
drop_oldest ((scope, window) ∷ rest) =
    if ltb maximum_local_scopes (length ((scope, window) ∷ rest)) && not (scope == "")
    then drop_oldest rest
    else (scope, window) ∷ rest

unfoldable pub trim_local_windows : ℕ → Map LocalWindow → Map LocalWindow
trim_local_windows now m =
    if leb (length m) maximum_local_scopes then m else drop_oldest (sweep now 0 (length m) m)

-- A window that is missing or over is replaced by a new one.
abbrev pub current_window : ℕ → ℕ → Option LocalWindow → LocalWindow
current_window now window none = record { count = 0; reset_at = now + window }
current_window now window (some w) =
    if leb w.reset_at now then record { count = 0; reset_at = now + window } else w

abbrev pub counted : LocalWindow → LocalWindow
counted w = record w { count = w.count + 1 }

unfoldable pub consume_local :
    AppConfig → ℕ → String → Map LocalWindow → Map LocalWindow × RateLimitResult
consume_local config now scope m =
    let window = current_window now (window_ms config) (get scope m) in
    if leb config.ecommerce_customer_rate_limit_max window.count
    then (
      set scope window m,
      record {
        allowed = false;
        remaining = 0;
        retry_after_seconds = max 1 (seconds_up (window.reset_at - now));
        unavailable = false;
      },
    )
    else (
      trim_local_windows now (set scope (counted window) (delete scope m)),
      record {
        allowed = true;
        remaining = config.ecommerce_customer_rate_limit_max - (window.count + 1);
        retry_after_seconds = 0;
        unavailable = false;
      },
    )

-- `Number(result[0]) === 1`
abbrev pub is_one : ℕ → Bool
is_one (suc ℕ.zero) = true
is_one _ = false

abbrev result_of : ℕ × ℕ × ℕ → RateLimitResult
result_of r = record {
  allowed = is_one r.0;
  remaining = r.1;
  retry_after_seconds = seconds_up r.2;
  unavailable = false;
}

-- One call: the object, the scope's sorted set on the server, and the answer. `member` is
-- randomUUID(), and `server_now` the server's clock.
unfoldable consume :
    SortedSets
    → AppConfig
    → Connection
    → ℕ
    → ℕ
    → String
    → String
    → Limiter
    → Zset
    → Limiter × Zset × RateLimitResult
consume redis config absent now server_now scope member l zs =
    let (m, r) = consume_local config now scope l.local_windows in
    (record l { local_windows = m }, zs, r)
consume redis config not_ready now server_now scope member l zs =
    (warn_redis_failure now l, zs, unavailable_result config)
consume redis config failing now server_now scope member l zs =
    (warn_redis_failure now l, zs, unavailable_result config)
consume redis config answering now server_now scope member l zs =
    let (zs', a, b, c) =
      consume_rate_limit_script redis server_now (window_ms config)
        config.ecommerce_customer_rate_limit_max member zs in
    (l, zs', result_of (a, b, c))
