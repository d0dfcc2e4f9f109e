-- ===== src/Tests/Limits.antt =====
-- The rate limiter and the work tracker at concrete inputs.
use driveparts_websockets.Prelude.{
  ◌+◌, ◌≢◌, ◌⊎◌, ◌+◌, ◌≤◌, ◌<◌, ◌≡◌, ◌↔◌, refl, Bool, true, none, some, [], ◌∷◌, arith, tally,
}
use driveparts_websockets.Prelude.Maps.{Map, get, set}
use driveparts_websockets.Config.{AppConfig}
use driveparts_websockets.Redis.{server, Zset}
use driveparts_websockets.RateLimiter.{LocalWindow, consume_rate_limit_script, consume_local}
use driveparts_websockets.RateLimiter.Sliding.{
  Requests, start, request, admitted_within, sliding_limit,
}
use driveparts_websockets.Ack.{error, retryable}
use driveparts_websockets.Work
use driveparts_websockets.Work.{Tracker, run_event, receive_event, begin_drain}
use driveparts_websockets.Work.Counts.{
  Reach, here, next, event, running, IsCounted, Reach-IsCounted,
}
use driveparts_websockets.Work.Drain.{receive_event_starts_iff}

abbrev config : AppConfig
config = record {
  ecommerce_customer_rate_limit_window_seconds = 60;
  ecommerce_customer_rate_limit_max = 1;
  redis_socket_presence_time_to_live_seconds = 90;
  presence_persist_interval_seconds = 60;
  redis_key_prefix = "dp";
  redis_sync_cache_time_to_live_seconds = 30;
  socket_enforce_permissions = true;
  socket_max_in_flight_events = 1;
  max_chat_message_length = 4000;
}

-- A limit of one request a minute: the second of two requests is refused.
abbrev after_one : Zset
after_one = ("m1", 100) ∷ []

first_request : consume_rate_limit_script server 100 60000 1 "m1" [] ≡ (after_one, 1, 0, 0)
unfolding consume_rate_limit_script
first_request = refl

second_request :
    consume_rate_limit_script server 1100 60000 1 "m2" after_one ≡ (after_one, 0, 0, 59000)
unfolding consume_rate_limit_script
second_request = refl

one : Requests server 60000 1 after_one (100 ∷ []) 100
unfolding consume_rate_limit_script
one = request 100 "m1" start (omega arith) refl refl refl

two : Requests server 60000 1 after_one (100 ∷ []) 1100
unfolding consume_rate_limit_script
two = request 1100 "m2" one (omega arith) refl refl refl

sliding_limit_example : tally (admitted_within 60000 2000) (100 ∷ []) ≤ 1
sliding_limit_example = sliding_limit server 60000 1 2000 two (omega arith)

abbrev windows : Map LocalWindow
windows = ("v1", record { count = 1; reset_at = 5000 }) ∷ []

refused_locally : (consume_local config 1000 "v1" windows).1.retry_after_seconds ≡ 4
unfolding consume_local get
refused_locally = refl

allowed_locally : (consume_local config 1000 "v2" windows).1.allowed ≡ true
unfolding consume_local get
allowed_locally = refl

-- With one event at a time, a socket's second event is refused.
abbrev busy_tracker : Tracker
busy_tracker = (run_event 1 "a" 1 Work.start).0

Reach-busy : Reach 1 Work.start busy_tracker
Reach-busy = next here (event "a" 1 refl)

Reach-IsCounted_example : IsCounted 1 busy_tracker
Reach-IsCounted_example = Reach-IsCounted Reach-busy

receive_event_starts_iff_example :
    let (after, refusal) = receive_event true 1 "a" 2 busy_tracker in
    ((refusal ≡ none) ↔ (
      (◌≡◌ {A = Bool} true true)
      × (busy_tracker.accepting_events ≡ true)
      × (running "a" busy_tracker < 1)))
    × (((refusal ≡ none) × (running "a" after ≡ running "a" busy_tracker + 1))
        ⊎ ((refusal ≢ none) × (after ≡ busy_tracker)))
receive_event_starts_iff_example = receive_event_starts_iff 1 busy_tracker true "a" 2 Reach-busy

second_event :
    (receive_event true 1 "a" 2 busy_tracker).1
    ≡ some (error "busy" "too_many_in_flight_events" retryable)
unfolding receive_event run_event get set
second_event = refl

abbrev draining : Tracker
draining = (run_event 1 "a" 2 (begin_drain busy_tracker)).0
