-- ===== src/Tests/Caching.antt =====
-- The cache at concrete inputs.
use driveparts_websockets.Prelude.{
  ℕ, ◌≡◌, ◌≢◌, eq_iff, refl, true, false, none, some, List, [], ◌∷◌, String, ◌==◌, eqb, arith,
  if◌then◌else◌,
}
use driveparts_websockets.Prelude.Maps.{get}
use driveparts_websockets.Config.{AppConfig}
use driveparts_websockets.SyncCache.{
  version_at, Run, Around, mget, attempts, maximum_attempts, get_or_load, load_versioned,
  bump_version_script,
}
use driveparts_websockets.SyncCache.Bound.{Within, get_or_load-Within}
use driveparts_websockets.SyncCache.Stale.{bumped_load_dropped}
use driveparts_websockets.SyncCache.Hit.{IsAlone, attempts_twice}

-- Settings under which the cache is used.
abbrev cached : AppConfig
cached = record {
  ecommerce_customer_rate_limit_window_seconds = 10;
  ecommerce_customer_rate_limit_max = 2;
  redis_socket_presence_time_to_live_seconds = 60;
  presence_persist_interval_seconds = 60;
  redis_key_prefix = "dp";
  redis_sync_cache_time_to_live_seconds = 30;
  socket_enforce_permissions = true;
  socket_max_in_flight_events = 2;
  max_chat_message_length = 100;
}

-- The value is a text, JSON is the text itself, and the loader gives "old" at first.
abbrev quiet : Around String
quiet = record {
  others = λ i kv. kv;
  fails = λ i. false;
  loader = λ i. if eqb i 2 then "old" else "new";
  in_flight = λ i key. none;
  parse = some;
  print = λ v. v;
}

-- Before the command number 2, the write, another process bumps the version "k" to "u".
abbrev disturbed : Around String
disturbed = record quiet { others = λ i kv. if eqb i 2 then bump_version_script "k" "u" [] else kv }

abbrev empty : Run
empty = record { kv = []; sent = 0; loads = 0 }

abbrev loading : Run
loading = record { kv = []; sent = 2; loads = 0 }

abbrev no_bytes : String → List ℕ
no_bytes s = []

abbrev one_hash : List ℕ → String
one_hash bytes = "h"

abbrev one_key : List String → String
one_key versions = "c"

get_or_load-Within_example :
    Within 4 12 empty
      (get_or_load cached no_bytes one_hash quiet true "n" ("s" ∷ []) ("v" ∷ []) empty).0
get_or_load-Within_example =
    get_or_load-Within cached no_bytes one_hash quiet true "n" ("s" ∷ []) ("v" ∷ []) empty

is_new : "u" ≢ version_at [] "k"
unfolding get
is_new e = let same : ("u" == "0") ≡ true = (eq_iff "u" "0").1 e in absurd (ground arith)

none_yet : get {V = String} "c" [] ≡ none
unfolding get
none_yet = refl

bumped_load_dropped_example :
    load_versioned disturbed "c" ("k" ∷ []) (mget ("k" ∷ []) []) loading ≡ (
      record { kv = bump_version_script "k" "u" []; sent = 3; loads = 1 },
      record { value = "old"; stale = true },
    )
bumped_load_dropped_example =
    bumped_load_dropped disturbed "c" "k" "u" ("k" ∷ []) [] [] loading refl refl refl refl is_new

alone : IsAlone quiet
alone = record { others = λ i kv. refl; fails = λ i. refl; in_flight = λ i key. refl }

attempts_twice_example :
    let once = attempts quiet one_key ("k" ∷ []) maximum_attempts empty in
    let twice = attempts quiet one_key ("k" ∷ []) maximum_attempts once.0 in
    (once.1 ≡ "old") × (twice.1 ≡ once.1) × (twice.0.loads ≡ 1)
attempts_twice_example =
    attempts_twice quiet one_key ("k" ∷ []) empty alone (λ v. refl) refl none_yet
