-- ===== src/SyncCache.antt =====
-- src/services/sync_cache.ts: the first answer to a client is cached in Redis under the versions of
-- what it was made from, and an invalidation gives a version a new random text. The expiry of keys is
-- the server's own and is not modelled.
pub mod Bound
pub mod Stale
pub mod Hit
use Prim.Native.String
use driveparts_websockets.Prelude.{
  ℕ, zero, suc, ◌+◌, Bool, true, false, not, ◌&&◌, Option, none, some, List, [], ◌∷◌, ◌++◌, String,
  ◌==◌, ltb, if◌then◌else◌, dedupe,
}
use driveparts_websockets.Prelude.Maps.{Map, get, set, delete}
use driveparts_websockets.Config.{AppConfig}

-- `redis.call('GET', key) or '0'`
abbrev text_or_zero : Option String → String
text_or_zero none = "0"
text_or_zero (some s) = s

abbrev pub version_at : Map String → String → String
version_at kv key = text_or_zero (get key kv)

-- The loop of the scripts: every version key has the version that was read.
abbrev pub versions_match : Map String → List String → List String → Bool
versions_match kv (key ∷ keys) (version ∷ versions) =
    version_at kv key == version && versions_match kv keys versions
versions_match kv _ _ = true

-- `none` is the answer { 0, false }.
unfoldable pub read_stable_cache_script :
    String → List String → List String → Map String → Option (Option String)
read_stable_cache_script cache_key version_keys versions kv =
    if versions_match kv version_keys versions then some (get cache_key kv) else none

unfoldable pub write_stable_cache_script :
    String → List String → List String → String → Map String → Map String × Bool
write_stable_cache_script cache_key version_keys versions text kv =
    if versions_match kv version_keys versions then (set cache_key text kv, true) else (kv, false)

unfoldable pub bump_version_script : String → String → Map String → Map String
bump_version_script version_key version kv = set version_key version kv

-- `mget`, with '0' for a key that is missing
abbrev pub mget : List String → Map String → List String
mget [] kv = []
mget (key ∷ keys) kv = version_at kv key ∷ mget keys kv

-- The server's data, how many commands were sent, and how often the loader was called.
pub record Run : Type 0 where
  pub kv : Map String
  pub sent : ℕ
  pub loads : ℕ

pub record VersionedLoadResult (T : Type 0) : Type 0 where
  pub value : T
  pub stale : Bool

-- What surrounds a call: `others i` is what other processes do before the command number i, `fails i`
-- says that this command throws, `loader i` is the value that the loader reads when i commands were
-- sent, `in_flight i` the answer of a load of the same key that is on its way then, and `parse` and
-- `print` are JSON.
pub record Around (T : Type 0) : Type 0 where
  pub others : ℕ → Map String → Map String
  pub fails : ℕ → Bool
  pub loader : ℕ → T
  pub in_flight : ℕ → String → Option (VersionedLoadResult T)
  pub parse : String → Option T
  pub print : T → String

module _ {T : Type 0} (around : Around T) where
  abbrev load : Run → Run × T
  load run = (record run { loads = run.loads + 1 }, around.loader run.sent)

  -- One command: others act, and it is sent.
  abbrev pub arrive : Run → Run
  arrive run = record run { kv = around.others run.sent run.kv; sent = run.sent + 1 }

  abbrev stored_result : Run → T → Map String × Bool → Run × VersionedLoadResult T
  stored_result run value (kv, stored) =
      (record run { kv = kv }, record { value = value; stale = not stored })

  abbrev write_loaded : String → List String → List String → T → Run → Run × VersionedLoadResult T
  write_loaded cache_key version_keys versions value run =
      if around.fails run.sent
      then (arrive run, record { value = value; stale = false })
      else stored_result (arrive run) value (
          write_stable_cache_script cache_key version_keys versions (around.print value)
            (arrive run).kv)

  abbrev pub load_unless :
      Option (VersionedLoadResult T)
      → String
      → List String
      → List String
      → Run
      → Run × VersionedLoadResult T
  load_unless (some existing) cache_key version_keys versions run = (run, existing)
  load_unless none cache_key version_keys versions run =
      let (run', value) = load run in write_loaded cache_key version_keys versions value run'

  unfoldable pub load_versioned :
      String → List String → List String → Run → Run × VersionedLoadResult T
  load_versioned cache_key version_keys versions run =
      load_unless (around.in_flight run.sent cache_key) cache_key version_keys versions run

  abbrev pub unless_stale : (Run → Run × T) → Run × VersionedLoadResult T → Run × T
  unless_stale again (run, result) = if result.stale then again run else (run, result.value)

  -- DEL is sent and not waited for; its failure is ignored.
  abbrev pub discard : String → Run → Run
  discard cache_key run =
      if around.fails run.sent
      then arrive run
      else record (arrive run) { kv = delete cache_key (arrive run).kv }

  -- A cached text is the answer if it is JSON; otherwise it is deleted and the value is loaded.
  abbrev pub use_parsed :
      (Run → Run × T) → String → List String → List String → Option T → Run → Run × T
  use_parsed again cache_key version_keys versions (some value) run = (run, value)
  use_parsed again cache_key version_keys versions none run =
      unless_stale again (load_versioned cache_key version_keys versions (discard cache_key run))

  abbrev pub use_cached :
      (Run → Run × T) → String → List String → List String → Option (Option String) → Run → Run × T
  use_cached again cache_key version_keys versions none run = again run
  use_cached again cache_key version_keys versions (some none) run =
      unless_stale again (load_versioned cache_key version_keys versions run)
  use_cached again cache_key version_keys versions (some (some text)) run =
      use_parsed again cache_key version_keys versions (around.parse text) run

  abbrev pub read_cached : (Run → Run × T) → String → List String → List String → Run → Run × T
  read_cached again cache_key version_keys versions run =
      if around.fails run.sent
      then load (arrive run)
      else use_cached again cache_key version_keys versions
          (read_stable_cache_script cache_key version_keys versions (arrive run).kv) (arrive run)

  -- The body of the loop; `key_of` is the cache key of the versions, `again` the rest of the loop.
  abbrev pub try_once : (List String → String) → List String → (Run → Run × T) → Run → Run × T
  try_once key_of version_keys again run =
      if around.fails run.sent
      then load (arrive run)
      else (let versions = mget version_keys (arrive run).kv in
          read_cached again (key_of versions) version_keys versions (arrive run))

  -- The loop, with the attempts that are left.
  unfoldable pub attempts : (List String → String) → List String → ℕ → Run → Run × T
  attempts key_of version_keys zero run = load run
  attempts key_of version_keys (suc n) run =
      try_once key_of version_keys (attempts key_of version_keys n) run

-- The bytes that `hash_parts` hashes: each part, and a zero byte after it.
abbrev terminated : (String → List ℕ) → List String → List ℕ
terminated bytes [] = []
terminated bytes (part ∷ parts) = bytes part ++ (0 ∷ terminated bytes parts)

-- `sha256` is the base64url text of the SHA-256 of the bytes.
unfoldable pub hash_parts : (String → List ℕ) → (List ℕ → String) → List String → String
hash_parts bytes sha256 parts = sha256 (terminated bytes parts)

abbrev pub maximum_attempts : ℕ
maximum_attempts = 3

abbrev pub cache_key :
    AppConfig → (String → List ℕ) → (List ℕ → String) → String → List String → String
cache_key config bytes sha256 namespace parts = String.◌++◌ config.redis_key_prefix (
    String.◌++◌ ":sync_cache:"
      (String.◌++◌ namespace (String.◌++◌ ":" (hash_parts bytes sha256 parts))))

abbrev pub version_key : AppConfig → String → String
version_key config scope =
    String.◌++◌ config.redis_key_prefix (String.◌++◌ ":sync_cache_version:" scope)

abbrev pub version_keys_of : AppConfig → List String → List String
version_keys_of config [] = []
version_keys_of config (scope ∷ scopes) = version_key config scope ∷ version_keys_of config scopes

-- `ready` is that the client is there and its status is ready.
unfoldable pub cache_available : AppConfig → Bool → Bool
cache_available config ready = ready && ltb 0 config.redis_sync_cache_time_to_live_seconds

module _ (config : AppConfig) (bytes : String → List ℕ) (sha256 : List ℕ → String) where
  unfoldable pub get_or_load :
      {T : Type 0} → Around T → Bool → String → List String → List String → Run → Run × T
  get_or_load around ready namespace identity version_scopes run =
      if cache_available config ready
      then attempts around
          (λ versions. cache_key config bytes sha256 namespace (identity ++ versions))
          (version_keys_of config version_scopes) maximum_attempts run
      else load around run

  abbrev chat_version_scope : String → String
  chat_version_scope store_id = String.◌++◌ "chat:" (hash_parts bytes sha256 (store_id ∷ []))

  abbrev notification_store_version_scope : String → String
  notification_store_version_scope store_id =
      String.◌++◌ "notification_store:" (hash_parts bytes sha256 (store_id ∷ []))

  abbrev notification_user_version_scope : String → String → String
  notification_user_version_scope store_id user_id =
      String.◌++◌ "notification_user:" (hash_parts bytes sha256 (store_id ∷ user_id ∷ []))

  abbrev ecommerce_version_scope : String → String → String
  ecommerce_version_scope store_id visitor_id =
      String.◌++◌ "ecommerce:" (hash_parts bytes sha256 (store_id ∷ visitor_id ∷ []))

  unfoldable get_store_initial_sync :
      {T : Type 0} → Around T → Bool → String → String → String → Run → Run × T
  get_store_initial_sync around ready store_id user_id user_role run =
      get_or_load around ready "store_initial" (store_id ∷ user_id ∷ user_role ∷ [])
        (chat_version_scope store_id
          ∷ notification_store_version_scope store_id
          ∷ notification_user_version_scope store_id user_id
          ∷ [])
        run

  unfoldable get_ecommerce_customer_initial_sync :
      {T : Type 0} → Around T → Bool → String → String → Run → Run × T
  get_ecommerce_customer_initial_sync around ready store_id visitor_id run =
      get_or_load around ready "ecommerce_customer_initial" (store_id ∷ visitor_id ∷ [])
        (ecommerce_version_scope store_id visitor_id ∷ []) run

  -- `version i` is the random text of the i-th scope; the scripts run one after another.
  unfoldable pub bump_all : (ℕ → String) → ℕ → List String → Map String → Map String
  bump_all version i [] kv = kv
  bump_all version i (scope ∷ scopes) kv =
      bump_all version (i + 1) scopes
        (bump_version_script (version_key config scope) (version i) kv)

  unfoldable pub bump_versions : Bool → (ℕ → String) → List String → Map String → Map String
  bump_versions ready version scopes kv =
      if cache_available config ready then bump_all version 0 scopes kv else kv

  abbrev chat_scopes : List String → List String
  chat_scopes [] = []
  chat_scopes (id ∷ ids) =
      let rest = chat_scopes ids in if id == "" then rest else chat_version_scope id ∷ rest

  unfoldable pub invalidate_chat : Bool → (ℕ → String) → List String → Map String → Map String
  invalidate_chat ready version store_ids kv =
      bump_versions ready version (chat_scopes (dedupe store_ids)) kv

  abbrev notification_scope : String → Option String → String
  notification_scope store_id none = notification_store_version_scope store_id
  notification_scope store_id (some user_id) =
      if user_id == ""
      then notification_store_version_scope store_id
      else notification_user_version_scope store_id user_id

  unfoldable pub invalidate_notification :
      Bool → (ℕ → String) → String → Option String → Map String → Map String
  invalidate_notification ready version store_id user_id kv =
      bump_versions ready version (notification_scope store_id user_id ∷ []) kv

  unfoldable pub invalidate_ecommerce :
      Bool → (ℕ → String) → String → String → Map String → Map String
  invalidate_ecommerce ready version store_id visitor_id kv =
      bump_versions ready version (ecommerce_version_scope store_id visitor_id ∷ []) kv
