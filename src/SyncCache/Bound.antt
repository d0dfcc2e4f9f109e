-- ===== src/SyncCache/Bound.antt =====
-- How much work one answer of the cache takes.
use driveparts_websockets.Prelude.{
  ℕ, zero, suc, ◌+◌, ◌*◌, ◌≤◌, ◌≡◌, refl, Bool, Option, none, some, List, ◌++◌, String, arith,
  Bool-cases, inl, inr,
}
use driveparts_websockets.Config.{AppConfig}
use driveparts_websockets.SyncCache.{
  Run, VersionedLoadResult, Around, arrive, discard, load_unless, load_versioned, unless_stale,
  use_parsed, use_cached, read_cached, try_once, attempts, maximum_attempts, cache_available,
  get_or_load, version_keys_of, cache_key, read_stable_cache_script, mget,
}

-- From `run` to `run'` the loader was called at most l times, and at most c commands were sent.
abbrev pub Within : ℕ → ℕ → Run → Run → Type 0
Within l c run run' = (run'.loads ≤ run.loads + l) × (run'.sent ≤ run.sent + c)

module _ {T : Type 0} (around : Around T) where
  load_versioned-Within :
      (key : String) (keys versions : List String) (run : Run)
      → Within 1 1 run (load_versioned around key keys versions run).0
  unfolding load_versioned
  load_versioned-Within key keys versions run = from_flight (around.in_flight run.sent key)
    where
      from_flight :
          (o : Option (VersionedLoadResult T))
          → Within 1 1 run (load_unless around o key keys versions run).0
      from_flight none = elim (Bool-cases (around.fails run.sent)) [
        | inl f ↦ rw f (omega arith, omega arith)
        | inr f ↦ rw f (omega arith, omega arith)
      ]
      from_flight (some r) = (omega arith, omega arith)

  discard-Within :
      (key : String) (run : Run)
      → ((discard around key run).loads ≡ run.loads)
        × ((discard around key run).sent ≡ run.sent + 1)
  discard-Within key run = elim (Bool-cases (around.fails run.sent)) [
    | inl f ↦ rw f (refl, refl)
    | inr f ↦ rw f (refl, refl)
  ]

  module _ (l c : ℕ) (again : Run → Run × T)
      (within : (run : Run) → Within l c run (again run).0) where
    unless_stale-Within :
        (run : Run) (o : Run × VersionedLoadResult T)
        → Within 1 1 run o.0
        → Within (l + 1) (c + 1) run (unless_stale around again o).0
    unless_stale-Within run (run', r) h = elim (Bool-cases r.stale) [
      | inl s ↦ rw s (let w = within run' in (omega arith, omega arith))
      | inr s ↦ rw s (omega arith, omega arith)
    ]

    use_cached-Within :
        (key : String) (keys versions : List String) (o : Option (Option String)) (run : Run)
        → Within (l + 1) (c + 2) run (use_cached around again key keys versions o run).0
    use_cached-Within key keys versions none run = let w = within run in (omega arith, omega arith)
    use_cached-Within key keys versions (some none) run =
        let w =
          unless_stale-Within run (load_versioned around key keys versions run)
            (load_versioned-Within key keys versions run) in
        (omega arith, omega arith)
    use_cached-Within key keys versions (some (some text)) run = from_parsed (around.parse text)
      where
        from_parsed :
            (p : Option T)
            → Within (l + 1) (c + 2) run (use_parsed around again key keys versions p run).0
        from_parsed (some v) = (omega arith, omega arith)
        from_parsed none =
            let run' = discard around key run in
            let sent = discard-Within key run in
            let w =
              unless_stale-Within run' (load_versioned around key keys versions run')
                (load_versioned-Within key keys versions run') in
            (omega arith, omega arith)

    read_cached-Within :
        (key : String) (keys versions : List String) (run : Run)
        → Within (l + 1) (c + 3) run (read_cached around again key keys versions run).0
    read_cached-Within key keys versions run = elim (Bool-cases (around.fails run.sent)) [
      | inl f ↦ rw f (omega arith, omega arith)
      | inr f ↦ rw f (
          let w =
            use_cached-Within key keys versions
              (read_stable_cache_script key keys versions (arrive around run).kv)
              (arrive around run) in
          (omega arith, omega arith))
    ]

    try_once-Within :
        (key_of : List String → String) (keys : List String) (run : Run)
        → Within (l + 1) (c + 4) run (try_once around key_of keys again run).0
    try_once-Within key_of keys run = elim (Bool-cases (around.fails run.sent)) [
      | inl f ↦ rw f (omega arith, omega arith)
      | inr f ↦ rw f (
          let versions = mget keys (arrive around run).kv in
          let w = read_cached-Within (key_of versions) keys versions (arrive around run) in
          (omega arith, omega arith))
    ]

  attempts-Within :
      (key_of : List String → String) (keys : List String) (n : ℕ) (run : Run)
      → Within (n + 1) (4 * n) run (attempts around key_of keys n run).0
  unfolding attempts
  attempts-Within key_of keys zero run = (omega arith, omega arith)
  attempts-Within key_of keys (suc n) run =
      let w =
        try_once-Within (n + 1) (4 * n) (attempts around key_of keys n)
          (attempts-Within key_of keys n) key_of keys run in
      (omega arith, omega arith)

-- Whatever fails and whatever other processes do, one answer calls the loader at most four times and
-- sends at most twelve commands to Redis.
pub get_or_load-Within :
    {T : Type 0} (config : AppConfig) (bytes : String → List ℕ) (sha256 : List ℕ → String)
    (around : Around T) (ready : Bool) (namespace : String) (identity version_scopes : List String)
    (run : Run)
    → Within 4 12 run
        (get_or_load config bytes sha256 around ready namespace identity version_scopes run).0
unfolding get_or_load
get_or_load-Within config bytes sha256 around ready namespace identity version_scopes run =
    elim (Bool-cases (cache_available config ready)) [
      | inl a ↦ rw a (
          attempts-Within around
            (λ versions. cache_key config bytes sha256 namespace (identity ++ versions))
            (version_keys_of config version_scopes) maximum_attempts run)
      | inr a ↦ rw a (omega arith, omega arith)
    ]
