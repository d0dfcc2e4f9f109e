-- ===== src/SyncCache/Hit.antt =====
-- What one answer stores, the next one finds.
use driveparts_websockets.Prelude.{
  ℕ, suc, ◌+◌, ◌≡◌, refl, ap, true, false, none, some, List, [], ◌∷◌, String, ◌==◌, eq_iff, eq_refl,
  arith, contains,
}
use driveparts_websockets.Prelude.Maps.{Map, get, set, get-set}
use driveparts_websockets.SyncCache.{
  version_at, versions_match, mget, Run, Around, load_versioned, attempts, maximum_attempts,
  read_stable_cache_script, write_stable_cache_script,
}

mget-versions_match :
    (keys : List String) (kv : Map String) → versions_match kv keys (mget keys kv) ≡ true
mget-versions_match [] kv = refl
mget-versions_match (k ∷ ks) kv = rw (eq_refl (version_at kv k), mget-versions_match ks kv) refl

mget-set :
    (key text : String) (keys : List String) (kv : Map String)
    → contains key keys ≡ false
    → mget keys (set key text kv) ≡ mget keys kv
mget-set key text [] kv c = refl
mget-set key text (k ∷ ks) kv c =
    let differs : (key == k) ≡ false = ground (arith, eq_iff key k, eq_iff k key) in
    rw (get-set key k text kv, differs, mget-set key text ks kv (ground arith)) refl

-- A process that is alone, whose commands do not fail.
pub record IsAlone {T : Type 0} (around : Around T) : Type 0 where
  pub others : (i : ℕ) (kv : Map String) → around.others i kv ≡ kv
  pub fails : (i : ℕ) → around.fails i ≡ false
  pub in_flight : (i : ℕ) (key : String) → around.in_flight i key ≡ none

module _ {T : Type 0} (around : Around T) (key_of : List String → String) (keys : List String)
    (n : ℕ) (run : Run) (alone : IsAlone around) where
  miss :
      get (key_of (mget keys run.kv)) run.kv ≡ none
      → attempts around key_of keys (suc n) run ≡ (
        record {
          kv =
              set
                (key_of (mget keys run.kv))
                (around.print (around.loader (run.sent + 1 + 1)))
                run.kv;
          sent = run.sent + 1 + 1 + 1;
          loads = run.loads + 1;
        },
        around.loader (run.sent + 1 + 1),
      )
  unfolding attempts read_stable_cache_script write_stable_cache_script load_versioned
  miss empty =
      rw
        (
          alone.fails run.sent,
          alone.others run.sent run.kv,
          alone.fails (run.sent + 1),
          alone.others (run.sent + 1) run.kv,
          mget-versions_match keys run.kv,
          empty,
          alone.in_flight (run.sent + 1 + 1) (key_of (mget keys run.kv)),
          alone.fails (run.sent + 1 + 1),
          alone.others (run.sent + 1 + 1) run.kv,
          mget-versions_match keys run.kv,
        )
        refl

  hit :
      (text : String) (v : T)
      → get (key_of (mget keys run.kv)) run.kv ≡ some text
      → around.parse text ≡ some v
      → attempts around key_of keys (suc n) run ≡ (record run { sent = run.sent + 1 + 1 }, v)
  unfolding attempts read_stable_cache_script
  hit text v full json =
      rw
        (
          alone.fails run.sent,
          alone.others run.sent run.kv,
          alone.fails (run.sent + 1),
          alone.others (run.sent + 1) run.kv,
          mget-versions_match keys run.kv,
          full,
          json,
        )
        refl

-- A process that is alone asks twice, and the cache has nothing for the versions: the first answer is
-- what the loader gives, and the second is that value again, without a call of the loader, even if
-- the loader would give another value by then. The cache key is no version key, and JSON that was
-- printed is read back.
pub attempts_twice :
    {T : Type 0} (around : Around T) (key_of : List String → String) (keys : List String)
    (run : Run)
    → IsAlone around
    → ((v : T) → around.parse (around.print v) ≡ some v)
    → contains (key_of (mget keys run.kv)) keys ≡ false
    → get (key_of (mget keys run.kv)) run.kv ≡ none
    → let once = attempts around key_of keys maximum_attempts run in
      let twice = attempts around key_of keys maximum_attempts once.0 in
      (once.1 ≡ around.loader (run.sent + 2)) × (twice.1 ≡ once.1) × (twice.0.loads ≡ run.loads + 1)
attempts_twice around key_of keys run alone json other empty =
    let key = key_of (mget keys run.kv) in
    let value = around.loader (run.sent + 1 + 1) in
    let stored : Run = record {
      kv = set key (around.print value) run.kv;
      sent = run.sent + 1 + 1 + 1;
      loads = run.loads + 1;
    } in
    let same : mget keys stored.kv ≡ mget keys run.kv =
      mget-set key (around.print value) keys run.kv other in
    let found : get (key_of (mget keys stored.kv)) stored.kv ≡ some (around.print value) =
      rw (same, get-set key key (around.print value) run.kv, eq_refl key) refl in
    rw
      (
        miss around key_of keys 2 run alone empty,
        hit around key_of keys 2 stored alone (around.print value) value found (json value),
      )
      (ap around.loader (omega arith), refl, refl)
