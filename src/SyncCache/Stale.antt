-- ===== src/SyncCache/Stale.antt =====
-- A value that was loaded before an invalidation is not cached after it.
use driveparts_websockets.Prelude.{
  ◌+◌, ◌≡◌, ◌≢◌, ◌∙◌, refl, sym, ap, true, false, none, List, [], ◌∷◌, String, ◌==◌, eq_iff,
  eq_refl, arith, contains, Bool-cases, inl, inr,
}
use driveparts_websockets.Prelude.Maps.{Map, get-set}
use driveparts_websockets.SyncCache.{
  version_at, versions_match, mget, Run, Around, load_versioned, write_stable_cache_script,
  bump_version_script,
}

-- A version that is not the one that was read is a mismatch.
changed-versions_match :
    (kv kv' : Map String) (k : String) (keys : List String)
    → contains k keys ≡ true
    → version_at kv' k ≢ version_at kv k
    → versions_match kv' keys (mget keys kv) ≡ false
changed-versions_match kv kv' k [] c h = absurd (ground arith)
changed-versions_match kv kv' k (j ∷ js) c h = elim (Bool-cases (j == k)) [
  | inl same ↦
      let e : j ≡ k = (eq_iff j k).0 same in
      elim (Bool-cases (version_at kv' j == version_at kv j)) [
        | inl equal ↦ absurd (
            h (
              ap (version_at kv') (sym e)
              ∙ (eq_iff (version_at kv' j) (version_at kv j)).0 equal
              ∙ ap (version_at kv) e))
        | inr differs ↦ rw differs refl
      ]
  | inr other ↦
      let rest = changed-versions_match kv kv' k js (ground arith) h in rw rest (ground arith)
]

bumped : (k u : String) (kv : Map String) → version_at (bump_version_script k u kv) k ≡ u
unfolding bump_version_script
bumped k u kv = rw (get-set k k u kv, eq_refl k) refl

-- A load that no other is on its way for and whose write reaches the server, but after one of its
-- versions was bumped to a text other than the version that was read: the value is answered as
-- stale, so that the loop tries again, and nothing is cached.
pub bumped_load_dropped :
    {T : Type 0} (around : Around T) (key k u : String) (keys : List String) (kv kv' : Map String)
    (run : Run)
    → around.in_flight run.sent key ≡ none
    → around.fails run.sent ≡ false
    → around.others run.sent run.kv ≡ bump_version_script k u kv'
    → contains k keys ≡ true
    → u ≢ version_at kv k
    → load_versioned around key keys (mget keys kv) run ≡ (
      record { kv = bump_version_script k u kv'; sent = run.sent + 1; loads = run.loads + 1 },
      record { value = around.loader run.sent; stale = true },
    )
unfolding load_versioned write_stable_cache_script
bumped_load_dropped around key k u keys kv kv' run free works bump c h =
    rw
      (
        free,
        works,
        bump,
        changed-versions_match kv (bump_version_script k u kv') k keys c
            (λ e. h (sym (bumped k u kv') ∙ e)),
      )
      refl
