-- ===== src/RateLimiter/Local.antt =====
-- The fixed window that stands in for Redis where none is configured.
use driveparts_websockets.Prelude.{ℕ, ◌≤◌, ◌≡◌, true, false, String, arith, ◌==◌, length}
use driveparts_websockets.Prelude.Maps.{Map, get, set, delete}
use driveparts_websockets.Config.{AppConfig}
use driveparts_websockets.RateLimiter.{
  LocalWindow, consume_local, current_window, counted, window_ms, maximum_local_scopes,
}
use driveparts_websockets.RateLimiter.Trim.{
  Named, Named-delete, Named-set, length-trim_local_windows-le,
}

module _ (config : AppConfig) (now : ℕ) (scope : String) (m : Map LocalWindow) where
  abbrev window : LocalWindow
  window = current_window now (window_ms config) (get scope m)

  -- After an allowed request the map holds at most 10000 scopes.
  consume_local_size :
      Named m
      → (scope == "") ≡ false
      → (consume_local config now scope m).1.allowed ≡ true
      → length (consume_local config now scope m).0 ≤ maximum_local_scopes
  unfolding consume_local
  consume_local_size n s h = ground (
    arith,
    length-trim_local_windows-le now (set scope (counted window) (delete scope m))
        (Named-set scope (counted window) (delete scope m) s (Named-delete scope m n)),
  )
