-- ===== src/Work.antt =====
-- `SocketWorkTracker` and `register_socket_event` of src/socket/handlers/shared.ts: how many events
-- of a socket run at once, and the drain at shutdown.
pub mod Counts
pub mod Drain
use driveparts_websockets.Prelude.{
  ℕ, ◌+◌, ◌-◌, Bool, true, false, not, ◌&&◌, Option, none, some, List, [], ◌∷◌, String, leb, eqb,
  ◌==◌, if◌then◌else◌, keep, length, update_first,
}
use driveparts_websockets.Prelude.Maps.{Map, get, set, delete}
use driveparts_websockets.Ack.{AckResponse, error_ack, retryable}

-- A promise in `active_work`, with what its closure holds: the socket, whether it was made by
-- `run_event`, and whether the `finally` of an event has run.
pub record Job : Type 0 where
  pub id : ℕ
  pub socket_id : String
  pub is_event : Bool
  pub released : Bool

pub record Tracker : Type 0 where
  pub active_work : List Job
  pub active_by_socket : Map ℕ
  pub accepting_events : Bool

abbrev pub start : Tracker
start = record { active_work = []; active_by_socket = []; accepting_events = true }

abbrev pub or_else : Option ℕ → ℕ → ℕ
or_else none n = n
or_else (some m) n = m

-- `track`
abbrev track : Job → Tracker → Tracker
track job t = record t { active_work = job ∷ t.active_work }

-- The new state, and the answer that refuses the event; with no answer the work of the event starts
-- as the promise `id`.
unfoldable pub run_event : ℕ → String → ℕ → Tracker → Tracker × Option (AckResponse (Unit {0}))
unfolding error_ack
run_event maximum_per_socket socket_id id t =
    let active_count = or_else (get socket_id t.active_by_socket) 0 in
    if not t.accepting_events
    then (t, some (error_ack "service_unavailable" "socket_is_draining" retryable))
    else if leb maximum_per_socket active_count
    then (t, some (error_ack "busy" "too_many_in_flight_events" retryable))
    else (
      track (record { id = id; socket_id = socket_id; is_event = true; released = false })
          (record t { active_by_socket = set socket_id (active_count + 1) t.active_by_socket }),
      none,
    )

unfoldable pub run_background : String → ℕ → Tracker → Tracker
run_background socket_id id t =
    track (record { id = id; socket_id = socket_id; is_event = false; released = false }) t

-- `remaining <= 0`
abbrev put_remaining : String → ℕ → Map ℕ → Map ℕ
put_remaining socket_id remaining m =
    if leb remaining 0 then delete socket_id m else set socket_id remaining m

-- The event `id` of the socket has not released its place yet.
abbrev pub is_running : ℕ → String → Job → Bool
is_running id socket_id j =
    eqb j.id id && (j.is_event && (not j.released && j.socket_id == socket_id))

abbrev pub release_job : Job → Job
release_job j = record j { released = true }

-- The `finally` of the event `id`; the promise stays in `active_work` for now.
unfoldable pub finish_event : String → ℕ → Tracker → Tracker
finish_event socket_id id t = record t {
  active_work = update_first (is_running id socket_id) release_job t.active_work;
  active_by_socket =
      put_remaining socket_id (or_else (get socket_id t.active_by_socket) 1 - 1) t.active_by_socket;
}

-- `active_work.delete(promise)`
unfoldable pub untrack : ℕ → Tracker → Tracker
untrack id t = record t { active_work = keep (λ j. not (eqb j.id id)) t.active_work }

unfoldable pub begin_drain : Tracker → Tracker
begin_drain t = record t { accepting_events = false }

-- The loop of `drain` ends when nothing is tracked.
unfoldable drained : Tracker → Bool
drained t = leb (length t.active_work) 0

-- What a socket's event meets before its handler: the bootstrap, then the tracker.
unfoldable pub receive_event :
    Bool → ℕ → String → ℕ → Tracker → Tracker × Option (AckResponse (Unit {0}))
unfolding error_ack
receive_event ready maximum_per_socket socket_id id t =
    if not ready
    then (t, some (error_ack "not_ready" "socket_bootstrap_in_progress" retryable))
    else run_event maximum_per_socket socket_id id t
