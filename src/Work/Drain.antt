-- ===== src/Work/Drain.antt =====
-- What a new event is answered, and that a drain lets no event start.
use driveparts_websockets.Prelude.{
  ℕ, ◌≤◌, ◌<◌, ◌+◌, ◌≡◌, ◌≢◌, ◌⊎◌, eq_refl, ◌↔◌, refl, Bool, true, false, not, none, List, [], ◌∷◌,
  String, arith, eqb, keep, tally, update_first,
}
use driveparts_websockets.Work.{
  Tracker, Job, start, run_event, run_background, finish_event, untrack, begin_drain, receive_event,
  is_running, release_job,
}
use driveparts_websockets.Work.Counts.{
  Step, event, background, finish, settle, drain, Reach, here, next, running, runs_on,
  Reach-IsCounted,
}

-- An event gets to its handler exactly when the socket's bootstrap is over, the tracker is not
-- draining, and fewer events of the socket than the maximum are running. Then one more event of the
-- socket runs; an event that is refused leaves the tracker as it is.
pub receive_event_starts_iff :
    (maximum : ℕ) (t : Tracker) (ready : Bool) (socket_id : String) (id : ℕ)
    → Reach maximum start t
    → let (after, refusal) = receive_event ready maximum socket_id id t in
      ((refusal ≡ none)
        ↔ ((ready ≡ true) × (t.accepting_events ≡ true) × (running socket_id t < maximum)))
      × (((refusal ≡ none) × (running socket_id after ≡ running socket_id t + 1))
          ⊎ ((refusal ≢ none) × (after ≡ t)))
unfolding receive_event run_event
receive_event_starts_iff maximum t ready socket_id id r =
    (ground (arith, (Reach-IsCounted r).exact socket_id), ground (arith, eq_refl socket_id))

record IsDraining (before t : Tracker) : Type 0 where
  closed : t.accepting_events ≡ false
  fewer : (s : String) → running s t ≤ running s before

fewer_released :
    (s socket_id : String) (id : ℕ) (xs : List Job)
    → tally (runs_on s) (update_first (is_running id socket_id) release_job xs)
      ≤ tally (runs_on s) xs
fewer_released s socket_id id [] = omega arith
fewer_released s socket_id id (j ∷ xs) = ground (arith, fewer_released s socket_id id xs)

fewer_kept :
    (s : String) (p : Job → Bool) (xs : List Job)
    → tally (runs_on s) (keep p xs) ≤ tally (runs_on s) xs
fewer_kept s p [] = omega arith
fewer_kept s p (j ∷ xs) = ground (arith, fewer_kept s p xs)

Step-IsDraining :
    {maximum : ℕ} {before t u : Tracker}
    → Step maximum t u
    → IsDraining before t
    → IsDraining before u
unfolding run_event run_background finish_event untrack begin_drain
Step-IsDraining (event socket_id id e) d = record {
  closed = rw e (ground (arith, d.closed));
  fewer = λ s. rw e (ground (arith, d.closed, d.fewer s));
}
Step-IsDraining (background socket_id id e) d = record {
  closed = rw e d.closed;
  fewer = λ s. rw e (omega (arith, d.fewer s));
}
Step-IsDraining {t} (finish socket_id id h e) d = record {
  closed = rw e d.closed;
  fewer = λ s. rw e (omega (arith, d.fewer s, fewer_released s socket_id id t.active_work));
}
Step-IsDraining {t} (settle id h e) d = record {
  closed = rw e d.closed;
  fewer = λ s. rw e (omega (arith, d.fewer s, fewer_kept s (λ j. not (eqb j.id id)) t.active_work));
}
Step-IsDraining (drain e) d = record { closed = rw e refl; fewer = λ s. rw e (d.fewer s) }

Reach-IsDraining : {maximum : ℕ} {t u : Tracker} → Reach maximum (begin_drain t) u → IsDraining t u
unfolding begin_drain
Reach-IsDraining here = record { closed = refl; fewer = λ s. omega arith }
Reach-IsDraining (next run step) = Step-IsDraining step (Reach-IsDraining run)

-- After a drain has begun no event starts: whatever happens, the tracker stays closed and no socket
-- ever has more events running than when the drain began.
drain_is_final :
    (maximum : ℕ) (t u : Tracker) (s : String)
    → Reach maximum (begin_drain t) u
    → (u.accepting_events ≡ false) × (running s u ≤ running s t)
drain_is_final maximum t u s run = let d = Reach-IsDraining run in (d.closed, d.fewer s)
