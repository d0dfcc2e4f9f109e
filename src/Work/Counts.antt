-- ===== src/Work/Counts.antt =====
-- The counters of the tracker are right: each socket's counter is the number of its events that are
-- running, and no socket runs more than the maximum.
use driveparts_websockets.Prelude.{
  ℕ, ◌+◌, ◌-◌, ◌≤◌, ◌≡◌, refl, Bool, true, false, not, ◌&&◌, List, [], ◌∷◌, String, arith, eqb,
  ◌==◌, eq_iff, if◌then◌else◌, keep, any, tally, update_first,
}
use driveparts_websockets.Prelude.Maps.{get, get-set, get-delete}
use driveparts_websockets.Work.{
  Job, Tracker, start, or_else, run_event, run_background, finish_event, untrack, begin_drain,
  is_running, release_job,
}

-- The job is an event of the socket that has not released its place.
abbrev pub runs_on : String → Job → Bool
runs_on socket_id j = j.is_event && (not j.released && j.socket_id == socket_id)

abbrev pub running : String → Tracker → ℕ
running socket_id t = tally (runs_on socket_id) t.active_work

-- A promise that is settled: no unreleased event has the id.
abbrev unsettled : ℕ → Job → Bool
unsettled id j = eqb j.id id && (j.is_event && not j.released)

-- What can happen to a tracker, in the order that the event loop chooses.
pub data Step (maximum : ℕ) (t : Tracker) : Tracker → Type 0 where
  event :
      {u : Tracker} (socket_id : String) (id : ℕ)
      → u ≡ (run_event maximum socket_id id t).0
      → Step maximum t u
  background :
      {u : Tracker} (socket_id : String) (id : ℕ)
      → u ≡ run_background socket_id id t
      → Step maximum t u
  finish :
      {u : Tracker} (socket_id : String) (id : ℕ)
      → any (is_running id socket_id) t.active_work ≡ true
      → u ≡ finish_event socket_id id t
      → Step maximum t u
  settle :
      {u : Tracker} (id : ℕ)
      → any (unsettled id) t.active_work ≡ false
      → u ≡ untrack id t
      → Step maximum t u
  drain : {u : Tracker} → u ≡ begin_drain t → Step maximum t u

pub data Reach (maximum : ℕ) (s : Tracker) : Tracker → Type 0 where
  here : Reach maximum s s
  next : {t u : Tracker} → Reach maximum s t → Step maximum t u → Reach maximum s u

pub record IsCounted (maximum : ℕ) (t : Tracker) : Type 0 where
  pub exact : (s : String) → or_else (get s t.active_by_socket) 0 ≡ running s t
  pub within : (s : String) → running s t ≤ maximum

tally-release :
    (s socket_id : String) (id : ℕ) (xs : List Job)
    → any (is_running id socket_id) xs ≡ true
    → tally (runs_on s) (update_first (is_running id socket_id) release_job xs)
        + (if socket_id == s then 1 else 0)
      ≡ tally (runs_on s) xs
tally-release s socket_id id [] h = absurd (ground arith)
tally-release s socket_id id (j ∷ xs) h = ground (
  arith,
  tally-release s socket_id id xs,
  eq_iff j.socket_id socket_id,
  eq_iff j.socket_id s,
  eq_iff socket_id s,
)

tally-untrack :
    (s : String) (id : ℕ) (xs : List Job)
    → any (unsettled id) xs ≡ false
    → tally (runs_on s) (keep (λ j. not (eqb j.id id)) xs) ≡ tally (runs_on s) xs
tally-untrack s id [] h = refl
tally-untrack s id (j ∷ xs) h = ground (arith, tally-untrack s id xs)

module _ (maximum : ℕ) (t : Tracker) (c : IsCounted maximum t) where
  event-exact :
      (socket_id s : String) (id : ℕ)
      → or_else (get s (run_event maximum socket_id id t).0.active_by_socket) 0
        ≡ running s (run_event maximum socket_id id t).0
  unfolding run_event
  event-exact socket_id s id = ground (
    arith,
    c.exact s,
    c.exact socket_id,
    eq_iff socket_id s,
    get-set socket_id s (or_else (get socket_id t.active_by_socket) 0 + 1) t.active_by_socket,
  )

  event-within :
      (socket_id s : String) (id : ℕ) → running s (run_event maximum socket_id id t).0 ≤ maximum
  unfolding run_event
  event-within socket_id s id = ground (arith, c.exact socket_id, c.within s, eq_iff socket_id s)

  finish-exact :
      (socket_id s : String) (id : ℕ)
      → any (is_running id socket_id) t.active_work ≡ true
      → or_else (get s (finish_event socket_id id t).active_by_socket) 0
        ≡ running s (finish_event socket_id id t)
  unfolding finish_event
  finish-exact socket_id s id h = ground (
    arith,
    c.exact s,
    c.exact socket_id,
    eq_iff socket_id s,
    tally-release s socket_id id t.active_work h,
    tally-release socket_id socket_id id t.active_work h,
    eq_iff socket_id socket_id,
    get-set socket_id s (or_else (get socket_id t.active_by_socket) 1 - 1) t.active_by_socket,
    get-delete socket_id s t.active_by_socket,
  )

  finish-within :
      (socket_id s : String) (id : ℕ)
      → any (is_running id socket_id) t.active_work ≡ true
      → running s (finish_event socket_id id t) ≤ maximum
  unfolding finish_event
  finish-within socket_id s id h =
      ground (arith, c.within s, tally-release s socket_id id t.active_work h)

Step-IsCounted :
    {maximum : ℕ} {t u : Tracker} → Step maximum t u → IsCounted maximum t → IsCounted maximum u
Step-IsCounted {maximum} {t} (event socket_id id e) c = record {
  exact = λ s. rw e (event-exact maximum t c socket_id s id);
  within = λ s. rw e (event-within maximum t c socket_id s id);
}
Step-IsCounted (background socket_id id e) c = record {
  exact = λ s. rw e (unfold run_background in omega (arith, c.exact s));
  within = λ s. rw e (unfold run_background in omega (arith, c.within s));
}
Step-IsCounted {maximum} {t} (finish socket_id id h e) c = record {
  exact = λ s. rw e (finish-exact maximum t c socket_id s id h);
  within = λ s. rw e (finish-within maximum t c socket_id s id h);
}
Step-IsCounted {maximum} {t} (settle id h e) c = record {
  exact = λ s. rw e (unfold untrack in rw (tally-untrack s id t.active_work h) (c.exact s));
  within = λ s. rw e (unfold untrack in rw (tally-untrack s id t.active_work h) (c.within s));
}
Step-IsCounted (drain e) c = record {
  exact = λ s. rw e (unfold begin_drain in c.exact s);
  within = λ s. rw e (unfold begin_drain in c.within s);
}

IsCounted-start : (maximum : ℕ) → IsCounted maximum start
IsCounted-start maximum = record { exact = λ s. unfold get in refl; within = λ s. omega arith }

-- Whatever events, background jobs, ends of promises and drains have happened, in any order, each
-- socket's counter is the number of its events that are running, and that is at most the maximum.
pub Reach-IsCounted : {maximum : ℕ} {t : Tracker} → Reach maximum start t → IsCounted maximum t
Reach-IsCounted {maximum} here = IsCounted-start maximum
Reach-IsCounted (next run step) = Step-IsCounted step (Reach-IsCounted run)
