-- ===== src/Attendance/Monotone.antt =====
-- Each part of the repository's methods moves the threads only on.
use driveparts_websockets.Prelude.{
  ℕ, ◌≤◌, ◌≡◌, refl, Bool, true, false, not, Option, none, some, List, [], ◌∷◌, String, arith,
  if◌then◌else◌, is_some,
}
use driveparts_websockets.Attendance.{
  Calls, SideName, origin, target, Thread, ThreadStatus, waiting, opened, closed, Message, Store,
  CreateMessageInput, Error,
}
use driveparts_websockets.Attendance.Actions.{command}
use driveparts_websockets.Attendance.Latest.{
  build_monotonic_thread_status, is_newest_message, apply_message,
}
use driveparts_websockets.Attendance.Metadata.{
  is_single_attendant_enabled, list_disabled_single_attendant_store_ids, attach_thread_metadata,
  attached, disabled_among, attach_found,
}
use driveparts_websockets.Attendance.Threads.{found_or_throw}
use driveparts_websockets.Attendance.Send.{
  Fresh, Sender, assign, unassigned, assert_if, throw_some, find_thread_state, assigning,
  checked_thread, assign_to, assign_found, assign_thread_side_responsible_if_missing,
  inserted_message, write_message, store_message,
}
use driveparts_websockets.Attendance.Grows.{
  Later, Stays, Stays-refl, Grows, Grows-refl, Grows-update_first, Onward, pure-Onward,
  throw-Onward, command-Onward, query-Onward, if-Onward, throw_if-Onward, bind-Onward, rank,
  latest_rank,
}

Stays-absent : (o p : Option String) → not (is_some o) ≡ true → Stays o p
Stays-absent none p h = tt
Stays-absent (some id) p h = absurd (ground arith)

assign-Later :
    (assigned_at : ℕ) (sender : Sender) (id : ℕ) (name : SideName) (t : Thread)
    → unassigned id name t ≡ true
    → Later t (assign assigned_at sender name t)
assign-Later assigned_at sender id origin t h = record {
  _id = refl;
  attendance_thread_key = refl;
  channel = refl;
  participant_store_ids = refl;
  origin_store_id = refl;
  target_store_id = refl;
  status = omega arith;
  origin_responsible = Stays-absent _ _ (ground arith);
  target_responsible = Stays-refl _;
  last_message_id = omega arith;
}
assign-Later assigned_at sender id target t h = record {
  _id = refl;
  attendance_thread_key = refl;
  channel = refl;
  participant_store_ids = refl;
  origin_store_id = refl;
  target_store_id = refl;
  status = omega arith;
  target_responsible = Stays-absent _ _ (ground arith);
  origin_responsible = Stays-refl _;
  last_message_id = omega arith;
}

status-rank :
    (should_open : Bool) (s : ThreadStatus)
    → rank s ≤ rank (build_monotonic_thread_status should_open s)
status-rank b waiting = ground arith
status-rank b opened = omega arith
status-rank b closed = omega arith

apply_message-Later :
    (should_open : Bool) (id : ℕ) (preview : String) (now : ℕ) (t : Thread)
    → Later t (apply_message should_open id preview now t)
unfolding apply_message
apply_message-Later should_open id preview now t = record {
  _id = refl;
  attendance_thread_key = refl;
  channel = refl;
  participant_store_ids = refl;
  origin_store_id = refl;
  target_store_id = refl;
  status = status-rank should_open t.status;
  origin_responsible = Stays-refl _;
  target_responsible = Stays-refl _;
  last_message_id = newer t.last_message_id;
}
  where
    newer :
        (o : Option ℕ) → latest_rank o ≤ latest_rank (if is_newest_message id o then some id else o)
    newer none = omega arith
    newer (some last) = ground arith

module _ (calls : Calls) (others : ℕ → Store → Store)
    (h : (i : ℕ) (s : Store) → Grows s.threads (others i s).threads) where
  pub enabled-Onward :
      (store_id : String) → Onward (is_single_attendant_enabled calls others store_id)
  unfolding is_single_attendant_enabled
  enabled-Onward store_id = if-Onward _ _ _ (pure-Onward true) (query-Onward others _ h)

  disabled_among-Onward : (ids : List String) → Onward (disabled_among calls others ids)
  disabled_among-Onward [] = pure-Onward []
  disabled_among-Onward (id ∷ ids) = query-Onward others _ h

  disabled-Onward :
      (ids : List String) → Onward (list_disabled_single_attendant_store_ids calls others ids)
  unfolding list_disabled_single_attendant_store_ids
  disabled-Onward ids = disabled_among-Onward _

  attach_found-Onward :
      (ids : List ℕ) (messages : List Message) → Onward (attach_found calls others ids messages)
  attach_found-Onward [] messages = pure-Onward messages
  attach_found-Onward (id ∷ ids) messages =
      bind-Onward _ _ (query-Onward others _ h)
        (λ threads. bind-Onward _ _ (disabled-Onward _) (λ disabled. pure-Onward _))

  pub attached-Onward : (m : Message) → Onward (attached calls others m)
  unfolding attached attach_thread_metadata
  attached-Onward m = bind-Onward _ _ (attach_found-Onward _ _) (λ messages. pure-Onward _)

  throw_some-Onward : (o : Option Error) → Onward (throw_some o)
  throw_some-Onward none = pure-Onward tt
  throw_some-Onward (some e) = throw-Onward e

  pub assert_if-Onward :
      (b : Bool) (now : ℕ) (t : Thread) (store_id user_id : String)
      → Onward (assert_if b now t store_id user_id)
  assert_if-Onward true now t store_id user_id = throw_some-Onward _
  assert_if-Onward false now t store_id user_id = pure-Onward tt

  pub found-Onward : (o : Option Thread) → Onward (found_or_throw o)
  found-Onward none = throw-Onward _
  found-Onward (some t) = pure-Onward t

  state-Onward : (id : ℕ) → Onward (find_thread_state calls others id)
  unfolding find_thread_state
  state-Onward id = query-Onward others _ h

  checked-Onward :
      (now : ℕ) (sender : Sender) (o : Option Thread)
      → Onward (checked_thread calls others now sender o)
  checked-Onward now sender none = pure-Onward none
  checked-Onward now sender (some t) =
      bind-Onward _ _ (assert_if-Onward true now t _ _) (λ _. pure-Onward _)

  assigning-Onward :
      (at : ℕ) (sender : Sender) (id : ℕ) (name : SideName)
      → Onward (command others (assigning calls others at sender id name))
  assigning-Onward at sender id name = command-Onward others _ h (λ s.
      rw calls.threads.update_one_docs
        (Grows-update_first _ _ s.threads (assign-Later at sender id name)))

  assign_to-Onward :
      (at : ℕ) (sender : Sender) (id : ℕ) (t : Thread) (o : Option SideName)
      → Onward (assign_to calls others at sender id t o)
  assign_to-Onward at sender id t none = pure-Onward _
  assign_to-Onward at sender id t (some name) = if-Onward _ _ _ (pure-Onward _) (
      bind-Onward _ _ (assigning-Onward at sender id name)
        (λ _. bind-Onward _ _ (state-Onward id) (checked-Onward at sender)))

  assign_found-Onward :
      (at : ℕ) (sender : Sender) (id : ℕ) (o : Option Thread)
      → Onward (assign_found calls others at sender id o)
  assign_found-Onward at sender id none = pure-Onward none
  assign_found-Onward at sender id (some t) = assign_to-Onward at sender id t _

  assign_responsible-Onward :
      (at : ℕ) (sender : Sender) (id : ℕ)
      → Onward (assign_thread_side_responsible_if_missing calls others at sender id)
  unfolding assign_thread_side_responsible_if_missing
  assign_responsible-Onward at sender id =
      if-Onward _ _ _ (bind-Onward _ _ (state-Onward id) (assign_found-Onward at sender id))
        (pure-Onward none)

  inserted-Grows :
      (s : Store) (o : Option (List Message))
      → Grows s.threads (inserted_message calls others s o).0.threads
  inserted-Grows s none = Grows-refl s.threads
  inserted-Grows s (some messages) = Grows-refl s.threads

  write-Onward :
      (input : CreateMessageInput) (fresh : Fresh) (m : Message) (id : ℕ) (o : Option Thread)
      → Onward (write_message calls others input fresh m id o)
  write-Onward input fresh m id none = throw-Onward _
  write-Onward input fresh m id (some current) = bind-Onward _ _ (throw_if-Onward _ _) (λ _.
      bind-Onward _ _ (command-Onward others _ h (λ s. inserted-Grows s _)) (λ _.
        bind-Onward _ _
          (command-Onward others _ h (λ s.
            rw calls.threads.update_one_docs
              (Grows-update_first _ _ s.threads (λ t _. apply_message-Later _ _ _ _ t))))
          (λ matched. throw_if-Onward _ _)))

  pub store_message-Onward :
      (single : Bool) (input : CreateMessageInput) (fresh : Fresh) (sender : Sender) (m : Message)
      (id : ℕ)
      → Onward (store_message calls others single input fresh sender m id)
  unfolding store_message
  store_message-Onward single input fresh sender m id =
      bind-Onward _ _
        (if-Onward single _ _ (assign_responsible-Onward _ sender id) (state-Onward id))
        (write-Onward input fresh m id)
