-- ===== src/Attendance/Sending.antt =====
-- What the transaction of create_message does to a thread whose sides have single attendants.
use driveparts_websockets.Prelude.{
  ℕ, ◌≡◌, ◌∙◌, refl, sym, Bool, true, false, not, ◌&&◌, Option, none, some, List, String, eqb,
  arith, if◌then◌else◌, first, is_some, update_first, update_first_none,
}
use driveparts_websockets.Mongo.Unique.{IsUnique, any_by_key}
use driveparts_websockets.Attendance.{
  Calls, SideName, Thread, Message, CreateMessageInput, Error, thread_conflicts,
}
use driveparts_websockets.Attendance.Actions.{World, err, pure, throw, query, command, ◌>>=◌}
use driveparts_websockets.Attendance.Sides.{
  is_chat_attendant_role, get_thread_side_name, side_of, holder_refusal,
  should_open_thread_after_message, assert_sender_can_handle_thread_side,
}
use driveparts_websockets.Attendance.Latest.{apply_message, get_last_message_preview}
use driveparts_websockets.Attendance.Threads.{is_closed}
use driveparts_websockets.Attendance.Send.{
  Fresh, Sender, assign, unassigned, undisturbed, find_thread_state,
  assign_thread_side_responsible_if_missing, store_message,
}

abbrev has_id : ℕ → Thread → Bool
has_id id t = eqb t._id id

id-conflicts :
    (id : ℕ) (d e : Thread) → has_id id d ≡ true → has_id id e ≡ true → thread_conflicts d e ≡ true
id-conflicts id d e h k = ground arith

-- The thread once the sender took a side nobody is responsible for.
abbrev assigned : ℕ → Sender → SideName → Thread → Thread
assigned at sender name t =
    if is_some (side_of name t).responsible_user_id then t else assign at sender name t

module _ (calls : Calls) (fresh : Fresh) (input : CreateMessageInput) (sender : Sender)
    (message : Message) (id : ℕ) (t : Thread) (name : SideName) (w : World)
    (unique : IsUnique thread_conflicts w.store.threads)
    (stored : first (has_id id) w.store.threads ≡ some t) (is_open : is_closed t ≡ false)
    (attendant : is_chat_attendant_role sender.user_role ≡ true)
    (side : get_thread_side_name t sender.store_id ≡ some name) where
  -- The thread once the message is stored.
  abbrev pub answered : Thread
  answered =
      let t' = assigned fresh.assigned_at sender name t in
      apply_message (should_open_thread_after_message t' input.sender_store_id) fresh.message_id
        (get_last_message_preview input) fresh.now t'

  taken : List Thread
  taken = update_first (unassigned id name) (assign fresh.assigned_at sender name) w.store.threads

  is_writable : Thread → Bool
  is_writable x = eqb x._id id && not (is_closed x)

  held_by :
      (e : Error)
      → assert_sender_can_handle_thread_side fresh.assigned_at t sender.store_id sender.user_id
        ≡ some e
      → is_some (side_of name t).responsible_user_id ≡ true
  unfolding assert_sender_can_handle_thread_side
  held_by e h = from_holder (side_of name t).responsible_user_id (sym (rw side refl) ∙ h)
    where
      from_holder :
          (o : Option String)
          → holder_refusal fresh.assigned_at sender.user_id (side_of name t) o ≡ some e
          → is_some o ≡ true
      from_holder none k = absurd (ground arith)
      from_holder (some i) k = refl

  -- In a store with single attendants, alone and under the unique indexes, a master or seller sends
  -- to a stored thread that is not closed and whose side another user is responsible for: the
  -- operation throws the error that names that user, and neither a thread nor a message has
  -- changed.
  pub store_message_refused :
      (e : Error)
      → assert_sender_can_handle_thread_side fresh.assigned_at t sender.store_id sender.user_id
        ≡ some e
      → let (w', r) = store_message calls undisturbed true input fresh sender message id w in
        (r ≡ err e) × (w'.store ≡ w.store)
  unfolding store_message assign_thread_side_responsible_if_missing find_thread_state ◌>>=◌ query
      command pure throw
  store_message_refused e h =
      let held = held_by e h in
      let untouched =
        update_first_none (unassigned id name) (assign fresh.assigned_at sender name)
          w.store.threads
          (any_by_key thread_conflicts (unassigned id name) (has_id id) w.store.threads t
            (λ d k. ground arith) (id-conflicts id) unique stored (ground arith)) in
      rw
        (
          attendant, calls.threads.find_one_lem, stored, side, is_open,
          calls.threads.update_one_docs, untouched, calls.threads.find_one_lem, stored, h,
        )
        (refl, refl)
