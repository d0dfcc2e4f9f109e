-- ===== src/Attendance/Send.antt =====
-- create_message of src/repositories/chat_repository.ts: one message from a user of one store to
-- another store.
use driveparts_websockets.Prelude.{
  ℕ, Bool, true, false, not, ◌&&◌, ◌||◌, Option, none, some, List, [], ◌∷◌, String, ◌==◌, eqb,
  if◌then◌else◌, opt_eq, is_some,
}
use driveparts_websockets.Attendance.{
  Calls, UserRole, SideName, origin, target, Side, Attachment, Thread, Message, Store,
  CreateMessageInput, Error, attendance_thread_closed, attendance_thread_not_found,
  client_message_id_conflict, duplicate_key,
}
use driveparts_websockets.Attendance.Actions.{
  Action, Result, ok, err, pure, throw, query, command, ◌>>=◌, ◌>>◌, throw_if,
}
pub use driveparts_websockets.Effects.{rolled_back, undisturbed}
unfoldable pub use driveparts_websockets.Effects.{execute_atomic}
use driveparts_websockets.Attendance.Sides.{
  is_chat_attendant_role, normalize_optional_id, get_thread_side_name, side_of,
  should_open_thread_after_message, assert_sender_can_handle_thread_side,
}
use driveparts_websockets.Attendance.Latest.{apply_message, get_last_message_preview}
use driveparts_websockets.Attendance.Metadata.{is_single_attendant_enabled, attached}
use driveparts_websockets.Attendance.Threads.{is_closed, between_stores, found_or_throw}

-- The clock and the new ObjectIds of one call, in the order in which the code asks for them.
pub record Fresh : Type 0 where
  pub thread_now : ℕ
  pub thread_id : ℕ
  pub now : ℕ
  pub message_id : ℕ
  pub assigned_at : ℕ

-- Who sends, with the normalized name and role.
pub record Sender : Type 0 where
  pub store_id : String
  pub user_id : String
  pub user_name : String
  pub user_role : UserRole

abbrev list_or_empty : Option (List Attachment) → List Attachment
list_or_empty none = []
list_or_empty (some xs) = xs

abbrev some_attachments : List Attachment → Option (List Attachment)
some_attachments [] = none
some_attachments (x ∷ xs) = some (x ∷ xs)

-- `value ? { value } : {}`
abbrev pub present : Option String → Option String
present none = none
present (some s) = if s == "" then none else some s

-- `{ ...side, responsible_user_id, responsible_user_name, responsible_user_role, assigned_at }`
abbrev assign_side : ℕ → Sender → Side → Side
assign_side assigned_at sender side = record side {
  responsible_user_id = some sender.user_id;
  responsible_user_name = some sender.user_name;
  responsible_user_role = some sender.user_role;
  assigned_at = some assigned_at;
}

abbrev pub assign : ℕ → Sender → SideName → Thread → Thread
assign assigned_at sender origin thread = record thread {
  origin_side = assign_side assigned_at sender thread.origin_side;
  updated_at = assigned_at;
}
assign assigned_at sender target thread = record thread {
  target_side = assign_side assigned_at sender thread.target_side;
  updated_at = assigned_at;
}

-- The filter of the assignment.
abbrev pub unassigned : ℕ → SideName → Thread → Bool
unassigned id name thread =
    eqb thread._id id
    && (not (is_closed thread) && not (is_some (side_of name thread).responsible_user_id))

abbrev pub new_message : Fresh → CreateMessageInput → Sender → String → Thread → Message
new_message fresh input sender thread_hex thread = record {
  _id = fresh.message_id;
  attendance_thread_id = thread_hex;
  attendance_thread_key = thread.attendance_thread_key;
  client_thread_id = present thread.client_thread_id;
  channel = thread.channel;
  sender_store_id = input.sender_store_id;
  recipient_store_id = input.recipient_store_id;
  sender_user_id = input.sender_user_id;
  sender_user_name = some sender.user_name;
  sender_user_role = some sender.user_role;
  message_type = none;
  transfer = none;
  body = input.body;
  created_at = fresh.now;
  attachments = some_attachments (list_or_empty input.attachments);
  reference = input.reference;
  client_message_id = present input.client_message_id;
  delivered_at = none;
  read_at = none;
  attendance_responsibles = none;
}

abbrev pub throw_some : Option Error → Action (Unit {0})
throw_some none = pure tt
throw_some (some e) = throw e

-- `if (enabled) assert_sender_can_handle_thread_side(...)`
abbrev pub assert_if : Bool → ℕ → Thread → String → String → Action (Unit {0})
assert_if false now thread store_id user_id = pure tt
assert_if true now thread store_id user_id =
    throw_some (assert_sender_can_handle_thread_side now thread store_id user_id)

module _ (calls : Calls) (others : ℕ → Store → Store) where
  abbrev pub find_message : String → String → Action (Option Message)
  find_message store_id client_message_id = query others (λ s.
      calls.messages.find_one
        (λ m. m.sender_store_id == store_id && opt_eq m.client_message_id (some client_message_id))
        s.messages)

  unfoldable pub find_thread_state : ℕ → Action (Option Thread)
  find_thread_state id = query others (λ s. calls.threads.find_one (λ t. eqb t._id id) s.threads)

  abbrev pub assigning : ℕ → Sender → ℕ → SideName → Store → Store × Result (Unit {0})
  assigning assigned_at sender id name s =
      let (threads, matched, modified) =
        calls.threads.update_one (unassigned id name) (assign assigned_at sender name) s.threads in
      (record s { threads = threads }, ok tt)

  abbrev pub checked_thread : ℕ → Sender → Option Thread → Action (Option Thread)
  checked_thread now sender none = pure none
  checked_thread now sender (some thread) =
      assert_if true now thread sender.store_id sender.user_id >> pure (some thread)

  abbrev pub assign_to : ℕ → Sender → ℕ → Thread → Option SideName → Action (Option Thread)
  assign_to assigned_at sender id thread none = pure (some thread)
  assign_to assigned_at sender id thread (some name) =
      if is_closed thread
      then pure (some thread)
      else (command others (assigning assigned_at sender id name)
          >> (find_thread_state id >>= checked_thread assigned_at sender))

  abbrev pub assign_found : ℕ → Sender → ℕ → Option Thread → Action (Option Thread)
  assign_found assigned_at sender id none = pure none
  assign_found assigned_at sender id (some thread) =
      assign_to assigned_at sender id thread (get_thread_side_name thread sender.store_id)

  unfoldable pub assign_thread_side_responsible_if_missing : ℕ → Sender → ℕ → Action (Option Thread)
  assign_thread_side_responsible_if_missing assigned_at sender id =
      if is_chat_attendant_role sender.user_role
      then find_thread_state id >>= assign_found assigned_at sender id
      else pure none

  abbrev pub inserted_message : Store → Option (List Message) → Store × Result (Unit {0})
  inserted_message s none = (s, err duplicate_key)
  inserted_message s (some messages) = (record s { messages = messages }, ok tt)

  abbrev insert_message : Message → Action (Unit {0})
  insert_message message =
      command others (λ s. inserted_message s (calls.messages.insert_one message s.messages))

  -- The `$set` pipeline on the thread that is not closed, and matchedCount.
  abbrev updating : CreateMessageInput → Fresh → ℕ → Thread → Store → Store × Result ℕ
  updating input fresh id current s =
      let (threads, matched, modified) =
        calls.threads.update_one (λ t. eqb t._id id && not (is_closed t))
          (apply_message (should_open_thread_after_message current input.sender_store_id)
            fresh.message_id (get_last_message_preview input) fresh.now)
          s.threads in
      (record s { threads = threads }, ok matched)

  abbrev pub write_message :
      CreateMessageInput → Fresh → Message → ℕ → Option Thread → Action (Unit {0})
  write_message input fresh message id none = throw attendance_thread_not_found
  write_message input fresh message id (some current) =
      throw_if (is_closed current) attendance_thread_closed
      >> (insert_message message
          >> (command others (updating input fresh id current) >>= λ matched.
              throw_if (eqb matched 0) attendance_thread_closed))

  -- The operation of the transaction.
  unfoldable pub store_message :
      Bool → CreateMessageInput → Fresh → Sender → Message → ℕ → Action (Unit {0})
  store_message single_attendant_enabled input fresh sender message id =
      (if single_attendant_enabled
        then assign_thread_side_responsible_if_missing fresh.assigned_at sender id
        else find_thread_state id)
      >>= write_message input fresh message id

  unfoldable pub conflicts_with : Message → CreateMessageInput → Bool
  conflicts_with existing input =
      let requested_thread_id = normalize_optional_id input.attendance_thread_id in
      let requested_client_thread_id = normalize_optional_id input.client_thread_id in
      not (existing.recipient_store_id == input.recipient_store_id)
      || (not (existing.sender_user_id == input.sender_user_id)
          || (not (existing.body == input.body)
              || (not (
                    calls.same_attachments (list_or_empty existing.attachments)
                      (list_or_empty input.attachments))
                  || (not (calls.same_reference existing.reference input.reference)
                      || ((not (requested_thread_id == "")
                            && not (requested_thread_id == existing.attendance_thread_id))
                          || (not (requested_client_thread_id == "")
                              && not (
                                  opt_eq existing.client_thread_id
                                    (some requested_client_thread_id))))))))

  abbrev pub thread_of : Message → CreateMessageInput → Option ℕ → Action (Option Thread)
  thread_of existing input none = pure none
  thread_of existing input (some id) = query others (λ s.
      calls.threads.find_one (between_stores id input.sender_store_id input.recipient_store_id)
        s.threads)

  unfoldable pub return_authorized_existing_message :
      ℕ → Message → CreateMessageInput → Action Message
  return_authorized_existing_message now existing input =
      throw_if (conflicts_with existing input) client_message_id_conflict
      >> ((thread_of existing input (calls.object_id_of existing.attendance_thread_id)
            >>= found_or_throw)
          >>= λ thread.
              is_single_attendant_enabled calls others input.sender_store_id >>= λ enabled.
              assert_if enabled now thread input.sender_store_id input.sender_user_id
              >> attached calls others existing)
