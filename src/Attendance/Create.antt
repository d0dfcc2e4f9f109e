-- ===== src/Attendance/Create.antt =====
-- The method create_message itself.
use driveparts_websockets.Prelude.{ℕ, Bool, Option, none, some, String, if◌then◌else◌}
use driveparts_websockets.Attendance.{
  Calls, Thread, Message, Store, CreateMessageInput, Error, attendance_attendant_role_required,
  attendance_thread_closed, duplicate_key,
}
use driveparts_websockets.Attendance.Actions.{Action, pure, throw, ◌>>=◌, ◌>>◌, throw_if, catch}
use driveparts_websockets.Attendance.Sides.{
  is_chat_attendant_role, normalize_chat_user_role, normalize_chat_user_name,
}
use driveparts_websockets.Attendance.Metadata.{is_single_attendant_enabled, attached}
use driveparts_websockets.Attendance.Threads.{is_closed, ensure_thread}
use driveparts_websockets.Attendance.Send.{
  Fresh, Sender, present, new_message, assert_if, execute_atomic, find_message, store_message,
  return_authorized_existing_message,
}

abbrev sender_of : CreateMessageInput → Sender
sender_of input = record {
  store_id = input.sender_store_id;
  user_id = input.sender_user_id;
  user_name = normalize_chat_user_name input.sender_user_name input.sender_user_id;
  user_role = normalize_chat_user_role input.sender_user_role;
}

-- `transactions_enabled` is the constructor's argument.
module _ (calls : Calls) (others : ℕ → Store → Store) (transactions_enabled : Bool) where
  -- What the handler does with a message found after a duplicate key error.
  abbrev pub existing_or_rethrow :
      Fresh → CreateMessageInput → Error → Option Message → Action (Option Message)
  existing_or_rethrow fresh input e none = throw e
  existing_or_rethrow fresh input e (some m) =
      return_authorized_existing_message calls others fresh.now m input >>= λ m'. pure (some m')

  abbrev pub retried : Fresh → CreateMessageInput → Option String → Error → Action (Option Message)
  retried fresh input (some client_message_id) duplicate_key =
      find_message calls others input.sender_store_id client_message_id
      >>= existing_or_rethrow fresh input duplicate_key
  retried fresh input _ e = throw e

  abbrev pub answer : Message → Option Message → Action Message
  answer message none = attached calls others message
  answer message (some existing) = pure existing

  -- The try block and its handler. `none` is the end of the block, `some` what the handler returns.
  abbrev write_or_find : Bool → Fresh → CreateMessageInput → Message → ℕ → Action (Option Message)
  write_or_find single_attendant_enabled fresh input message id =
      catch
        (execute_atomic transactions_enabled others (λ others'.
            store_message calls others' single_attendant_enabled input fresh (sender_of input)
              message id)
          >> pure none)
        (retried fresh input (present input.client_message_id))

  abbrev pub send_in : Bool → Fresh → CreateMessageInput → Thread → Action Message
  send_in single_attendant_enabled fresh input thread =
      let message = new_message fresh input (sender_of input) (calls.to_hex thread._id) thread in
      throw_if (is_closed thread) attendance_thread_closed
      >> (assert_if single_attendant_enabled fresh.now thread input.sender_store_id
            input.sender_user_id
          >> (write_or_find single_attendant_enabled fresh input message thread._id
              >>= answer message))

  abbrev pub send_new : Fresh → CreateMessageInput → Action Message
  send_new fresh input =
      is_single_attendant_enabled calls others input.sender_store_id >>= λ enabled.
      ensure_thread calls others fresh.thread_now fresh.thread_id input
      >>= send_in enabled fresh input

  abbrev pub existing_or_new : Fresh → CreateMessageInput → Option Message → Action Message
  existing_or_new fresh input none = send_new fresh input
  existing_or_new fresh input (some m) =
      return_authorized_existing_message calls others fresh.now m input

  abbrev pub send_once : Fresh → CreateMessageInput → Option String → Action Message
  send_once fresh input none = send_new fresh input
  send_once fresh input (some client_message_id) =
      find_message calls others input.sender_store_id client_message_id
      >>= existing_or_new fresh input

  unfoldable pub create_message : Fresh → CreateMessageInput → Action Message
  create_message fresh input =
      if is_chat_attendant_role (normalize_chat_user_role input.sender_user_role)
      then send_once fresh input (present input.client_message_id)
      else throw attendance_attendant_role_required
