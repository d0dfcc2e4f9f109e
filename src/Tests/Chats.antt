-- ===== src/Tests/Chats.antt =====
-- Threads between stores at concrete inputs.
use driveparts_websockets.Prelude.{
  ℕ, ◌≡◌, refl, true, false, Option, none, some, List, [], ◌∷◌, String, ◌==◌, eqb, if◌then◌else◌,
  trim,
}
use driveparts_websockets.Prelude.Sorting.{Ascending}
use driveparts_websockets.Mongo.{listed, sorted}
use driveparts_websockets.Attendance.{
  Calls, seller, origin, Side, Thread, opened, store_to_store, Message, CreateMessageInput, Error,
  attendance_side_already_assigned, thread_conflicts, message_conflicts, setting_conflicts,
}
use driveparts_websockets.Attendance.Actions.{World, err}
use driveparts_websockets.Attendance.Sides.{
  normalize_chat_user_role, normalize_optional_id, is_thread_visible_to_user,
  assert_sender_can_handle_thread_side,
}
use driveparts_websockets.Attendance.Send.{Fresh, Sender, undisturbed, store_message}
use driveparts_websockets.Attendance.Create.{create_message}
use driveparts_websockets.Attendance.Grows.{Grows, Grows-refl}
use driveparts_websockets.Attendance.NeverBack.{create_message_never_back}
use driveparts_websockets.Attendance.Listing.{
  ListMessagesInput, list_messages, merge_chat_messages_by_id,
}
use driveparts_websockets.Attendance.Listed.{Lists, sellers_see_open_threads}
use driveparts_websockets.Attendance.Merged.{holds, merge_chat_messages_by_id-Ascending}
use driveparts_websockets.Attendance.Read.{MarkConversationReadInput, mark_conversation_read}
use driveparts_websockets.Attendance.Seen.{Answers, mark_conversation_read_complete}
use driveparts_websockets.Tests.Ids.{tallied, untallied, untallied-tallied}
use driveparts_websockets.Attendance.Sending.{store_message_refused}

abbrev two_parts : List (List ℕ)
two_parts = (1 ∷ []) ∷ (2 ∷ []) ∷ []

-- The text "7" is the id 7, "8" the id 8, and no other text is an id.
abbrev id_of : String → Option ℕ
id_of s = if s == "7" then some 7 else if s == "8" then some 8 else none

abbrev hex_of : ℕ → String
hex_of n = if eqb n 7 then "7" else "8"

abbrev no_bytes : String → List ℕ
no_bytes s = []

abbrev no_hash : List ℕ → String
no_hash bytes = "h"

abbrev calls : Calls
calls = record {
  threads = listed thread_conflicts;
  messages = listed message_conflicts;
  settings = listed setting_conflicts;
  sorted_messages = sorted (λ m. m._id);
  object_id_of = id_of;
  to_hex = hex_of;
  same_attachments = λ a b. true;
  same_reference = λ a b. true;
  bytes = no_bytes;
  sha256 = no_hash;
}

abbrev free_side : String → Side
free_side store_id = record {
  store_id = store_id;
  responsible_user_id = none;
  responsible_user_name = none;
  responsible_user_role = none;
  assigned_at = none;
}

abbrev held_side : Side
held_side = record {
  store_id = "s1";
  responsible_user_id = some "u2";
  responsible_user_name = some "n2";
  responsible_user_role = some seller;
  assigned_at = some 5;
}

abbrev thread : Side → Thread
thread side = record {
  _id = 7;
  attendance_thread_key = "k";
  client_thread_id = some "c";
  channel = store_to_store;
  status = opened;
  origin_side = side;
  target_side = free_side "s2";
  participant_store_ids = "s1" ∷ "s2" ∷ [];
  created_at = 10;
  updated_at = 20;
  last_message_id = some 1;
  last_message_preview = some "old";
  last_message_at = some 20;
}

abbrev world : Side → List Message → World
world side messages = record {
  store = record { threads = thread side ∷ []; messages = messages; settings = [] };
  sent = 0;
}

abbrev input : CreateMessageInput
input = record {
  sender_store_id = "s1";
  recipient_store_id = "s2";
  sender_user_id = "u1";
  attendance_thread_id = some "7";
  client_thread_id = none;
  sender_user_name = some "n1";
  sender_user_role = some "seller";
  body = "hello";
  attachments = none;
  reference = none;
  client_message_id = some "m1";
}

abbrev fresh : Fresh
fresh = record { thread_now = 30; thread_id = 8; now = 30; message_id = 9; assigned_at = 30 }

abbrev sender : Sender
sender = record { store_id = "s1"; user_id = "u1"; user_name = "n1"; user_role = seller }

abbrev message : ℕ → Message
message id = record {
  _id = id;
  attendance_thread_id = "7";
  attendance_thread_key = "k";
  client_thread_id = some "c";
  channel = store_to_store;
  sender_store_id = "s2";
  recipient_store_id = "s1";
  sender_user_id = "u9";
  sender_user_name = none;
  sender_user_role = none;
  message_type = none;
  transfer = none;
  body = "hello";
  created_at = 30;
  attachments = none;
  reference = none;
  client_message_id = none;
  delivered_at = none;
  read_at = none;
  attendance_responsibles = none;
}

create_message_never_back_example :
    Grows
      (thread (free_side "s1") ∷ [])
      (create_message calls undisturbed false fresh input
        (world (free_side "s1") [])).0.store.threads
create_message_never_back_example =
    create_message_never_back calls undisturbed false fresh input (world (free_side "s1") [])
      (λ i s. Grows-refl s.threads)

-- The error that names the other user.
abbrev refusal : Error
refusal = attendance_side_already_assigned (record {
  store_id = "s1";
  user_id = "u2";
  user_name = "n2";
  user_role = seller;
  assigned_at = 5;
})

refuses : assert_sender_can_handle_thread_side 30 (thread held_side) "s1" "u1" ≡ some refusal
unfolding assert_sender_can_handle_thread_side
refuses = refl

store_message_refused_example :
    let (w', r) =
      store_message calls undisturbed true input fresh sender (message 9) 7 (world held_side []) in
    (r ≡ err refusal) × (w'.store ≡ (world held_side []).store)
store_message_refused_example =
    store_message_refused calls fresh input sender (message 9) 7 (thread held_side) origin
      (world held_side []) (refl, tt) refl refl refl refl refusal refuses

-- Ids are written with ones, and read with any characters.
abbrev spelled : Calls
spelled = record calls { object_id_of = untallied; to_hex = tallied }

abbrev reading : String → MarkConversationReadInput
reading text = record {
  store_id = "s1";
  user_id = "u2";
  user_role = some "seller";
  attendance_thread_id = text;
}

abbrev of_thread : Message
of_thread = record (message 9) { attendance_thread_id = "1111111" }

abbrev unread_world : World
unread_world = world held_side (of_thread ∷ [])

-- The thread is held by the reader, and its message is marked.
mark_conversation_read_complete_example :
    Answers spelled
      (reading "1111111")
      (mark_conversation_read spelled undisturbed 50 (reading "1111111") unread_world)
      (record unread_world.store { messages = record of_thread { read_at = some 50 } ∷ [] })
      1
unfolding normalize_chat_user_role trim is_thread_visible_to_user
mark_conversation_read_complete_example =
    mark_conversation_read_complete spelled 50 7 (reading "1111111") (thread held_side) unread_world
      untallied-tallied ((7, refl), tt) refl refl

merge_chat_messages_by_id-Ascending_example :
    Ascending
      (λ (m : Message). m._id)
      (merge_chat_messages_by_id (message 9 ∷ message 8 ∷ message 9 ∷ []))
    × ((id : ℕ)
        → holds id (merge_chat_messages_by_id (message 9 ∷ message 8 ∷ message 9 ∷ []))
          ≡ holds id (message 9 ∷ message 8 ∷ message 9 ∷ []))
merge_chat_messages_by_id-Ascending_example =
    merge_chat_messages_by_id-Ascending (message 9 ∷ message 8 ∷ message 9 ∷ [])

abbrev listing : ListMessagesInput
listing = record {
  store_id = "s1";
  user_id = "u2";
  user_role = some "seller";
  peer_store_id = none;
  attendance_thread_id = none;
  before_message_id = none;
  after_message_id = none;
  limit = 10;
}

sellers_see_open_threads_example :
    Lists ("7" ∷ []) (list_messages calls undisturbed listing (world held_side (message 9 ∷ [])))
unfolding normalize_chat_user_role normalize_optional_id trim
sellers_see_open_threads_example =
    sellers_see_open_threads calls listing (world held_side (message 9 ∷ [])) refl refl refl
