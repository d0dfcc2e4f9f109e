-- ===== src/Attendance.antt =====
-- src/repositories/chat_repository.ts: the threads in which two stores talk, their messages, and who
-- of each store is responsible for its side.
pub mod Actions
pub mod Sides
pub mod Latest
pub mod Metadata
pub mod Threads
pub mod Send
pub mod Create
pub mod Grows
pub mod Monotone
pub mod NeverBack
pub mod Listing
pub mod Recent
pub mod Read
pub mod Seen
pub mod Sending
pub mod Listed
pub mod Merged
use driveparts_websockets.Prelude.{
  ℕ, Bool, true, false, ◌&&◌, ◌||◌, Option, none, some, List, String, ◌==◌, eqb,
}
use driveparts_websockets.Value.{Value}
use driveparts_websockets.Mongo.{Collection, SortedReads}

pub data UserRole : Type 0 where
  master seller other : UserRole

pub data Channel : Type 0 where
  store_to_store website_customer : Channel

pub data ThreadStatus : Type 0 where
  waiting opened closed : ThreadStatus

pub data SideName : Type 0 where
  origin target : SideName

pub record Responsible : Type 0 where
  pub store_id : String
  pub user_id : String
  pub user_name : String
  pub user_role : UserRole
  pub assigned_at : ℕ

-- `AttendanceThreadSideDocument`; its type is always 'store'.
pub record Side : Type 0 where
  pub store_id : String
  pub responsible_user_id : Option String
  pub responsible_user_name : Option String
  pub responsible_user_role : Option UserRole
  pub assigned_at : Option ℕ

-- The errors the operations throw. `duplicate_key` is the database's own.
pub data Error : Type 0 where
  attendance_attendant_role_required : Error
  attendance_side_already_assigned : Responsible → Error
  attendance_thread_closed attendance_thread_not_found : Error
  client_message_id_conflict client_thread_id_conflict : Error
  duplicate_key : Error

-- `ChatConversationDocument`. An id is the number of its ObjectId; `last_message_id`, the
-- hexadecimal text of one, is that number too, since the texts compare as the numbers do.
pub record Thread : Type 0 where
  pub _id : ℕ
  pub attendance_thread_key : String
  pub client_thread_id : Option String
  pub channel : Channel
  pub status : ThreadStatus
  pub origin_side : Side
  pub target_side : Side
  pub participant_store_ids : List String
  pub created_at : ℕ
  pub updated_at : ℕ
  pub last_message_id : Option ℕ
  pub last_message_preview : Option String
  pub last_message_at : Option ℕ

pub data ImageType : Type 0 where
  jpeg png webp gif : ImageType

pub record Attachment : Type 0 where
  pub attachment_id : String
  pub file_name : String
  pub mime_type : ImageType
  pub size : ℕ
  pub url : String
  pub thumbnail_url : Option String

pub record Reference : Type 0 where
  pub inventory_item_id : String
  pub marketplace_name : String
  pub stock_keeping_unit : Option String
  pub price : Option Value
  pub thumbnail_url : Option String

pub record Transfer : Type 0 where
  pub transferred_by_user_id : String
  pub transferred_by_user_name : String
  pub transferred_by_user_role : UserRole
  pub transferred_to_user_id : String
  pub transferred_to_user_name : String
  pub transferred_to_user_role : UserRole
  pub transferred_to_store_id : String
  pub created_at : ℕ

pub data MessageType : Type 0 where
  text attendance_transfer attendance_closed : MessageType

-- `ChatMessageDocument`; its status is always 'sent'.
pub record Message : Type 0 where
  pub _id : ℕ
  pub attendance_thread_id : String
  pub attendance_thread_key : String
  pub client_thread_id : Option String
  pub channel : Channel
  pub sender_store_id : String
  pub recipient_store_id : String
  pub sender_user_id : String
  pub sender_user_name : Option String
  pub sender_user_role : Option UserRole
  pub message_type : Option MessageType
  pub transfer : Option Transfer
  pub body : String
  pub created_at : ℕ
  pub attachments : Option (List Attachment)
  pub reference : Option Reference
  pub client_message_id : Option String
  pub delivered_at : Option ℕ
  pub read_at : Option ℕ
  pub attendance_responsibles : Option (List Responsible)

pub record Setting : Type 0 where
  pub store_id : String
  pub single_attendant_enabled : Option Bool

pub record CreateMessageInput : Type 0 where
  pub sender_store_id : String
  pub recipient_store_id : String
  pub sender_user_id : String
  pub attendance_thread_id : Option String
  pub client_thread_id : Option String
  pub sender_user_name : Option String
  pub sender_user_role : Option String
  pub body : String
  pub attachments : Option (List Attachment)
  pub reference : Option Reference
  pub client_message_id : Option String

abbrev pub same_some : Option String → Option String → Bool
same_some (some a) (some b) = a == b
same_some _ _ = false

abbrev pub is_store_to_store : Channel → Bool
is_store_to_store store_to_store = true
is_store_to_store website_customer = false

-- The unique indexes of attendance_threads: `_id`, attendance_thread_key_1, and the partial index on
-- channel, origin, target and client thread of the threads between stores.
abbrev pub thread_conflicts : Thread → Thread → Bool
thread_conflicts a b =
    eqb a._id b._id
    || (a.attendance_thread_key == b.attendance_thread_key
        || (is_store_to_store a.channel
            && (is_store_to_store b.channel
                && (a.origin_side.store_id == b.origin_side.store_id
                    && (a.target_side.store_id == b.target_side.store_id
                        && same_some a.client_thread_id b.client_thread_id)))))

-- The unique indexes of attendance_messages: `_id` and sender_store_id_1_client_message_id_1.
abbrev pub message_conflicts : Message → Message → Bool
message_conflicts a b =
    eqb a._id b._id
    || (a.sender_store_id == b.sender_store_id && same_some a.client_message_id b.client_message_id)

abbrev pub setting_conflicts : Setting → Setting → Bool
setting_conflicts a b = a.store_id == b.store_id

-- The three collections of the repository, as they are stored.
pub record Store : Type 0 where
  pub threads : List Thread
  pub messages : List Message
  pub settings : List Setting

-- What the repository calls: the commands on the three collections, ObjectId of the driver as the
-- number of a valid id and the hexadecimal text of a number, isDeepStrictEqual, the bytes of a text
-- and the base64url text of the SHA-256 of bytes.
pub record Calls : Type 0 where
  pub threads : Collection Thread thread_conflicts
  pub messages : Collection Message message_conflicts
  pub settings : Collection Setting setting_conflicts
  pub sorted_messages : SortedReads Message (λ m. m._id)
  pub object_id_of : String → Option ℕ
  pub to_hex : ℕ → String
  pub same_attachments : List Attachment → List Attachment → Bool
  pub same_reference : Option Reference → Option Reference → Bool
  pub bytes : String → List ℕ
  pub sha256 : List ℕ → String
