-- ===== src/Ecommerce.antt =====
-- src/repositories/ecommerce_chat_repository.ts: the conversation of a visitor of a shop with the
-- store, its messages, and how many of them each side has not read.
pub mod Actions
pub mod Latest
pub mod Idempotent
pub mod Conversations
pub mod Identity
pub mod Sending
pub mod Reading
pub mod Listing
pub mod Grows
pub mod Updates
pub mod Operations
pub mod NeverBack
pub mod Counted
pub mod Again
use driveparts_websockets.Prelude.{
  ℕ, ◌+◌, Bool, true, false, not, ◌&&◌, ◌||◌, Option, none, some, List, String, ◌==◌, eqb, ltb, leb,
}
use driveparts_websockets.Mongo.{Collection, SortedReads, OrderedReads}

pub data SenderType : Type 0 where
  website_customer store_user : SenderType

abbrev pub same_sender : SenderType → SenderType → Bool
same_sender website_customer website_customer = true
same_sender store_user store_user = true
same_sender _ _ = false

pub data AttendantRole : Type 0 where
  master seller : AttendantRole

pub data ConversationStatus : Type 0 where
  waiting opened closed : ConversationStatus

pub record InventoryItemReference : Type 0 where
  pub inventory_item_id : String
  pub inventory_item_name : String
  pub inventory_item_url : String
  pub inventory_item_checkout_url : String
  pub inventory_item_thumbnail_url : Option String

pub data DeviceType : Type 0 where
  desktop mobile tablet unknown : DeviceType

-- `EcommerceLeadMetadata`; its source is always 'mercado_drive'.
pub record LeadMetadata : Type 0 where
  pub device_type : DeviceType
  pub landing_page_url : String
  pub ip_address : Option String
  pub user_agent : Option String
  pub referrer_url : Option String
  pub utm_source : Option String
  pub utm_medium : Option String
  pub utm_campaign : Option String
  pub utm_content : Option String
  pub utm_term : Option String

-- `EcommerceConversationDocument`; its channel is always 'e_commerce'. An id is the number of its
-- ObjectId, dates are milliseconds, and `last_message_id` is the number of its hexadecimal text,
-- since the texts compare as the numbers do.
pub record Conversation : Type 0 where
  pub _id : ℕ
  pub conversation_key : String
  pub store_id : String
  pub store_name : String
  pub visitor_id : String
  pub visitor_name : String
  pub customer_email : Option String
  pub customer_phone : Option String
  pub customer_contact_updated_at : Option ℕ
  pub status : ConversationStatus
  pub inventory_item_reference : InventoryItemReference
  pub lead_metadata : LeadMetadata
  pub responsible_user_id : Option String
  pub responsible_user_name : Option String
  pub responsible_user_role : Option AttendantRole
  pub created_at : ℕ
  pub updated_at : ℕ
  pub last_message_id : Option ℕ
  pub last_message_preview : Option String
  pub last_message_sender_type : Option SenderType
  pub last_message_at : Option ℕ
  pub unread_store_count : ℕ
  pub unread_customer_count : ℕ

-- `EcommerceMessageDocument`; its channel is always 'e_commerce' and its status 'sent'.
pub record Message : Type 0 where
  pub _id : ℕ
  pub conversation_id : String
  pub store_id : String
  pub visitor_id : String
  pub sender_type : SenderType
  pub sender_user_id : Option String
  pub sender_name : String
  pub sender_user_role : Option AttendantRole
  pub body : String
  pub inventory_item_reference : Option InventoryItemReference
  pub client_message_id : Option String
  pub idempotency_key : Option String
  pub created_at : ℕ
  pub read_at : Option ℕ

pub record CustomerIdentity : Type 0 where
  pub visitor_id : String
  pub visitor_name : String
  pub customer_email : Option String
  pub customer_phone : Option String
  pub store_id : String
  pub store_name : String
  pub inventory_item_reference : InventoryItemReference
  pub lead_metadata : LeadMetadata

pub record CreateCustomerMessageInput : Type 0 where
  pub identity : CustomerIdentity
  pub body : String
  pub client_message_id : Option String

pub record CreateStoreMessageInput : Type 0 where
  pub conversation_id : String
  pub store_id : String
  pub sender_user_id : String
  pub sender_name : String
  pub sender_user_role : AttendantRole
  pub body : String
  pub client_message_id : Option String

-- The errors the operations throw. `duplicate_key` is the database's own.
pub data Error : Type 0 where
  ecommerce_conversation_closed ecommerce_conversation_not_found : Error
  client_message_id_conflict duplicate_key : Error

-- The collections ecommerce_conversations and ecommerce_messages, as they are stored.
pub record Store : Type 0 where
  pub conversations : List Conversation
  pub messages : List Message

abbrev pub same_some : Option String → Option String → Bool
same_some (some a) (some b) = a == b
same_some _ _ = false

abbrev pub is_of : String → String → Conversation → Bool
is_of store_id visitor_id c = c.store_id == store_id && c.visitor_id == visitor_id

-- The unique indexes of ecommerce_conversations: `_id`, conversation_key_1 and
-- channel_1_store_id_1_visitor_id_1.
abbrev pub conversation_conflicts : Conversation → Conversation → Bool
conversation_conflicts a b =
    eqb a._id b._id || (a.conversation_key == b.conversation_key || is_of a.store_id a.visitor_id b)

-- The unique indexes of ecommerce_messages: `_id` and idempotency_key_1.
abbrev pub message_conflicts : Message → Message → Bool
message_conflicts a b = eqb a._id b._id || same_some a.idempotency_key b.idempotency_key

-- A field that is missing sorts last in a descending order.
abbrev descending : Option ℕ → Option ℕ → Bool → Bool
descending none none rest = rest
descending none (some b) rest = false
descending (some a) none rest = true
descending (some a) (some b) rest = ltb b a || (eqb a b && rest)

-- `{ last_message_at: -1, updated_at: -1, _id: -1 }`
abbrev pub latest_first : Conversation → Conversation → Bool
latest_first a b =
    descending a.last_message_at b.last_message_at
      (ltb b.updated_at a.updated_at || (eqb a.updated_at b.updated_at && leb b._id a._id))

-- What the repository calls: the commands on the two collections, ObjectId of the driver as the
-- number of a valid id and the hexadecimal text of a number, the bytes of a text and the base64url
-- text of the SHA-256 of bytes.
pub record Calls : Type 0 where
  pub conversations : Collection Conversation conversation_conflicts
  pub messages : Collection Message message_conflicts
  pub sorted_messages : SortedReads Message (λ m. m._id)
  pub ordered_conversations : OrderedReads Conversation latest_first
  pub object_id_of : String → Option ℕ
  pub to_hex : ℕ → String
  pub bytes : String → List ℕ
  pub sha256 : List ℕ → String

abbrev pub is_closed : Conversation → Bool
is_closed c = elim c.status [ closed ↦ true | _ ↦ false ]

-- `value ? { value } : {}`
abbrev pub present : Option String → Option String
present none = none
present (some s) = elim (s == "") [ true ↦ none | false ↦ some s ]
