-- ===== src/Serializers.antt =====
-- src/serializers/realtime.ts: what a client is shown of a stored document. A date is written as the
-- ISO text of its milliseconds, and is given here by them; `to_hex` is the hexadecimal text of an id.
use driveparts_websockets.Prelude.{ℕ, Option, none, some, List, [], ◌∷◌, String}
use driveparts_websockets.Value.{Fields}
use driveparts_websockets.Notifications.{
  NotificationType, Severity, Source, Entity, Notification, present_text,
}
use driveparts_websockets.Attendance
use driveparts_websockets.Ecommerce

pub record NotificationPayload : Type 0 where
  pub notification_id : String
  pub store_id : String
  pub user_id : Option String
  pub type : NotificationType
  pub severity : Severity
  pub source : Source
  pub entity : Entity
  pub title : String
  pub message : String
  pub created_at : ℕ
  pub idempotency_key : Option String
  pub channel : Option String
  pub listing_id : Option String
  pub integration_id : Option String
  pub inventory_item_id : Option String
  pub external_listing_id : Option String
  pub fields : Option Fields
  pub read_at : Option ℕ

-- A list that is there and not empty.
abbrev non_empty : {A : Type 0} → Option (List A) → Option (List A)
non_empty none = none
non_empty (some []) = none
non_empty (some (x ∷ xs)) = some (x ∷ xs)

pub record ChatMessagePayload : Type 0 where
  pub message_id : String
  pub attendance_thread_id : String
  pub attendance_thread_key : String
  pub client_thread_id : Option String
  pub channel : Attendance.Channel
  pub sender_store_id : String
  pub recipient_store_id : String
  pub sender_user_id : String
  pub sender_user_name : Option String
  pub sender_user_role : Option Attendance.UserRole
  pub message_type : Attendance.MessageType
  pub transfer : Option Attendance.Transfer
  pub body : String
  pub created_at : ℕ
  pub attachments : Option (List Attendance.Attachment)
  pub reference : Option Attendance.Reference
  pub client_message_id : Option String
  pub delivered_at : Option ℕ
  pub read_at : Option ℕ
  pub attendance_responsibles : Option (List Attendance.Responsible)

abbrev type_or_text : Option Attendance.MessageType → Attendance.MessageType
type_or_text none = Attendance.text
type_or_text (some t) = t

pub record EcommerceMessagePayload : Type 0 where
  pub message_id : String
  pub conversation_id : String
  pub store_id : String
  pub sender_type : Ecommerce.SenderType
  pub sender_name : String
  pub body : String
  pub inventory_item_reference : Option Ecommerce.InventoryItemReference
  pub client_message_id : Option String
  pub created_at : ℕ
  pub read_at : Option ℕ

pub record ContactPayload : Type 0 where
  pub conversation_id : String
  pub store_id : String
  pub customer_email : Option String
  pub customer_phone : Option String
  pub customer_contact_updated_at : Option ℕ

-- What a visitor is shown of the conversation.
pub record CustomerConversationPayload : Type 0 where
  pub conversation_id : String
  pub store_id : String
  pub store_name : String
  pub customer_email : Option String
  pub customer_phone : Option String
  pub customer_contact_updated_at : Option ℕ
  pub status : Ecommerce.ConversationStatus
  pub inventory_item_reference : Ecommerce.InventoryItemReference
  pub created_at : ℕ
  pub updated_at : ℕ
  pub last_message_id : Option ℕ
  pub last_message_at : Option ℕ
  pub unread_customer_count : ℕ

module _ (to_hex : ℕ → String) where
  unfoldable pub serialize_notification : Notification → NotificationPayload
  serialize_notification n = record {
    notification_id = to_hex n._id;
    store_id = n.content.store_id;
    user_id = present_text n.content.user_id;
    type = n.content.type;
    severity = n.content.severity;
    source = n.content.source;
    entity = n.content.entity;
    title = n.content.title;
    message = n.content.message;
    created_at = n.created_at;
    idempotency_key = present_text n.content.idempotency_key;
    channel = present_text n.content.channel;
    listing_id = present_text n.content.listing_id;
    integration_id = present_text n.content.integration_id;
    inventory_item_id = present_text n.content.inventory_item_id;
    external_listing_id = present_text n.content.external_listing_id;
    fields = n.content.fields;
    read_at = n.read_at;
  }

  unfoldable pub serialize_chat_message : Attendance.Message → ChatMessagePayload
  serialize_chat_message m = record {
    message_id = to_hex m._id;
    attendance_thread_id = m.attendance_thread_id;
    attendance_thread_key = m.attendance_thread_key;
    client_thread_id = present_text m.client_thread_id;
    channel = m.channel;
    sender_store_id = m.sender_store_id;
    recipient_store_id = m.recipient_store_id;
    sender_user_id = m.sender_user_id;
    sender_user_name = present_text m.sender_user_name;
    sender_user_role = m.sender_user_role;
    message_type = type_or_text m.message_type;
    transfer = m.transfer;
    body = m.body;
    created_at = m.created_at;
    attachments = non_empty m.attachments;
    reference = m.reference;
    client_message_id = present_text m.client_message_id;
    delivered_at = m.delivered_at;
    read_at = m.read_at;
    attendance_responsibles = non_empty m.attendance_responsibles;
  }

  unfoldable pub serialize_ecommerce_message : Ecommerce.Message → EcommerceMessagePayload
  serialize_ecommerce_message m = record {
    message_id = to_hex m._id;
    conversation_id = m.conversation_id;
    store_id = m.store_id;
    sender_type = m.sender_type;
    sender_name = m.sender_name;
    body = m.body;
    inventory_item_reference = m.inventory_item_reference;
    client_message_id = present_text m.client_message_id;
    created_at = m.created_at;
    read_at = m.read_at;
  }

  -- The payload of publish_ecommerce_contact.
  unfoldable pub serialize_ecommerce_customer_contact : Ecommerce.Conversation → ContactPayload
  serialize_ecommerce_customer_contact c = record {
    conversation_id = to_hex c._id;
    store_id = c.store_id;
    customer_email = present_text c.customer_email;
    customer_phone = present_text c.customer_phone;
    customer_contact_updated_at = c.customer_contact_updated_at;
  }

  unfoldable serialize_ecommerce_customer_conversation :
      Ecommerce.Conversation → CustomerConversationPayload
  serialize_ecommerce_customer_conversation c = record {
    conversation_id = to_hex c._id;
    store_id = c.store_id;
    store_name = c.store_name;
    customer_email = present_text c.customer_email;
    customer_phone = present_text c.customer_phone;
    customer_contact_updated_at = c.customer_contact_updated_at;
    status = c.status;
    inventory_item_reference = c.inventory_item_reference;
    created_at = c.created_at;
    updated_at = c.updated_at;
    last_message_id = c.last_message_id;
    last_message_at = c.last_message_at;
    unread_customer_count = c.unread_customer_count;
  }
