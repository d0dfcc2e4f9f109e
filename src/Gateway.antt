-- ===== src/Gateway.antt =====
-- src/socket/realtime_gateway.ts: which event goes to the sockets in which rooms, after the cached
-- first answers that it makes old are invalidated.
pub mod Rooms
pub mod Audience
use driveparts_websockets.Prelude.{
  ℕ, Bool, true, false, Option, none, some, List, [], ◌∷◌, ◌++◌, String, ◌==◌, if◌then◌else◌, first,
  dedupe, contains,
}
use driveparts_websockets.Prelude.Maps.{Map}
use driveparts_websockets.Config.{AppConfig}
use driveparts_websockets.SyncCache.{invalidate_chat, invalidate_notification, invalidate_ecommerce}
use driveparts_websockets.Publication.{ResultInput, Status}
use driveparts_websockets.Publication.Resolve.{Snapshot}
use driveparts_websockets.Notifications.{Notification, present_text}
use driveparts_websockets.Attendance
use driveparts_websockets.Ecommerce
use driveparts_websockets.Presence.{PresencePayload}
use driveparts_websockets.Serializers.{
  NotificationPayload, ChatMessagePayload, EcommerceMessagePayload, ContactPayload,
  serialize_notification, serialize_chat_message, serialize_ecommerce_message,
  serialize_ecommerce_customer_contact,
}
use driveparts_websockets.Gateway.Rooms.{
  store_room, chat_user_room, notification_user_room, publication_store_room,
  support_request_store_room, support_request_queue_room, store_chat_attendant_room,
  ecommerce_store_attendant_room, marketplace_store_attendant_room, ecommerce_customer_room,
  ecommerce_presence_room, store_presence_listener_room,
}

pub record ChatReadPublishInput : Type 0 where
  pub store_id : String
  pub attendance_thread_id : String
  pub participant_store_ids : List String
  pub attendance_responsibles : Option (List Attendance.Responsible)
  pub read_at : ℕ

pub record EcommerceReadPublishInput : Type 0 where
  pub conversation_id : String
  pub store_id : String
  pub visitor_id : String
  pub reader_type : Ecommerce.SenderType
  pub read_at : ℕ

pub record MarketplaceReadPublishInput : Type 0 where
  pub conversation_key : String
  pub store_id : String
  pub read_at : ℕ

-- `PublicationResultEvent`; its publication_result_id is its idempotency key, its schema version 1.
pub record PublicationResultEvent : Type 0 where
  pub idempotency_key : String
  pub event_id : String
  pub delivery_id : String
  pub store_id : String
  pub inventory_item_integration_id : String
  pub integration_id : String
  pub inventory_item_id : String
  pub channel : String
  pub status : Status
  pub execution_id : String
  pub attempt : ℕ
  pub finished_at : String
  pub operation : Option String
  pub external_listing_id : Option String
  pub inventory_item_integration : Snapshot

-- What a client receives.
pub data Payload : Type 0 where
  chat_message : ChatMessagePayload → Payload
  chat_read : (store_id attendance_thread_id : String) → (read_at : ℕ) → Payload
  ecommerce_message : EcommerceMessagePayload → Payload
  ecommerce_contact : ContactPayload → Payload
  ecommerce_read :
      (conversation_id store_id : String) → Ecommerce.SenderType → (read_at : ℕ) → Payload
  marketplace_read : (conversation_key store_id : String) → (read_at : ℕ) → Payload
  marketplace_read_all : (store_id : String) → (read_at : ℕ) → Payload
  presence : PresencePayload → Payload
  notification : NotificationPayload → Payload
  notification_read :
      (notification_id store_id : String) → (user_id : Option String) → (read_at : ℕ) → Payload
  notification_read_all : (store_id user_id : String) → (read_at : ℕ) → Payload
  publication_result : PublicationResultEvent → Payload

pub record Emission : Type 0 where
  pub rooms : List String
  pub event : String
  pub payload : Payload

-- The versions of the cached answers, and what was emitted, the oldest first.
pub record Gateway : Type 0 where
  pub kv : Map String
  pub emitted : List Emission

-- What the gateway calls: base64url of Buffer, the hexadecimal text of an id, and what the cache needs:
-- its settings, the bytes of a text, the text of a SHA-256, and whether Redis is ready.
pub record Around : Type 0 where
  pub base64url : String → String
  pub to_hex : ℕ → String
  pub config : AppConfig
  pub bytes : String → List ℕ
  pub sha256 : List ℕ → String
  pub ready : Bool

abbrev pub emit : List String → String → Payload → Gateway → Gateway
emit rooms event payload g = record g {
  emitted = g.emitted ++ record { rooms = rooms; event = event; payload = payload } ∷ [];
}

-- `Set.add`
abbrev pub add_room : String → List String → List String
add_room room rooms = if contains room rooms then rooms else rooms ++ room ∷ []

abbrev pub responsible_of :
    String → Option (List Attendance.Responsible) → Option Attendance.Responsible
responsible_of store_id none = none
responsible_of store_id (some rs) = first (λ r. r.store_id == store_id) rs

abbrev drop_empty : List String → List String
drop_empty [] = []
drop_empty (s ∷ ss) = let rest = drop_empty ss in if s == "" then rest else s ∷ rest

-- `version i` is the random text of the i-th version that a call renews.
module _ (around : Around) (version : ℕ → String) where
  abbrev pub add_responsible_or_sellers :
      String → Option Attendance.Responsible → List String → List String
  add_responsible_or_sellers store_id none rooms =
      add_room (store_chat_attendant_room around.base64url store_id "seller") rooms
  add_responsible_or_sellers store_id (some r) rooms =
      add_room (chat_user_room around.base64url store_id r.user_id) rooms

  unfoldable pub add_chat_visibility_rooms :
      String → Option (List Attendance.Responsible) → List String → List String
  add_chat_visibility_rooms store_id responsibles rooms =
      add_responsible_or_sellers store_id (responsible_of store_id responsibles)
        (add_room (store_chat_attendant_room around.base64url store_id "master") rooms)

  abbrev pub message_rooms : Attendance.Message → List String
  message_rooms m = add_chat_visibility_rooms m.recipient_store_id m.attendance_responsibles (
      add_chat_visibility_rooms m.sender_store_id m.attendance_responsibles
        (chat_user_room around.base64url m.sender_store_id m.sender_user_id ∷ []))

  abbrev without_chat : List String → Gateway → Gateway
  without_chat store_ids g = record g {
    kv =
        invalidate_chat around.config around.bytes around.sha256 around.ready version store_ids
          g.kv;
  }

  abbrev without_ecommerce : String → String → Gateway → Gateway
  without_ecommerce store_id visitor_id g = record g {
    kv =
        invalidate_ecommerce around.config around.bytes around.sha256 around.ready version store_id
          visitor_id g.kv;
  }

  abbrev pub without_notification : String → Option String → Gateway → Gateway
  without_notification store_id user_id g = record g {
    kv =
        invalidate_notification around.config around.bytes around.sha256 around.ready version
          store_id user_id g.kv;
  }

  unfoldable pub publish_chat_message : Attendance.Message → Gateway → Gateway
  publish_chat_message m g =
      emit (message_rooms m) "chat:message" (chat_message (serialize_chat_message around.to_hex m))
        (without_chat (m.sender_store_id ∷ m.recipient_store_id ∷ []) g)

  abbrev pub read_rooms :
      Option (List Attendance.Responsible) → List String → List String → List String
  read_rooms responsibles [] rooms = rooms
  read_rooms responsibles (store_id ∷ ids) rooms =
      read_rooms responsibles ids (add_chat_visibility_rooms store_id responsibles rooms)

  unfoldable pub publish_chat_read : ChatReadPublishInput → Gateway → Gateway
  publish_chat_read input g =
      let store_ids = input.store_id ∷ input.participant_store_ids in
      emit (read_rooms input.attendance_responsibles (dedupe (drop_empty store_ids)) []) "chat:read"
        (chat_read input.store_id input.attendance_thread_id input.read_at)
        (without_chat store_ids g)

  abbrev pub ecommerce_rooms : String → String → List String
  ecommerce_rooms store_id visitor_id =
      ecommerce_store_attendant_room around.base64url store_id "master"
      ∷ ecommerce_store_attendant_room around.base64url store_id "seller"
      ∷ ecommerce_customer_room around.base64url store_id visitor_id
      ∷ []

  unfoldable publish_ecommerce_message : Ecommerce.Message → Gateway → Gateway
  publish_ecommerce_message m g =
      emit (ecommerce_rooms m.store_id m.visitor_id) "ecommerce_chat:message"
        (ecommerce_message (serialize_ecommerce_message around.to_hex m))
        (without_ecommerce m.store_id m.visitor_id g)

  unfoldable publish_ecommerce_contact : Ecommerce.Conversation → Gateway → Gateway
  publish_ecommerce_contact c g =
      emit (ecommerce_rooms c.store_id c.visitor_id) "ecommerce_chat:contact"
        (ecommerce_contact (serialize_ecommerce_customer_contact around.to_hex c))
        (without_ecommerce c.store_id c.visitor_id g)

  unfoldable publish_ecommerce_read : EcommerceReadPublishInput → Gateway → Gateway
  publish_ecommerce_read input g =
      emit (ecommerce_rooms input.store_id input.visitor_id) "ecommerce_chat:read"
        (ecommerce_read input.conversation_id input.store_id input.reader_type input.read_at)
        (without_ecommerce input.store_id input.visitor_id g)

  abbrev marketplace_rooms : String → List String
  marketplace_rooms store_id =
      marketplace_store_attendant_room around.base64url store_id "master"
      ∷ marketplace_store_attendant_room around.base64url store_id "seller"
      ∷ []

  unfoldable publish_marketplace_read : MarketplaceReadPublishInput → Gateway → Gateway
  publish_marketplace_read input g =
      emit (marketplace_rooms input.store_id) "marketplace_chat:read"
        (marketplace_read input.conversation_key input.store_id input.read_at) g

  unfoldable publish_marketplace_read_all : String → ℕ → Gateway → Gateway
  publish_marketplace_read_all store_id read_at g =
      emit (marketplace_rooms store_id) "marketplace_chat:read_all"
        (marketplace_read_all store_id read_at) g

  unfoldable publish_store_presence : PresencePayload → Gateway → Gateway
  publish_store_presence p g =
      emit
        (store_presence_listener_room around.base64url p.store_id
          ∷ ecommerce_presence_room around.base64url p.store_id
          ∷ [])
        "presence:update" (presence p) g

  abbrev pub notification_room : String → Option String → String
  notification_room store_id none = store_room around.base64url store_id
  notification_room store_id (some user_id) =
      notification_user_room around.base64url store_id user_id

  unfoldable pub publish_notification : Notification → Gateway → Gateway
  publish_notification n g =
      emit (notification_room n.content.store_id (present_text n.content.user_id) ∷ [])
        "notification:new" (notification (serialize_notification around.to_hex n))
        (without_notification n.content.store_id n.content.user_id g)

  abbrev time_or : ℕ → Option ℕ → ℕ
  time_or now none = now
  time_or now (some at) = at

  unfoldable publish_notification_read : Notification → ℕ → Gateway → Gateway
  publish_notification_read n now g =
      emit (notification_room n.content.store_id (present_text n.content.user_id) ∷ [])
        "notification:read"
        (notification_read (around.to_hex n._id) n.content.store_id (present_text n.content.user_id)
          (time_or now n.read_at))
        (without_notification n.content.store_id n.content.user_id g)

  -- The two invalidations are sent one after the other.
  unfoldable publish_notifications_read_all : String → String → ℕ → Gateway → Gateway
  publish_notifications_read_all store_id user_id read_at g =
      emit
        (store_room around.base64url store_id
          ∷ notification_user_room around.base64url store_id user_id
          ∷ [])
        "notification:read_all" (notification_read_all store_id user_id read_at)
        (without_notification store_id (some user_id) (without_notification store_id none g))

  unfoldable pub publish_publication_result : PublicationResultEvent → Gateway → Gateway
  publish_publication_result result g =
      emit (publication_store_room around.base64url result.store_id ∷ []) "publication:result"
        (publication_result result) g
