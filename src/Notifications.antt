-- ===== src/Notifications.antt =====
-- src/repositories/notification_repository.ts: the notifications of a store, created at most once for
-- each idempotency key, listed in pages, and marked as read.
pub mod Creating
pub mod Listing
pub mod Marking
pub mod Create
pub mod Owned
pub mod Read
pub mod Pages
use mathlib.Core.Option
use driveparts_websockets.Prelude.{
  ℕ, ◌+◌, ◌≡◌, Bool, true, false, not, ◌&&◌, ◌||◌, Option, none, some, List, [], ◌∷◌, String, leb,
  ltb, eqb, ◌==◌, if◌then◌else◌, opt_eq, is_some, length, take, reverse, first, trim,
}
use driveparts_websockets.Value.{Fields}
use driveparts_websockets.Mongo.{Collection, SortedReads}

pub data NotificationType : Type 0 where
  listing_updated listing_error attendance_transfer : NotificationType
  marketplace_message_received marketplace_question_received : NotificationType
  marketplace_sale_created : NotificationType

pub data Severity : Type 0 where
  info warning error : Severity

pub data Source : Type 0 where
  driveparts mercado_livre_brasil shopee google_merchant system : Source

pub data Entity : Type 0 where
  listing inventory_item integration attendance_thread : Entity
  integration_sale_message integration_question sale : Entity

pub NotificationType-discrete : Discrete NotificationType
NotificationType-discrete = hlevel

pub Severity-discrete : Discrete Severity
Severity-discrete = hlevel

pub Source-discrete : Discrete Source
Source-discrete = hlevel

pub Entity-discrete : Discrete Entity
Entity-discrete = hlevel

-- `===` on the values of an enumeration.
abbrev pub is_yes {ℓ} : {P : Type ℓ} → Dec P → Bool
is_yes (yes _) = true
is_yes (no _) = false

-- The fields that the input and the document share.
pub record Content : Type 0 where
  pub store_id : String
  pub user_id : Option String
  pub type : NotificationType
  pub severity : Severity
  pub source : Source
  pub entity : Entity
  pub title : String
  pub message : String
  pub idempotency_key : Option String
  pub channel : Option String
  pub listing_id : Option String
  pub integration_id : Option String
  pub inventory_item_id : Option String
  pub external_listing_id : Option String
  pub fields : Option Fields

-- `NotificationDocument`; `data` is the field `fields`.
pub record Notification : Type 0 where
  pub _id : ℕ
  pub content : Content
  pub created_at : ℕ
  pub realtime_published_at : Option ℕ
  pub read_at : Option ℕ

abbrev pub same_some : Option String → Option String → Bool
same_some (some a) (some b) = a == b
same_some _ _ = false

-- The unique indexes: `_id`, and store_id_1_idempotency_key_1 where there is a key.
abbrev pub conflicts : Notification → Notification → Bool
conflicts a b =
    eqb a._id b._id
    || (b.content.store_id == a.content.store_id
        && same_some b.content.idempotency_key a.content.idempotency_key)

abbrev pub Notifications : Type 0
Notifications = Collection Notification conflicts

-- `value ? { value } : {}`: an empty text is left out.
abbrev pub present_text : Option String → Option String
present_text none = none
present_text (some s) = if s == "" then none else some s

-- `build_notification_visibility_conditions`: one of the conditions holds of the document.
unfoldable pub is_visible : String → Notification → Bool
is_visible user_id d =
    let normalized = trim user_id in
    opt_eq d.content.user_id none
    || (not (normalized == "") && opt_eq d.content.user_id (some normalized))

abbrev pub is_unread : Notification → Bool
is_unread d = not (is_some d.read_at)
