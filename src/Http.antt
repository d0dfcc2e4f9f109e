-- ===== src/Http.antt =====
-- src/http/app.ts: the internal routes, by which the other services of the shop announce publications,
-- notifications and messages, and what the error handler answers.
pub mod Requests
pub mod Errors
pub mod Events
pub mod Publications
pub mod Notices
pub mod Chats
use driveparts_websockets.Prelude.{ℕ, Bool, true, false, Option, none, some, List, String}
use driveparts_websockets.Gateway.{PublicationResultEvent}
use driveparts_websockets.Serializers.{NotificationPayload, ChatMessagePayload}

-- An issue of the schema validation, its path joined with dots.
pub record Issue : Type 0 where
  pub path : String
  pub message : String

pub data Body : Type 0 where
  -- { ok: false, error: { code, message } }
  refused : (code message : String) → Body
  -- The same with retryable: true and retry_after_seconds: 1.
  retryable : (code message : String) → Body
  -- The same with details.
  invalid_fields : (code message : String) → List Issue → Body
  invalid_keys : (code message : String) → List String → Body
  suppressed : (reason : String) → Body
  published : PublicationResultEvent → Option NotificationPayload → Body
  notified : (suppressed : Bool) → NotificationPayload → Body
  chat_message : ChatMessagePayload → Body

pub record Response : Type 0 where
  pub status : ℕ
  pub retry_after : Option String
  pub body : Body

abbrev pub answer : ℕ → Body → Response
answer status body = record { status = status; retry_after = none; body = body }

-- What `instanceof` tells of a thrown value.
pub data ErrorClass : Type 0 where
  zod_error : List Issue → ErrorClass
  notification_idempotency_conflict_error : ErrorClass
  publication_result_idempotency_conflict_error : ErrorClass
  error : ErrorClass
  no_error : ErrorClass

-- A thrown value: its class, its property `type` and its message.
pub record Raised : Type 0 where
  pub class : ErrorClass
  pub type : Option String
  pub message : String

abbrev pub raised : String → Raised
raised message = record { class = error; type = none; message = message }
