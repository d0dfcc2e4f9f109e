-- ===== src/Http/Chats.antt =====
-- POST /internal/chat-messages/publish of src/http/app.ts: a stored message is sent to the rooms of
-- its two stores.
use driveparts_websockets.Prelude.{ℕ, Option, none, some, String}
use driveparts_websockets.Effects.{Result, ok, err}
use driveparts_websockets.Attendance
use driveparts_websockets.Attendance.{Message}
use driveparts_websockets.Attendance.Actions
use driveparts_websockets.Attendance.Listing.{find_message_by_id}
use driveparts_websockets.Serializers.{serialize_chat_message}
use driveparts_websockets.Gateway.{Gateway, Around, publish_chat_message}
use driveparts_websockets.Http.{Response, answer, refused, chat_message}
use driveparts_websockets.Http.Errors.{internal_error}

module _ (around : Around) (version : ℕ → String) where
  abbrev by_message : Option Message → Gateway → Gateway × Response
  by_message none g = (g, answer 404 (refused "not_found" "message_not_found"))
  by_message (some m) g = (
    publish_chat_message around version m g,
    answer 202 (chat_message (serialize_chat_message around.to_hex m)),
  )

  -- The repository's errors reach the error handler, which answers 500.
  abbrev found : Gateway → Result Attendance.Error (Option Message) → Gateway × Response
  found g (ok message) = by_message message g
  found g (err e) = (g, internal_error 200)

  unfoldable publish_chat_messages :
      Attendance.Calls
      → (ℕ → Attendance.Store → Attendance.Store)
      → String
      → Actions.World
      → Gateway
      → Actions.World × Gateway × Response
  publish_chat_messages calls others message_id w g =
      let (w', message) = find_message_by_id calls others message_id w in
      let (g', response) = found g message in (w', g', response)
