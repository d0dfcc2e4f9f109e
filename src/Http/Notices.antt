-- ===== src/Http/Notices.antt =====
-- POST /internal/notifications of src/http/app.ts: a notification is created or found, announced
-- unless it was announced before, and marked as announced.
pub mod Announced
use driveparts_websockets.Prelude.{ℕ, ◌+◌, Bool, true, false, not}
use driveparts_websockets.Effects.{World, pure, throw, ◌>>=◌, ◌>>◌, throw_if}
use driveparts_websockets.Notifications.{Content, Notification}
use driveparts_websockets.Notifications.Creating.{
  CreateResult, created, existing, conflict, duplicate_key, mark_realtime_published,
}
use driveparts_websockets.Serializers.{serialize_notification}
use driveparts_websockets.Gateway.{publish_notification}
use driveparts_websockets.Http.{Response, answer, notified, Raised, raised}
use driveparts_websockets.Http.Publications.{
  Calls, Stored, Moment, Route, call, creating, emitting, responded, database_error,
  notification_conflict,
}

abbrev pub notification_lost : Raised
notification_lost = raised "notification_realtime_receipt_lost"

module _ (calls : Calls) (others : ℕ → Stored → Stored) (moment : Moment) where
  abbrev pub marking : Notification → Stored → Stored × Bool
  marking n s =
      let (notifications, marked) =
        mark_realtime_published calls.notifications n moment.published_now s.notifications in
      (record s { notifications = notifications }, marked)

  abbrev pub notified_answer : Bool → Notification → Response
  notified_answer suppressed n =
      answer 202 (notified suppressed (serialize_notification calls.around.to_hex n))

  abbrev pub announce_notification : Notification → Route Response
  announce_notification n =
      emitting calls others moment (publish_notification calls.around moment.version n)
      >> (call calls others moment (marking n) >>= λ marked.
          throw_if (not marked) notification_lost >> pure (notified_answer false n))

  abbrev pub by_creation : CreateResult → Route Response
  by_creation (created n) = announce_notification n
  by_creation (existing n true) = pure (notified_answer true n)
  by_creation (existing n false) = announce_notification n
  by_creation conflict = throw notification_conflict
  by_creation duplicate_key = throw database_error

  unfoldable pub notifications : Content → Route Response
  notifications input =
      call calls others moment (creating calls others moment input) >>= by_creation

  -- The route with the error handler behind it.
  unfoldable pub handle_notification : Content → World Stored → World Stored × Response
  handle_notification input w = responded calls others moment (notifications input w)
