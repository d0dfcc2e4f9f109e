-- ===== src/Notifications/Marking.antt =====
-- mark_read and mark_all_read of src/repositories/notification_repository.ts.
use driveparts_websockets.Prelude.{
  ℕ, Bool, true, false, ◌&&◌, Option, none, some, List, String, eqb, ◌==◌,
}
use driveparts_websockets.Notifications.{Notification, Notifications, is_visible, is_unread}

pub record ReadResult : Type 0 where
  pub notification : Option Notification
  pub changed : Bool

abbrev pub readable : String → String → ℕ → Notification → Bool
readable store_id user_id id d =
    eqb d._id id && (d.content.store_id == store_id && is_visible user_id d)

abbrev pub set_read : ℕ → Notification → Notification
set_read now d = record d { read_at = some now }

module _ (object_id_of : String → Option ℕ) (db : Notifications) where
  abbrev after_update :
      (List Notification → List Notification)
      → (Notification → Bool)
      → List Notification × Option Notification
      → List Notification × ReadResult
  after_update between filter (docs, some d) =
      (docs, record { notification = some d; changed = true })
  after_update between filter (docs, none) =
      let docs' = between docs in
      (docs', record { notification = db.find_one filter docs'; changed = false })

  abbrev mark_found :
      (List Notification → List Notification)
      → String
      → String
      → Option ℕ
      → ℕ
      → List Notification
      → List Notification × ReadResult
  mark_found between store_id user_id none now docs =
      (docs, record { notification = none; changed = false })
  mark_found between store_id user_id (some id) now docs =
      after_update between (readable store_id user_id id) (
        db.find_one_and_update (λ d. readable store_id user_id id d && is_unread d) (set_read now)
          docs)

  unfoldable pub mark_read :
      (List Notification → List Notification)
      → String
      → String
      → String
      → ℕ
      → List Notification
      → List Notification × ReadResult
  mark_read between store_id user_id notification_id now docs =
      mark_found between store_id user_id (object_id_of notification_id) now docs

unfoldable pub mark_all_read :
    Notifications → String → String → ℕ → List Notification → List Notification × ℕ
mark_all_read db store_id user_id now docs =
    db.update_many (λ d. d.content.store_id == store_id && (is_unread d && is_visible user_id d))
      (set_read now) docs
