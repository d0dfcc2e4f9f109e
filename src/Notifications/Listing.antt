-- ===== src/Notifications/Listing.antt =====
-- list_notifications of src/repositories/notification_repository.ts.
use driveparts_websockets.Prelude.{
  ℕ, ◌+◌, Bool, true, false, not, ◌&&◌, ◌||◌, Option, none, some, List, [], ◌∷◌, String, ltb, ◌==◌,
  if◌then◌else◌, length, take, reverse,
}
use driveparts_websockets.Mongo.{SortedReads}
use driveparts_websockets.Notifications.{Notification, is_visible, is_unread}

pub record ListInput : Type 0 where
  pub store_id : String
  pub user_id : String
  pub before_notification_id : Option String
  pub after_notification_id : Option String
  pub unread_only : Bool
  pub limit : ℕ

pub record NotificationPage : Type 0 where
  pub notifications : List Notification
  pub has_more : Bool
  pub oldest_notification_id : Option ℕ
  pub newest_notification_id : Option ℕ

abbrev pub wanted : ListInput → Notification → Bool
wanted input d =
    d.content.store_id == input.store_id
    && (is_visible input.user_id d && (not input.unread_only || is_unread d))

abbrev head : List Notification → Option ℕ
head [] = none
head (d ∷ _) = some d._id

-- `.at(-1)`
abbrev pub last : List Notification → Option ℕ
last [] = none
last (d ∷ []) = some d._id
last (d ∷ e ∷ ds) = last (e ∷ ds)

abbrev pub page_of : ℕ → Bool → List Notification → NotificationPage
page_of limit lists_incrementally candidates =
    let kept = take limit candidates in
    let notifications = if lists_incrementally then kept else reverse kept in
    record {
      notifications = notifications;
      has_more = ltb limit (length candidates);
      oldest_notification_id = head notifications;
      newest_notification_id = last notifications;
    }

-- `object_id_of` is ObjectId.isValid and new ObjectId of the driver: the number of a valid id.
module _ (object_id_of : String → Option ℕ) (reads : SortedReads Notification (λ d. d._id)) where
  abbrev pub valid_id : Option String → Option ℕ
  valid_id none = none
  valid_id (some s) = if s == "" then none else object_id_of s

  abbrev pub list_before : ListInput → Option ℕ → List Notification → NotificationPage
  list_before input none docs =
      page_of input.limit false (reads.newest_first (wanted input) (input.limit + 1) docs)
  list_before input (some before) docs =
      page_of input.limit false
        (reads.newest_first (λ d. wanted input d && ltb d._id before) (input.limit + 1) docs)

  abbrev pub list_from : ListInput → Option ℕ → List Notification → NotificationPage
  list_from input (some after) docs =
      page_of input.limit true
        (reads.oldest_first (λ d. wanted input d && ltb after d._id) (input.limit + 1) docs)
  list_from input none docs = list_before input (valid_id input.before_notification_id) docs

  unfoldable pub list_notifications : ListInput → List Notification → NotificationPage
  list_notifications input docs = list_from input (valid_id input.after_notification_id) docs
