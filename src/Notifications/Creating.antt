-- ===== src/Notifications/Creating.antt =====
-- create_notification_with_result and mark_realtime_published of
-- src/repositories/notification_repository.ts.
use driveparts_websockets.Prelude.{
  ℕ, Bool, ◌&&◌, Option, none, some, List, String, eqb, ◌==◌, if◌then◌else◌, opt_eq, is_some,
}
use driveparts_websockets.Value.{Fields}
use driveparts_websockets.Notifications.{
  NotificationType-discrete, Severity-discrete, Source-discrete, Entity-discrete, is_yes, Content,
  Notification, Notifications, present_text,
}

unfoldable pub new_notification : Content → ℕ → ℕ → Notification
new_notification input now _id = record {
  _id = _id;
  content = record input {
    user_id = present_text input.user_id;
    idempotency_key = present_text input.idempotency_key;
    channel = present_text input.channel;
    listing_id = present_text input.listing_id;
    integration_id = present_text input.integration_id;
    inventory_item_id = present_text input.inventory_item_id;
    external_listing_id = present_text input.external_listing_id;
  };
  created_at = now;
  realtime_published_at = none;
  read_at = none;
}

pub data CreateResult : Type 0 where
  created : Notification → CreateResult
  -- The existing notification, and whether it was announced.
  existing : Notification → Bool → CreateResult
  -- The call throws NotificationIdempotencyConflictError.
  conflict : CreateResult
  -- The call throws the database's duplicate key error.
  duplicate_key : CreateResult

abbrev pub has_key : String → String → Notification → Bool
has_key store_id key d =
    d.content.store_id == store_id && opt_eq d.content.idempotency_key (some key)

-- `deep_equal` is isDeepStrictEqual of node:util on the data.
module _ (deep_equal : Option Fields → Option Fields → Bool) where
  unfoldable pub matches : Content → Content → Bool
  unfolding NotificationType-discrete Severity-discrete Source-discrete Entity-discrete
  matches d input =
      d.store_id == input.store_id
      && (opt_eq d.user_id input.user_id
          && (is_yes (NotificationType-discrete d.type input.type)
              && (is_yes (Severity-discrete d.severity input.severity)
                  && (is_yes (Source-discrete d.source input.source)
                      && (is_yes (Entity-discrete d.entity input.entity)
                          && (d.title == input.title
                              && (d.message == input.message
                                  && (opt_eq d.channel input.channel
                                      && (opt_eq d.listing_id input.listing_id
                                          && (opt_eq d.integration_id input.integration_id
                                              && (opt_eq d.inventory_item_id input.inventory_item_id
                                                  && (opt_eq d.external_listing_id
                                                        input.external_listing_id
                                                      && deep_equal d.fields
                                                          input.fields))))))))))))

  -- `validate_idempotent_notification` and the answer around it.
  abbrev pub return_existing : Content → Notification → CreateResult
  return_existing input d =
      if matches d.content input then existing d (is_some d.realtime_published_at) else conflict

  abbrev pub rechecked : Content → Option Notification → CreateResult
  rechecked input none = duplicate_key
  rechecked input (some d) = return_existing input d

  module _ (db : Notifications) where
    abbrev pub recheck : Content → Option String → List Notification → CreateResult
    recheck input none docs = duplicate_key
    recheck input (some key) docs = rechecked input (db.find_one (has_key input.store_id key) docs)

    abbrev pub inserted :
        (List Notification → List Notification)
        → Content
        → Notification
        → Option (List Notification)
        → List Notification
        → List Notification × CreateResult
    inserted between input d (some docs') docs = (docs', created d)
    inserted between input d none docs =
        let docs' = between docs in
        (docs', recheck input (present_text input.idempotency_key) docs')

    abbrev pub insert :
        (List Notification → List Notification)
        → Content
        → ℕ
        → ℕ
        → List Notification
        → List Notification × CreateResult
    insert between input now _id docs =
        let d = new_notification input now _id in
        inserted between input d (db.insert_one d docs) docs

    abbrev pub checked :
        (ℕ → List Notification → List Notification)
        → Content
        → ℕ
        → ℕ
        → Option Notification
        → List Notification
        → List Notification × CreateResult
    checked between input now _id none docs = insert (between 1) input now _id (between 0 docs)
    checked between input now _id (some d) docs = (docs, return_existing input d)

    abbrev pub keyed :
        (ℕ → List Notification → List Notification)
        → Content
        → ℕ
        → ℕ
        → Option String
        → List Notification
        → List Notification × CreateResult
    keyed between input now _id none docs = insert (between 1) input now _id docs
    keyed between input now _id (some key) docs =
        checked between input now _id (db.find_one (has_key input.store_id key) docs) docs

    -- `between i` is what other processes do while the call waits for its next command; `now` and
    -- `_id` are the clock and the new ObjectId.
    unfoldable pub create_notification_with_result :
        (ℕ → List Notification → List Notification)
        → Content
        → ℕ
        → ℕ
        → List Notification
        → List Notification × CreateResult
    create_notification_with_result between input now _id docs =
        keyed between input now _id (present_text input.idempotency_key) docs

module _ (db : Notifications) where
  unfoldable pub mark_realtime_published :
      Notification → ℕ → List Notification → List Notification × Bool
  mark_realtime_published n now docs =
      let (docs', matched, modified) =
        db.update_one
          (λ d.
            eqb d._id n._id
            && (d.content.store_id == n.content.store_id
                && opt_eq d.content.idempotency_key (present_text n.content.idempotency_key)))
          (λ d. record d { realtime_published_at = some now }) docs in
      (docs', eqb matched 1)
