-- ===== src/Http/Notices/Announced.antt =====
-- However the marking ends, a notification is announced, and again only if it was not marked: POST
-- /internal/notifications of src/http/app.ts.
use driveparts_websockets.Prelude.{
  ℕ, ◌+◌, ◌≡◌, refl, ap, ◌∙◌, Bool, true, false, ◌&&◌, some, List, [], ◌∷◌, ◌++◌, String, arith,
  any, eqb, ◌==◌, eq_refl, opt_eq, if◌then◌else◌, first-eq-none,
}
use driveparts_websockets.Effects.{World, undisturbed, ◌>>=◌, command, pure, throw, throw_if}
use driveparts_websockets.Mongo.Unique.{first-append, any-append, update_first-append, any-implies}
use driveparts_websockets.Notifications.{Content, Notification, conflicts, present_text}
use driveparts_websockets.Notifications.Creating.{
  new_notification, created, existing, has_key, return_existing, create_notification_with_result,
  mark_realtime_published,
}
use driveparts_websockets.Notifications.Create.{
  IsTrimmed, new_notification-content, matches_refl, known_key, create_free,
}
use driveparts_websockets.Serializers.{serialize_notification}
use driveparts_websockets.Gateway.{publish_notification}
use driveparts_websockets.Http.Publications.{
  Calls, Stored, Moment, Fate, answered, refused, lost, call,
}
use driveparts_websockets.Http.Publications.Calm.{Clock, calm}
use driveparts_websockets.Http.Publications.AtLeastOnce.{alone}
use driveparts_websockets.Http.Notices.{notified_answer, notifications, handle_notification}

abbrev was_marked : Fate → Bool
was_marked answered = true
was_marked refused = false
was_marked lost = true

abbrev marked_at : ℕ → Bool → Notification → Notification
marked_at now true d = record d { realtime_published_at = some now }
marked_at now false d = d

module _ (calls : Calls) (input : Content) (key : String) (d : Notification)
    (content : d.content ≡ input) (k : present_text input.idempotency_key ≡ some key)
    (stored : input.idempotency_key ≡ some key) where
  abbrev same : Notification → Bool
  same x =
      eqb x._id d._id
      && (x.content.store_id == d.content.store_id
          && opt_eq x.content.idempotency_key (present_text d.content.idempotency_key))

  none_same :
      (docs : List Notification)
      → any (has_key input.store_id key) docs ≡ false
      → any same docs ≡ false
  none_same docs h =
      any-implies same (has_key input.store_id key) docs (λ x. rw (content, k) λ e. ground arith) h

  marked_new :
      (docs : List Notification) (now : ℕ)
      → any (has_key input.store_id key) docs ≡ false
      → mark_realtime_published calls.notifications d now (docs ++ d ∷ [])
        ≡ (docs ++ marked_at now true d ∷ [], true)
  unfolding mark_realtime_published
  marked_new docs now h =
      let itself : same d ≡ true =
        rw (content, k, stored) (ground (arith, eq_refl input.store_id, eq_refl key)) in
      rw
        (
          calls.notifications.update_one_docs same (marked_at now true) (docs ++ d ∷ []),
          update_first-append same (marked_at now true) docs d (none_same docs h) itself,
          calls.notifications.update_one_matched same (marked_at now true) (docs ++ d ∷ []),
          any-append same docs d,
          none_same docs h,
          itself,
        )
        refl

module _ (calls : Calls) (input : Content) (moment : Moment) (key : String) (w : World Stored)
    (trimmed : IsTrimmed input) (stored : input.idempotency_key ≡ some key)
    (free : any (has_key input.store_id key) w.store.notifications ≡ false)
    (fresh : any
        (conflicts (new_notification input moment.notification_now moment.notification_id))
        w.store.notifications
      ≡ false) where
  abbrev new : Notification
  new = new_notification input moment.notification_now moment.notification_id

  -- What a delivery leaves whose marking ends in one way or another.
  abbrev announced_in : Fate → Stored
  announced_in fate = record w.store {
    notifications =
        w.store.notifications ++ marked_at moment.published_now (was_marked fate) new ∷ [];
    gateway = publish_notification calls.around moment.version new w.store.gateway;
  }

  as_input : new.content ≡ input
  as_input = new_notification-content input moment.notification_now moment.notification_id trimmed

  key_present : present_text input.idempotency_key ≡ some key
  key_present = trimmed.idempotency_key ∙ stored

  creation_answer :
      create_notification_with_result calls.deep_equal calls.notifications
        (λ i x. x)
        input
        moment.notification_now
        moment.notification_id
        w.store.notifications
      ≡ (w.store.notifications ++ new ∷ [], created new)
  creation_answer =
      create_free calls.deep_equal calls.notifications input moment.notification_now
        moment.notification_id w.store.notifications key key_present
        (first-eq-none (has_key input.store_id key) w.store.notifications free) fresh

  marked_then :
      mark_realtime_published calls.notifications new moment.published_now
        (w.store.notifications ++ new ∷ [])
      ≡ (w.store.notifications ++ marked_at moment.published_now true new ∷ [], true)
  marked_then =
      marked_new calls input key new as_input key_present stored w.store.notifications
        moment.published_now free

  first_delivery :
      (fate : Fate)
      → moment.fate w.sent ≡ answered
      → moment.fate (w.sent + 1) ≡ fate
      → (handle_notification calls undisturbed (alone moment) input w).0.store ≡ announced_in fate
  unfolding handle_notification notifications call command ◌>>=◌ throw_if throw pure
  first_delivery answered h g = rw (h, creation_answer, g, marked_then) refl
  first_delivery refused h g = rw (h, creation_answer, g) refl
  first_delivery lost h g = rw (h, creation_answer, g, marked_then) refl

  module _ (matching : calls.deep_equal input.fields input.fields ≡ true) (clock : Clock)
      (v : World Stored) where
    marked_content : (marked : Bool) → (marked_at moment.published_now marked new).content ≡ input
    marked_content true = as_input
    marked_content false = as_input

    found_again :
        (marked : Bool)
        → return_existing calls.deep_equal input (marked_at moment.published_now marked new)
          ≡ existing (marked_at moment.published_now marked new) marked
    found_again true = rw (as_input, matches_refl calls.deep_equal input matching) refl
    found_again false =
        rw (as_input, matches_refl calls.deep_equal input matching)
          (unfold new_notification in refl)

    found_then :
        (marked : Bool)
        → v.store.notifications
          ≡ w.store.notifications ++ marked_at moment.published_now marked new ∷ []
        → create_notification_with_result calls.deep_equal calls.notifications
            (λ i x. x)
            input
            clock.notification_now
            clock.notification_id
            v.store.notifications
          ≡ (v.store.notifications, existing (marked_at moment.published_now marked new) marked)
    found_then marked e =
        let d = marked_at moment.published_now marked new in
        let mine : has_key input.store_id key d ≡ true =
          rw (marked_content marked, stored)
            (ground (arith, eq_refl input.store_id, eq_refl key)) in
        known_key calls.deep_equal calls.notifications (λ i x. x) input clock.notification_now
          clock.notification_id v.store.notifications key d key_present
          (rw e (first-append (has_key input.store_id key) w.store.notifications d free mine))
        ∙ ap (λ r. (v.store.notifications, r)) (found_again marked)

    -- What a later delivery answers and emits.
    later_delivery :
        (marked : Bool)
        → v.store.notifications
          ≡ w.store.notifications ++ marked_at moment.published_now marked new ∷ []
        → let later = handle_notification calls undisturbed (calm clock) input v in
          (later.1 ≡ notified_answer calls undisturbed (calm clock) marked new)
          × (later.0.store.gateway ≡ (
              if marked
              then v.store.gateway
              else publish_notification calls.around clock.version new v.store.gateway))
    unfolding handle_notification notifications call command ◌>>=◌ throw_if throw pure
        serialize_notification
    later_delivery true e = rw (found_then true e) (refl, refl)
    later_delivery false e =
        rw
          (
            found_then false e,
            e,
            marked_new calls input key new as_input key_present stored w.store.notifications
                clock.published_now free,
          )
          (refl, refl)

-- A notification with a key that its store has not used, whose creation is answered, is announced by
-- the delivery that creates it, whether its marking as announced then succeeds, fails, or fails with
-- the mark made. The same notification delivered later, undisturbed, is answered 202: it is announced
-- again exactly if the mark was not made. No other process acts.
pub announced_until_marked :
    (calls : Calls) (input : Content) (moment : Moment) (clock : Clock) (key : String)
    (w : World Stored)
    → IsTrimmed input
    → calls.deep_equal input.fields input.fields ≡ true
    → input.idempotency_key ≡ some key
    → any (has_key input.store_id key) w.store.notifications ≡ false
    → any
        (conflicts (new_notification input moment.notification_now moment.notification_id))
        w.store.notifications
      ≡ false
    → moment.fate w.sent ≡ answered
    → let tried = (handle_notification calls undisturbed (alone moment) input w).0 in
      let later = handle_notification calls undisturbed (calm clock) input tried in
      let n = new_notification input moment.notification_now moment.notification_id in
      let marked = was_marked (moment.fate (w.sent + 1)) in
      (tried.store.gateway ≡ publish_notification calls.around moment.version n w.store.gateway)
      × (later.1 ≡ notified_answer calls undisturbed (calm clock) marked n)
      × (later.0.store.gateway ≡ (
          if marked
          then tried.store.gateway
          else publish_notification calls.around clock.version n tried.store.gateway))
announced_until_marked calls input moment clock key w trimmed matching stored free fresh h =
    let tried = (handle_notification calls undisturbed (alone moment) input w).0 in
    let fate = moment.fate (w.sent + 1) in
    let left = first_delivery calls input moment key w trimmed stored free fresh fate h refl in
    let (answer, gateway) =
      later_delivery calls input moment key w trimmed stored free fresh matching clock tried
        (was_marked fate) (ap (λ s. s.notifications) left) in
    (ap (λ s. s.gateway) left, answer, gateway)
