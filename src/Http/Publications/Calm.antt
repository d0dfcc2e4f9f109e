-- ===== src/Http/Publications/Calm.antt =====
-- POST /internal/publication-results when its calls are answered and no other process acts.
use driveparts_websockets.Prelude.{
  ℕ, ◌+◌, ◌≡◌, refl, Bool, true, ◌⊎◌, inl, inr, Option, none, some, List, String,
}
use driveparts_websockets.Effects.{World, ok, command, undisturbed, ◌>>=◌, throw_if, catch, pure}
use driveparts_websockets.Publication.{ResultInput, Status, active, error}
use driveparts_websockets.Publication.Resolve.{Snapshot}
use driveparts_websockets.Publication.Receipts.{Receipt, mark_published}
use driveparts_websockets.Notifications
use driveparts_websockets.Notifications.{Notification}
use driveparts_websockets.Notifications.Creating.{CreateResult, created, existing}
use driveparts_websockets.Http.Events.{build_publication_error_notification}
use driveparts_websockets.Http.Publications.{
  Calls, Stored, Moment, answered, call, creating, created_or_throw, notification_for, emissions,
  published_answer, finish, announce,
}

-- The clock, the random texts and the new ids of a request that is not disturbed.
pub record Clock : Type 0 where
  pub claim_now : ℕ
  pub claim_id : String
  pub receipt_id : ℕ
  pub notification_now : ℕ
  pub notification_id : ℕ
  pub published_now : ℕ
  pub version : ℕ → String

abbrev pub calm : Clock → Moment
calm c = record {
  fate = λ i. answered;
  between = λ i d. d;
  inside = λ i d. d;
  claim_now = c.claim_now;
  claim_id = c.claim_id;
  receipt_id = c.receipt_id;
  notification_now = c.notification_now;
  notification_id = c.notification_id;
  published_now = c.published_now;
  version = c.version;
}

module _ (calls : Calls) (clock : Clock) (input : ResultInput) where
  call-calm :
      {A : Type 0} (c : Stored → Stored × A) (w : World Stored)
      → call calls undisturbed (calm clock) c w
        ≡ (record { store = (c w.store).0; sent = w.sent + 1 }, ok (c w.store).1)
  unfolding call command
  call-calm c w = refl

  -- What the notification of the result is: none for a published listing, else the one that the
  -- repository creates or finds.
  abbrev pub IsNotified : Snapshot → Status → Stored → Option Notification → Type 0
  IsNotified snapshot active s n = n ≡ none
  IsNotified snapshot error s none = ⊥
  IsNotified snapshot error s (some n) =
      let result =
        (creating calls undisturbed (calm clock)
          (build_publication_error_notification input snapshot) s).1 in
      (result ≡ created n) ⊎ ((announced : Bool) × (result ≡ existing n announced))

  abbrev pub SameButNotifications : Stored → Stored → Type 0
  SameButNotifications s t =
      (t.integrations ≡ s.integrations) × (t.receipts ≡ s.receipts) × (t.gateway ≡ s.gateway)

  abbrev content_of : Snapshot → Notifications.Content
  content_of snapshot = build_publication_error_notification input snapshot

  created-ok :
      (r : CreateResult) (n : Notification) (w : World Stored)
      → (r ≡ created n) ⊎ ((announced : Bool) × (r ≡ existing n announced))
      → created_or_throw calls undisturbed (calm clock) r w ≡ (w, ok (some n))
  unfolding pure
  created-ok r n w (inl e) = rw e refl
  created-ok r n w (inr (b, e)) = rw e refl

  -- The world after the notification was created.
  abbrev pub after_notification : Snapshot → Status → World Stored → World Stored
  after_notification snapshot active w = w
  after_notification snapshot error w = record {
    store = (creating calls undisturbed (calm clock) (content_of snapshot) w.store).0;
    sent = w.sent + 1;
  }

  pub notification_for-ok :
      (snapshot : Snapshot) (status : Status) (w : World Stored) (n : Option Notification)
      → IsNotified snapshot status w.store n
      → notification_for calls undisturbed (calm clock) input snapshot status w
        ≡ (after_notification snapshot status w, ok n)
  unfolding pure call command ◌>>=◌
  notification_for-ok snapshot active w n h = rw h refl
  notification_for-ok snapshot error w none h = absurd h
  notification_for-ok snapshot error w (some n) h =
      created-ok (creating calls undisturbed (calm clock) (content_of snapshot) w.store).1 n
        (after_notification snapshot error w) h

  pub after_notification-receipts :
      (snapshot : Snapshot) (status : Status) (w : World Stored)
      → (after_notification snapshot status w).store.receipts ≡ w.store.receipts
  after_notification-receipts snapshot active w = refl
  after_notification-receipts snapshot error w = refl

  pub after_notification-gateway :
      (snapshot : Snapshot) (status : Status) (w : World Stored)
      → (after_notification snapshot status w).store.gateway ≡ w.store.gateway
  after_notification-gateway snapshot active w = refl
  after_notification-gateway snapshot error w = refl

  pub after_notification-integrations :
      (snapshot : Snapshot) (status : Status) (w : World Stored)
      → (after_notification snapshot status w).store.integrations ≡ w.store.integrations
  after_notification-integrations snapshot active w = refl
  after_notification-integrations snapshot error w = refl

  abbrev pub marked_receipts : String → List Receipt → List Receipt
  marked_receipts claim_id docs =
      (mark_published calls.fingerprint_of calls.receipts input claim_id clock.published_now docs).0

  -- The world after a result was announced and marked.
  abbrev pub after_finish : Snapshot → String → Option Notification → World Stored → World Stored
  after_finish snapshot claim_id n w = record {
    store = record w.store {
      receipts = marked_receipts claim_id w.store.receipts;
      gateway = emissions calls undisturbed (calm clock) input snapshot n w.store.gateway;
    };
    sent = w.sent + 1;
  }

  pub finish-ok :
      (snapshot : Snapshot) (claim_id : String) (n : Option Notification) (w : World Stored)
      → (mark_published calls.fingerprint_of calls.receipts input claim_id clock.published_now
          w.store.receipts).1
        ≡ true
      → finish calls undisturbed (calm clock) input snapshot claim_id n w ≡ (
        after_finish snapshot claim_id n w,
        ok (published_answer calls undisturbed (calm clock) input snapshot n),
      )
  unfolding pure call command ◌>>=◌ throw_if
  finish-ok snapshot claim_id n w h = rw h refl

  pub announce-ok :
      (snapshot : Snapshot) (claim_id : String) (n : Option Notification) (w : World Stored)
      → IsNotified snapshot snapshot.status w.store n
      → (mark_published calls.fingerprint_of calls.receipts input claim_id clock.published_now
          w.store.receipts).1
        ≡ true
      → announce calls undisturbed (calm clock) input snapshot claim_id w ≡ (
        after_finish snapshot claim_id n (after_notification snapshot snapshot.status w),
        ok (published_answer calls undisturbed (calm clock) input snapshot n),
      )
  unfolding catch ◌>>=◌
  announce-ok snapshot claim_id n w h k =
      rw
        (
          notification_for-ok snapshot snapshot.status w n h,
          finish-ok snapshot claim_id n (after_notification snapshot snapshot.status w)
              (rw (after_notification-receipts snapshot snapshot.status w) k),
        )
        refl
