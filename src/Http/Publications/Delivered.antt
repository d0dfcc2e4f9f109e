-- ===== src/Http/Publications/Delivered.antt =====
-- A result that may be announced is announced, once while its receipt is stored: POST
-- /internal/publication-results of src/http/app.ts when its calls are answered and no other process
-- acts.
use driveparts_websockets.Prelude.{
  ℕ, any, ◌+◌, ◌≡◌, refl, ap, ◌∙◌, Bool, Option, none, some, List, first,
}
use driveparts_websockets.Effects.{World, ok, command, undisturbed, ◌>>=◌, pure}
use driveparts_websockets.Publication.{ResultInput, Status, active, error}
use driveparts_websockets.Publication.Resolve.{Snapshot, accepted, resolve}
use driveparts_websockets.Publication.Receipts.{
  Receipt, ClaimResult, claimed, duplicate, published, claim, conflicts, expire,
}
use driveparts_websockets.Publication.Receipts.Holder.{ours, mark_published_by_holder}
use driveparts_websockets.Publication.Receipts.Claims.{created, announced, claim_of_existing}
use driveparts_websockets.Publication.Receipts.Takes.{Claimable, claim-Taken}
use driveparts_websockets.Notifications.{Notification}
use driveparts_websockets.Http.Publications.{
  Calls, Stored, call, emissions, published_answer, by_claim, publication_results, handle,
  suppressed_answer,
}
use driveparts_websockets.Http.Publications.Calm.{
  Clock, calm, IsNotified, after_notification, after_finish, announce-ok,
  after_notification-gateway,
}

-- Seven days.
abbrev pub week : ℕ
week = 604800000

module _ (calls : Calls) (input : ResultInput) where
  -- The listing's document confirms the result.
  abbrev pub IsAccepted : Snapshot → Stored → Type 0
  IsAccepted snapshot s =
      resolve calls.redact calls.parse_date calls.integrations input s.integrations
      ≡ accepted snapshot

  abbrev pub ours_of : Receipt → Bool
  ours_of = ours calls.fingerprint_of calls.receipts input

  -- A stored receipt has the key or the id of the new one.
  abbrev pub is_conflicting : Clock → Stored → Bool
  is_conflicting clock s =
      any
        (conflicts (
          created calls.fingerprint_of calls.receipts input clock.claim_now clock.claim_id
            clock.receipt_id))
        s.receipts

  module _ (clock : Clock) where
    abbrev claim_at : List Receipt → List Receipt × ClaimResult
    claim_at docs =
        claim calls.fingerprint_of calls.receipts (λ i d. d) input clock.claim_now clock.claim_id
          clock.receipt_id docs

    -- The world after the claim.
    abbrev pub after_claim : World Stored → World Stored
    after_claim w = record {
      store = record w.store { receipts = (claim_at w.store.receipts).0 };
      sent = w.sent + 1 + 1;
    }

    to_claim :
        (snapshot : Snapshot) (w : World Stored) (result : ClaimResult)
        → IsAccepted snapshot w.store
        → (claim_at w.store.receipts).1 ≡ result
        → publication_results calls undisturbed (calm clock) input w
          ≡ by_claim calls undisturbed (calm clock) input snapshot result (after_claim w)
    unfolding publication_results call command ◌>>=◌
    to_claim snapshot w result a h = rw (a, h) refl

    IsNotified-still :
        (snapshot : Snapshot) (status : Status) (s : Stored) (rs : List Receipt)
        (n : Option Notification)
        → IsNotified calls clock input snapshot status s n
        → IsNotified calls clock input snapshot status (record s { receipts = rs }) n
    IsNotified-still snapshot active s rs n h = h
    IsNotified-still snapshot error s rs none h = h
    IsNotified-still snapshot error s rs (some n) h = h

    -- A result that the listing's document confirms and that can be claimed is announced, and its
    -- receipt published.
    delivered :
        (snapshot : Snapshot) (n : Option Notification) (w : World Stored)
        → IsAccepted snapshot w.store
        → Claimable calls.fingerprint_of calls.receipts input clock.claim_now clock.claim_id
            clock.receipt_id w.store.receipts
        → IsNotified calls clock input snapshot snapshot.status w.store n
        → publication_results calls undisturbed (calm clock) input w ≡ (
          after_finish calls clock input snapshot clock.claim_id n
              (after_notification calls clock input snapshot snapshot.status (after_claim w)),
          ok (published_answer calls undisturbed (calm clock) input snapshot n),
        )
    delivered snapshot n w a c m =
        let (won, (r, mine, holding, since)) =
          claim-Taken calls.fingerprint_of calls.receipts input clock.claim_now clock.claim_id
            clock.receipt_id w.store.receipts c in
        to_claim snapshot w (claimed clock.claim_id) a won
        ∙ announce-ok calls clock input snapshot clock.claim_id n (after_claim w)
            (IsNotified-still snapshot snapshot.status w.store (claim_at w.store.receipts).0 n m)
            (mark_published_by_holder calls.fingerprint_of calls.receipts input clock.claim_id
              clock.published_now _ r mine holding).0

    -- A result with a published receipt is suppressed.
    repeated :
        (snapshot : Snapshot) (r : Receipt) (w : World Stored)
        → IsAccepted snapshot w.store
        → first ours_of w.store.receipts ≡ some r
        → r.state ≡ published
        → r.fingerprint ≡ calls.fingerprint_of input
        → publication_results calls undisturbed (calm clock) input w ≡ (
          record { store = w.store; sent = w.sent + 1 + 1 },
          ok (suppressed_answer "duplicate_publication_result"),
        )
    unfolding pure
    repeated snapshot r w a h p f =
        let same : claim_at w.store.receipts ≡ (w.store.receipts, duplicate) =
          claim_of_existing calls.fingerprint_of calls.receipts input (λ i d. d) clock.claim_now
            clock.claim_id clock.receipt_id w.store.receipts r r duplicate h h (announced f p) in
        to_claim snapshot w duplicate a (ap (λ (o : List Receipt × ClaimResult). o.1) same)
        ∙ ap
            (λ (docs : List Receipt). (
              record { store = record w.store { receipts = docs }; sent = w.sent + 1 + 1 },
              ok (suppressed_answer "duplicate_publication_result"),
            ))
            (ap (λ (o : List Receipt × ClaimResult). o.0) same)

-- The same of one delivery, with the error handler behind the route.
pub delivered_handle :
    (calls : Calls) (input : ResultInput) (clock : Clock) (snapshot : Snapshot)
    (n : Option Notification) (w : World Stored)
    → IsAccepted calls input snapshot w.store
    → Claimable calls.fingerprint_of calls.receipts input clock.claim_now clock.claim_id
        clock.receipt_id w.store.receipts
    → IsNotified calls clock input snapshot snapshot.status w.store n
    → let once = handle calls undisturbed (calm clock) input w in
      (once.1 ≡ published_answer calls undisturbed (calm clock) input snapshot n)
      × (once.0.store.gateway
          ≡ emissions calls undisturbed (calm clock) input snapshot n w.store.gateway)
unfolding handle
delivered_handle calls input clock snapshot n w a c m =
    rw (delivered calls input clock snapshot n w a c m) (
      refl,
      ap (emissions calls undisturbed (calm clock) input snapshot n) (
          after_notification-gateway calls clock input snapshot snapshot.status
            (after_claim calls input clock w)),
    )

pub repeated_handle :
    (calls : Calls) (input : ResultInput) (clock : Clock) (snapshot : Snapshot) (r : Receipt)
    (w : World Stored)
    → IsAccepted calls input snapshot w.store
    → first (ours_of calls input) w.store.receipts ≡ some r
    → r.state ≡ published
    → r.fingerprint ≡ calls.fingerprint_of input
    → let again = handle calls undisturbed (calm clock) input w in
      (again.1 ≡ suppressed_answer "duplicate_publication_result") × (again.0.store ≡ w.store)
unfolding handle
repeated_handle calls input clock snapshot r w a h p f =
    rw (repeated calls input clock snapshot r w a h p f) (refl, refl)

-- The store when the expired receipts are deleted.
abbrev pub swept : ℕ → World Stored → World Stored
swept now w = record w { store = record w.store { receipts = expire now w.store.receipts } }
