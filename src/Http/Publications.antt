-- ===== src/Http/Publications.antt =====
-- POST /internal/publication-results of src/http/app.ts: a reported result is resolved, claimed,
-- announced to the store and marked as published, and the claim is given up when that fails.
pub mod Calm
pub mod Delivered
pub mod Released
pub mod OnlyClaimed
pub mod AtLeastOnce
use driveparts_websockets.Prelude.{
  ℕ, ◌+◌, Bool, true, false, not, Option, none, some, List, String, ◌==◌, if◌then◌else◌,
}
use driveparts_websockets.Effects.{
  World, Result, ok, err, Action, pure, throw, command, ◌>>=◌, ◌>>◌, throw_if, catch,
}
use driveparts_websockets.Value.{Fields, Value, string, integer, end, field}
use driveparts_websockets.Publication.{ResultInput, Status, active, error, SanitizedError}
use driveparts_websockets.Publication.Resolve.{
  Integration, Integrations, Snapshot, Reason, inventory_item_integration_not_found,
  stale_execution, status_mismatch, inventory_item_integration_not_terminal, Resolution, accepted,
  retry, suppressed, resolve,
}
use driveparts_websockets.Publication.Receipts.{
  Receipt, Receipts, ClaimResult, claimed, duplicate, busy, conflict, claim, mark_published,
  release,
}
use driveparts_websockets.Notifications.{
  Source, driveparts, mercado_livre_brasil, shopee, google_merchant, listing_error, integration,
  Content, Notification, Notifications, present_text,
}
use driveparts_websockets.Notifications
use driveparts_websockets.Notifications.Creating
use driveparts_websockets.Notifications.Creating.{CreateResult, create_notification_with_result}
use driveparts_websockets.Serializers.{serialize_notification}
use driveparts_websockets.Gateway.{
  PublicationResultEvent, Gateway, Around, publish_publication_result, publish_notification,
}
use driveparts_websockets.Http.{
  Body, retryable, published, Response, answer, Raised, raised,
  notification_idempotency_conflict_error, publication_result_idempotency_conflict_error,
}
use driveparts_websockets.Http
use driveparts_websockets.Http.Errors.{error_handler}
use driveparts_websockets.Http.Events.{
  build_publication_result, build_publication_error_notification,
}

-- The collections that the route uses, and the gateway of this process.
pub record Stored : Type 0 where
  pub integrations : List Integration
  pub receipts : List Receipt
  pub notifications : List Notification
  pub gateway : Gateway

-- How a call of a repository ends: it answers, it throws and has changed nothing, or it throws
-- although its change was made.
pub data Fate : Type 0 where
  answered refused lost : Fate

-- What the route calls, and the clock, the random texts and the new ids of one request. `between`
-- and `inside` are what other processes do while `claim` and the creation of the notification wait.
pub record Calls : Type 0 where
  pub integrations : Integrations
  pub receipts : Receipts
  pub notifications : Notifications
  pub redact : String → String
  pub parse_date : String → Option ℕ
  pub fingerprint_of : ResultInput → String
  pub deep_equal : Option Fields → Option Fields → Bool
  pub around : Around

pub record Moment : Type 0 where
  pub fate : ℕ → Fate
  pub between : ℕ → List Receipt → List Receipt
  pub inside : ℕ → List Notification → List Notification
  pub claim_now : ℕ
  pub claim_id : String
  pub receipt_id : ℕ
  pub notification_now : ℕ
  pub notification_id : ℕ
  pub published_now : ℕ
  pub version : ℕ → String

abbrev pub Route : Type 0 → Type 0
Route A = Action Stored Raised A

abbrev pub database_error : Raised
database_error = raised "mongodb_error"

abbrev pub receipt_lost : Raised
receipt_lost = raised "publication_result_receipt_lost"

abbrev pub notification_conflict : Raised
notification_conflict = record {
  class = notification_idempotency_conflict_error;
  type = none;
  message = "notification_idempotency_conflict";
}

abbrev pub publication_conflict : Raised
publication_conflict = record {
  class = publication_result_idempotency_conflict_error;
  type = none;
  message = "publication_result_idempotency_conflict";
}

abbrev reason_text : Reason → String
reason_text inventory_item_integration_not_found = "inventory_item_integration_not_found"
reason_text stale_execution = "stale_execution"
reason_text status_mismatch = "status_mismatch"
reason_text inventory_item_integration_not_terminal = "inventory_item_integration_not_terminal"

abbrev again_later : String → String → Response
again_later code message = record {
  status = 425;
  retry_after = some "1";
  body = retryable code message;
}

abbrev pub suppressed_answer : String → Response
suppressed_answer reason = answer 202 (Http.suppressed reason)

abbrev pub fated : {A : Type 0} → Fate → Stored → Stored × A → Stored × Result Raised A
fated answered s (s', a) = (s', ok a)
fated refused s (s', a) = (s, err database_error)
fated lost s (s', a) = (s', err database_error)

-- `others i` is what other processes do before the call number i.
module _ (calls : Calls) (others : ℕ → Stored → Stored) (moment : Moment) where
  unfoldable pub call : {A : Type 0} → (Stored → Stored × A) → Route A
  call c w = command others (λ s. fated (moment.fate w.sent) s (c s)) w

  abbrev pub resolving : ResultInput → Stored → Stored × Resolution
  resolving input s =
      (s, resolve calls.redact calls.parse_date calls.integrations input s.integrations)

  abbrev pub claiming : ResultInput → Stored → Stored × ClaimResult
  claiming input s =
      let (receipts, result) =
        claim calls.fingerprint_of calls.receipts moment.between input moment.claim_now
          moment.claim_id moment.receipt_id s.receipts in
      (record s { receipts = receipts }, result)

  abbrev pub marking : ResultInput → String → Stored → Stored × Bool
  marking input claim_id s =
      let (receipts, marked) =
        mark_published calls.fingerprint_of calls.receipts input claim_id moment.published_now
          s.receipts in
      (record s { receipts = receipts }, marked)

  abbrev pub releasing : ResultInput → String → Stored → Stored × Bool
  releasing input claim_id s =
      let (receipts, released) =
        release calls.fingerprint_of calls.receipts input claim_id s.receipts in
      (record s { receipts = receipts }, released)

  abbrev pub creating : Content → Stored → Stored × CreateResult
  creating content s =
      let (notifications, result) =
        create_notification_with_result calls.deep_equal calls.notifications moment.inside content
          moment.notification_now moment.notification_id s.notifications in
      (record s { notifications = notifications }, result)

  -- `create_notification`: the notification, or what the call throws.
  abbrev pub created_or_throw : CreateResult → Route (Option Notification)
  created_or_throw (Creating.created n) = pure (some n)
  created_or_throw (Creating.existing n announced) = pure (some n)
  created_or_throw Creating.conflict = throw notification_conflict
  created_or_throw Creating.duplicate_key = throw database_error

  abbrev pub notification_for : ResultInput → Snapshot → Status → Route (Option Notification)
  notification_for input snapshot active = pure none
  notification_for input snapshot error =
      call (creating (build_publication_error_notification input snapshot)) >>= created_or_throw

  abbrev pub emitting : (Gateway → Gateway) → Route (Unit {0})
  emitting f w = (record w { store = record w.store { gateway = f w.store.gateway } }, ok tt)

  abbrev pub emit_notification : Option Notification → Gateway → Gateway
  emit_notification none g = g
  emit_notification (some n) g = publish_notification calls.around moment.version n g

  abbrev pub emissions : ResultInput → Snapshot → Option Notification → Gateway → Gateway
  emissions input snapshot n g = emit_notification n (
      publish_publication_result calls.around moment.version
        (build_publication_result input snapshot) g)

  abbrev pub published_answer : ResultInput → Snapshot → Option Notification → Response
  published_answer input snapshot n = answer 202 (
      published (build_publication_result input snapshot)
        (elim n [ none ↦ none | some n' ↦ some (serialize_notification calls.around.to_hex n') ]))

  abbrev pub finish : ResultInput → Snapshot → String → Option Notification → Route Response
  finish input snapshot claim_id n =
      emitting (emissions input snapshot n)
      >> (call (marking input claim_id) >>= λ marked.
          throw_if (not marked) receipt_lost >> pure (published_answer input snapshot n))

  -- The receipt is given up; an error of that is only logged.
  abbrev pub give_up : ResultInput → String → Raised → Route Response
  give_up input claim_id e =
      catch (call (releasing input claim_id) >> pure tt) (λ _. pure tt) >> throw e

  abbrev pub announce : ResultInput → Snapshot → String → Route Response
  announce input snapshot claim_id =
      catch (notification_for input snapshot snapshot.status >>= finish input snapshot claim_id)
        (give_up input claim_id)

  abbrev pub by_claim : ResultInput → Snapshot → ClaimResult → Route Response
  by_claim input snapshot busy =
      pure (again_later "publication_result_in_flight" "publication_result_delivery_in_flight")
  by_claim input snapshot duplicate = pure (suppressed_answer "duplicate_publication_result")
  by_claim input snapshot conflict = throw publication_conflict
  by_claim input snapshot (claimed claim_id) = announce input snapshot claim_id

  abbrev pub by_resolution : ResultInput → Resolution → Route Response
  by_resolution input retry =
      pure
        (again_later "publication_result_not_ready" "inventory_item_integration_still_processing")
  by_resolution input (suppressed reason) = pure (suppressed_answer (reason_text reason))
  by_resolution input (accepted snapshot) = call (claiming input) >>= by_claim input snapshot

  unfoldable pub publication_results : ResultInput → Route Response
  publication_results input = call (resolving input) >>= by_resolution input

  -- The route with the error handler behind it.
  abbrev pub responded : World Stored × Result Raised Response → World Stored × Response
  responded (w, ok response) = (w, response)
  responded (w, err e) = (
    w,
    elim (error_handler false 200 e) [
      | none ↦ answer 500 (Http.refused "" "")
      | some response ↦ response
    ],
  )

  unfoldable pub handle : ResultInput → World Stored → World Stored × Response
  handle input w = responded (publication_results input w)
