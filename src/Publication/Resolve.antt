-- ===== src/Publication/Resolve.antt =====
-- `resolve` of src/repositories/publication_result_repository.ts: the listing's own document decides
-- whether a reported result may be announced, is to be tried again, or is suppressed. Dates are
-- given by their milliseconds; `parse_date` is the language's reading of a date in a text.
pub mod Accepts
use Prim.Native.String
use driveparts_websockets.Prelude.{
  ℕ, ◌≡◌, ◌≢◌, ◌↔◌, ◌⊎◌, refl, ap, Bool, true, false, not, ◌&&◌, Option, none, some, List, String,
  arith, first, keep, ◌==◌, eq_iff, if◌then◌else◌, opt_eq, opt_eq_iff, is_some, Bool-cases,
  Option-cases, inl, inr, first-eq-some, trim,
}
use text.Mathlib.Text.{starts_with}
use driveparts_websockets.Mongo.{Collection}
use driveparts_websockets.Value.{
  Value, undefined, boolean, string, date, array, object_id, Items, nil, cons, normalized_string,
}
use driveparts_websockets.Publication.{
  Status, active, error, same_status, SanitizedError, ResultInput,
}
use driveparts_websockets.Publication.Sanitize.{sanitize_publication_error}

-- `InventoryItemIntegrationDocument`
pub record Integration : Type 0 where
  pub _id : Value
  pub store_id : Value
  pub integration_id : Value
  pub inventory_item_id : Value
  pub channel : Value
  pub status : Value
  pub execution_id : Value
  pub enabled : Value
  pub updated_at : Value
  pub error : Value

pub record Snapshot : Type 0 where
  pub inventory_item_integration_id : String
  pub store_id : String
  pub integration_id : String
  pub inventory_item_id : String
  pub channel : String
  pub status : Status
  pub execution_id : String
  pub enabled : Option Bool
  pub updated_at : Option ℕ
  pub error : Option SanitizedError

pub data Reason : Type 0 where
  inventory_item_integration_not_found stale_execution status_mismatch : Reason
  inventory_item_integration_not_terminal : Reason

pub data Resolution : Type 0 where
  accepted : Snapshot → Resolution
  retry : Resolution
  suppressed : Reason → Resolution

-- A query `{ field: text }` matches the text and an array that holds it.
pub holds_text : String → Items → Bool
holds_text s nil = false
holds_text s (cons (string t) xs) = let rest = holds_text s xs in if t == s then true else rest
holds_text s (cons _ xs) = holds_text s xs

unfoldable pub matches_text : String → Value → Bool
unfolding holds_text
matches_text s (string t) = t == s
matches_text s (array xs) = holds_text s xs
matches_text s _ = false

abbrev pub query : ResultInput → Integration → Bool
query input d =
    matches_text input.store_id d.store_id
    && (matches_text input.integration_id d.integration_id
        && (matches_text input.inventory_item_id d.inventory_item_id
            && matches_text input.channel d.channel))

-- The collection has no unique index.
abbrev pub never : Integration → Integration → Bool
never a b = false

abbrev pub Integrations : Type 0
Integrations = Collection Integration never

unfoldable pub normalized_document_id : Value → Option String
normalized_document_id (string s) = normalized_string (string s)
normalized_document_id (object_id hex) = normalized_string (string hex)
normalized_document_id _ = none

-- The status of a finished execution.
abbrev pub terminal : Option String → Option Status
terminal none = none
terminal (some s) = if s == "active" then some active else if s == "error" then some error else none

enabled_of : Value → Option Bool
enabled_of (boolean b) = some b
enabled_of _ = none

abbrev execution_prefix : ResultInput → String
execution_prefix input =
    String.◌++◌ input.event_id (String.◌++◌ ":" (String.◌++◌ input.delivery_id ":"))

abbrev pub runs_for : ResultInput → Option String → Bool
runs_for input none = false
runs_for input (some execution_id) = starts_with execution_id (execution_prefix input)

module _ (redact_sensitive_text : String → String) (parse_date : String → Option ℕ) where
  serialize_date : Value → Option ℕ
  serialize_date (date d) = d
  serialize_date (string s) = parse_date s
  serialize_date _ = none

  abbrev error_of : Status → Value → Option SanitizedError
  error_of active value = none
  error_of error value = some (sanitize_publication_error redact_sensitive_text value)

  unfoldable pub snapshot : ResultInput → Integration → Status → String → Snapshot
  unfolding enabled_of serialize_date
  snapshot input d status id = record {
    inventory_item_integration_id = id;
    store_id = input.store_id;
    integration_id = input.integration_id;
    inventory_item_id = input.inventory_item_id;
    channel = input.channel;
    status = status;
    execution_id = input.execution_id;
    enabled = enabled_of d.enabled;
    updated_at = serialize_date d.updated_at;
    error = error_of status d.error;
  }

  abbrev pub with_id : ResultInput → Integration → Status → Option String → Resolution
  with_id input d status none = suppressed inventory_item_integration_not_found
  with_id input d status (some id) = accepted (snapshot input d status id)

  abbrev pub resolve_terminal : ResultInput → Integration → Option Status → Resolution
  resolve_terminal input d none = suppressed inventory_item_integration_not_terminal
  resolve_terminal input d (some status) =
      if not (opt_eq (normalized_string d.execution_id) (some input.execution_id))
      then suppressed stale_execution
      else if not (same_status status input.status)
      then suppressed status_mismatch
      else with_id input d status (normalized_document_id d._id)

  unfoldable pub resolve_document : ResultInput → Option Integration → Resolution
  resolve_document input none = suppressed inventory_item_integration_not_found
  resolve_document input (some d) =
      if opt_eq (normalized_string d.status) (some "processing")
      then (if runs_for input (normalized_string d.execution_id)
          then retry
          else suppressed stale_execution)
      else resolve_terminal input d (terminal (normalized_string d.status))

  unfoldable pub resolve : Integrations → ResultInput → List Integration → Resolution
  unfolding resolve_document
  resolve db input docs = resolve_document input (db.find_one (query input) docs)
