-- ===== src/Publication.antt =====
-- The result of a listing publication, as the internal HTTP endpoint hands it to
-- src/repositories/publication_result_repository.ts.
pub mod Resolve
pub mod Sanitize
pub mod Receipts
use driveparts_websockets.Prelude.{ℕ, String, Option, Bool, true, false}

pub data Status : Type 0 where
  active error : Status

abbrev pub same_status : Status → Status → Bool
same_status active active = true
same_status error error = true
same_status _ _ = false

pub record SanitizedError : Type 0 where
  pub code : Option String
  pub message : String
  pub retryable : Option Bool
  pub status_code : Option ℕ

-- `InternalPublicationResultInput`
pub record ResultInput : Type 0 where
  pub idempotency_key : String
  pub event_id : String
  pub delivery_id : String
  pub store_id : String
  pub integration_id : String
  pub inventory_item_id : String
  pub channel : String
  pub status : Status
  pub execution_id : String
  pub attempt : ℕ
  pub finished_at : String
  pub operation : Option String
  pub external_listing_id : Option String
  pub error : Option SanitizedError
