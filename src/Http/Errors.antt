-- ===== src/Http/Errors.antt =====
-- The error handler of src/http/app.ts.
use Prim.Native.String.{String}
use driveparts_websockets.Prelude.{ℕ, Bool, Option, none, some, leb, if◌then◌else◌, opt_eq}
use driveparts_websockets.Prelude.Splits.{slice_from, split_commas}
use text.Mathlib.Text.{starts_with}
use driveparts_websockets.Http.{
  refused, invalid_fields, invalid_keys, Response, answer, ErrorClass, zod_error,
  notification_idempotency_conflict_error, publication_result_idempotency_conflict_error, error,
  no_error, Raised,
}

abbrev pub has_error_type : Raised → String → Bool
has_error_type e expected_type = opt_eq e.type (some expected_type)

abbrev pub internal_error : ℕ → Response
internal_error status_code =
    answer (if leb 500 status_code then status_code else 500)
      (refused "internal_error" "internal_error")

abbrev key_prefix : String
key_prefix = "invalid_payload_keys:"

-- By the class of the error; the prefix has 21 characters.
abbrev pub by_class : ℕ → String → ErrorClass → Response
by_class status_code message (zod_error issues) =
    answer 422 (invalid_fields "invalid_payload" "payload_validation_failed" issues)
by_class status_code message notification_idempotency_conflict_error =
    answer 409 (refused "conflict" message)
by_class status_code message publication_result_idempotency_conflict_error =
    answer 409 (refused "conflict" message)
by_class status_code message error =
    if starts_with message key_prefix
    then answer 422 (
        invalid_keys "invalid_payload" "payload_keys_must_be_lower_snake_case"
          (split_commas (slice_from 21 message)))
    else internal_error status_code
by_class status_code message no_error = internal_error status_code

-- `headers_sent` and `status_code` are the response's; `none` passes the error on.
unfoldable pub error_handler : Bool → ℕ → Raised → Option Response
error_handler headers_sent status_code e =
    if headers_sent
    then none
    else some (
        if has_error_type e "entity.parse.failed"
        then answer 400 (refused "invalid_json" "request_body_must_be_valid_json")
        else if has_error_type e "entity.too.large"
        then answer 413 (refused "payload_too_large" "request_body_too_large")
        else by_class status_code e.message e.class)
