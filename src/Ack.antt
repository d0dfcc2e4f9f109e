-- ===== src/Ack.antt =====
-- src/contracts/ack.ts, and the permission checks of src/socket/handlers/shared.ts that answer with
-- it.
use driveparts_websockets.Prelude.{
  Bool, true, not, ◌||◌, Option, none, some, List, String, contains, if◌then◌else◌,
}
use driveparts_websockets.Value.{boolean, Fields, end, field}
use driveparts_websockets.Config.{AppConfig}

-- `AckResponse<T>`: `error` has the code, the message and the additional data.
pub data AckResponse {ℓ} (T : Type ℓ) : Type ℓ where
  ok : T → AckResponse T
  error : String → String → Option Fields → AckResponse T

-- `{ retryable: true }`
abbrev pub retryable : Option Fields
retryable = some (field "retryable" (boolean true) end)

module _ {ℓ} {T : Type ℓ} where
  unfoldable ok_ack : T → AckResponse T
  ok_ack value = ok value

  -- Data with no key is left out.
  unfoldable pub error_ack : String → String → Option Fields → AckResponse T
  error_ack code message none = error code message none
  error_ack code message (some end) = error code message none
  error_ack code message (some (field k v fs)) = error code message (some (field k v fs))

  unfoldable internal_error_ack : AckResponse T
  unfolding error_ack
  internal_error_ack = error_ack "internal_error" "internal_error" retryable

unfoldable permission_allowed : AppConfig → List String → String → Bool
permission_allowed config permissions permission =
    not config.socket_enforce_permissions || contains permission permissions

-- The call either lets the handler go on, or answers `forbidden` with the message.
unfoldable require_permission {ℓ} :
    {T : Type ℓ} → AppConfig → List String → String → String → Option (AckResponse T)
unfolding permission_allowed error_ack
require_permission config permissions permission message =
    if permission_allowed config permissions permission
    then none
    else some (error_ack "forbidden" message none)
