-- ===== src/Ecommerce/Actions.antt =====
-- The repository's methods are actions on its two collections that may throw its errors.
use driveparts_websockets.Effects
use driveparts_websockets.Ecommerce.{Error, Store}
pub use driveparts_websockets.Effects.{ok, err, ◌>>◌, continue, handled, rolled_back, undisturbed}
unfoldable pub use driveparts_websockets.Effects.{
  pure, throw, command, query, ◌>>=◌, throw_if, catch, execute_atomic,
}

abbrev pub Result : Type 0 → Type 0
Result = Effects.Result Error

abbrev pub World : Type 0
World = Effects.World Store

abbrev pub Action : Type 0 → Type 0
Action = Effects.Action Store Error
