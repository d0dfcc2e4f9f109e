-- ===== src/Attendance/Actions.antt =====
-- The repository's methods are actions on its three collections that may throw its errors.
use driveparts_websockets.Effects
use driveparts_websockets.Attendance.{Error, Store}
pub use driveparts_websockets.Effects.{ok, err, ◌>>◌, continue, handled}
unfoldable pub use driveparts_websockets.Effects.{
  pure, throw, command, query, ◌>>=◌, throw_if, catch,
}

abbrev pub Result : Type 0 → Type 0
Result = Effects.Result Error

abbrev pub World : Type 0
World = Effects.World Store

abbrev pub Action : Type 0 → Type 0
Action = Effects.Action Store Error
