-- ===== src/Attendance/Latest.antt =====
-- The pipeline update of a thread after a message: its status, and the fields of its latest message.
use driveparts_websockets.Prelude.{
  ℕ, Bool, true, Option, none, some, List, [], ◌∷◌, String, ◌==◌, if◌then◌else◌, ltb, trim,
  slice_to,
}
use Prim.Native.String
use driveparts_websockets.Attendance.{
  ThreadStatus, waiting, opened, closed, Attachment, Reference, Thread, CreateMessageInput,
}

abbrev pub build_monotonic_thread_status : Bool → ThreadStatus → ThreadStatus
build_monotonic_thread_status should_open closed = closed
build_monotonic_thread_status should_open opened = opened
build_monotonic_thread_status should_open waiting = if should_open then opened else waiting

abbrev attachments_preview : Option (List Attachment) → String
attachments_preview none = ""
attachments_preview (some []) = ""
attachments_preview (some (_ ∷ [])) = "Imagem"
attachments_preview (some (_ ∷ _ ∷ _)) = "Imagens"

abbrev reference_preview : Option Reference → Option (List Attachment) → String
reference_preview none attachments = attachments_preview attachments
reference_preview (some r) attachments =
    if r.marketplace_name == ""
    then attachments_preview attachments
    else slice_to 160 (String.◌++◌ "Referencia: " r.marketplace_name)

unfoldable pub get_last_message_preview : CreateMessageInput → String
get_last_message_preview input =
    if trim input.body == ""
    then reference_preview input.reference input.attachments
    else slice_to 160 input.body

-- `$lt: [{ $ifNull: ['$last_message_id', ''] }, message_id]`
abbrev pub is_newest_message : ℕ → Option ℕ → Bool
is_newest_message message_id none = true
is_newest_message message_id (some last) = ltb last message_id

abbrev latest_value {ℓ} : {A : Type ℓ} → Thread → ℕ → A → Option A → Option A
latest_value thread message_id value old =
    if is_newest_message message_id thread.last_message_id then some value else old

-- The whole `$set` stage: every value is computed from the thread as stored.
unfoldable pub apply_message : Bool → ℕ → String → ℕ → Thread → Thread
apply_message should_open message_id message_preview created_at thread = record thread {
  status = build_monotonic_thread_status should_open thread.status;
  last_message_id = latest_value thread message_id message_id thread.last_message_id;
  last_message_preview = latest_value thread message_id message_preview thread.last_message_preview;
  last_message_at = latest_value thread message_id created_at thread.last_message_at;
  updated_at = if ltb thread.updated_at created_at then created_at else thread.updated_at;
}
