-- ===== src/Attendance/Read.antt =====
-- mark_conversation_read of src/repositories/chat_repository.ts: a user has read what a thread brought
-- to the store.
use driveparts_websockets.Prelude.{
  ℕ, Bool, true, false, not, ◌&&◌, Option, none, some, List, [], ◌∷◌, String, ◌==◌, if◌then◌else◌,
  is_some,
}
use driveparts_websockets.Attendance.{Calls, UserRole, seller, Responsible, Thread, Message, Store}
use driveparts_websockets.Attendance.Actions.{Action, Result, ok, pure, query, command, ◌>>=◌}
use driveparts_websockets.Attendance.Sides.{
  normalize_chat_user_role, get_thread_responsibles, is_thread_visible_to_user,
}
use driveparts_websockets.Attendance.Metadata.{
  is_single_attendant_enabled, filter_attendance_responsibles_by_settings,
}
use driveparts_websockets.Attendance.Listing.{takes_part}

pub record MarkConversationReadInput : Type 0 where
  pub store_id : String
  pub user_id : String
  pub user_role : Option String
  pub attendance_thread_id : String

pub record MarkConversationReadResult : Type 0 where
  pub updated_count : ℕ
  pub participant_store_ids : List String
  pub attendance_responsibles : List Responsible
  pub read_at : ℕ

abbrev pub unread_in : MarkConversationReadInput → Message → Bool
unread_in input m =
    m.attendance_thread_id == input.attendance_thread_id
    && (m.recipient_store_id == input.store_id && not (is_some m.read_at))

abbrev pub set_read : ℕ → Message → Message
set_read now m = record m { read_at = some now }

abbrev pub participants_or : String → Option Thread → List String
participants_or store_id none = store_id ∷ []
participants_or store_id (some thread) = thread.participant_store_ids

module _ (calls : Calls) (others : ℕ → Store → Store) where
  abbrev find_part : MarkConversationReadInput → Option ℕ → Action (Option Thread)
  find_part input none = pure none
  find_part input (some id) =
      query others (λ s. calls.threads.find_one (takes_part id input.store_id) s.threads)

  -- `user_role === 'seller' && thread ? await ... : true`
  abbrev pub single_for : MarkConversationReadInput → UserRole → Option Thread → Action Bool
  single_for input seller (some thread) = is_single_attendant_enabled calls others input.store_id
  single_for input _ _ = pure true

  abbrev sees : MarkConversationReadInput → Bool → Option Thread → Bool
  sees input enabled none = false
  sees input enabled (some thread) =
      is_thread_visible_to_user thread input.store_id input.user_id
        (normalize_chat_user_role input.user_role) enabled

  abbrev pub answer :
      MarkConversationReadInput → ℕ → Option Thread → ℕ → Action MarkConversationReadResult
  answer input read_at thread updated_count =
      filter_attendance_responsibles_by_settings calls others (get_thread_responsibles thread)
      >>= λ responsibles. pure (record {
        updated_count = updated_count;
        participant_store_ids = participants_or input.store_id thread;
        attendance_responsibles = responsibles;
        read_at = read_at;
      })

  abbrev pub marking : MarkConversationReadInput → ℕ → Store → Store × Result ℕ
  marking input read_at s =
      let (messages, modified) =
        calls.messages.update_many (unread_in input) (set_read read_at) s.messages in
      (record s { messages = messages }, ok modified)

  abbrev pub mark_visible :
      MarkConversationReadInput → ℕ → Option Thread → Bool → Action MarkConversationReadResult
  mark_visible input read_at thread visible =
      if visible
      then command others (marking input read_at) >>= answer input read_at thread
      else answer input read_at thread 0

  unfoldable pub mark_conversation_read :
      ℕ → MarkConversationReadInput → Action MarkConversationReadResult
  mark_conversation_read read_at input =
      find_part input (calls.object_id_of input.attendance_thread_id) >>= λ thread.
      single_for input (normalize_chat_user_role input.user_role) thread >>= λ enabled.
      mark_visible input read_at thread (sees input enabled thread)
