-- ===== src/Attendance/Metadata.antt =====
-- The settings of the stores, and the responsibles that the repository adds to the messages it
-- returns.
use driveparts_websockets.Prelude.{
  Bool, true, not, ◌&&◌, Option, none, some, List, [], ◌∷◌, ◌++◌, ℕ, String, ◌==◌, eqb,
  if◌then◌else◌, contains, dedupe, trim, keep, first, any,
}
use driveparts_websockets.Attendance.{Calls, Responsible, Thread, Message, Setting, Store}
use driveparts_websockets.Attendance.Actions.{Action, pure, query, ◌>>=◌}
use driveparts_websockets.Attendance.Sides.{get_thread_responsibles}

-- `setting?.single_attendant_enabled !== false`
abbrev not_disabled : Option Bool → Bool
not_disabled none = true
not_disabled (some b) = b

abbrev pub setting_enables : Option Setting → Bool
setting_enables none = true
setting_enables (some setting) = not_disabled setting.single_attendant_enabled

abbrev pub trimmed_ids : List String → List String
trimmed_ids [] = []
trimmed_ids (s ∷ ss) =
    let rest = trimmed_ids ss in let t = trim s in if t == "" then rest else t ∷ rest

abbrev setting_store_ids : List Setting → List String
setting_store_ids [] = []
setting_store_ids (s ∷ ss) = s.store_id ∷ setting_store_ids ss

abbrev pub store_ids_of : List Responsible → List String
store_ids_of [] = []
store_ids_of (r ∷ rs) = r.store_id ∷ store_ids_of rs

abbrev pub all_responsibles : List Thread → List Responsible
all_responsibles [] = []
all_responsibles (t ∷ ts) = get_thread_responsibles (some t) ++ all_responsibles ts

abbrev pub filter_attendance_responsibles : List Responsible → List String → List Responsible
filter_attendance_responsibles responsibles disabled =
    keep (λ r. not (contains r.store_id disabled)) responsibles

abbrev pub add_id : Option ℕ → List ℕ → List ℕ
add_id none ids = ids
add_id (some id) ids = id ∷ ids

module _ (calls : Calls) (others : ℕ → Store → Store) where
  unfoldable pub is_single_attendant_enabled : String → Action Bool
  is_single_attendant_enabled store_id =
      let normalized = trim store_id in
      if normalized == ""
      then pure true
      else query others (λ s.
        setting_enables (calls.settings.find_one (λ d. d.store_id == normalized) s.settings))

  abbrev pub disabled_among : List String → Action (List String)
  disabled_among [] = pure []
  disabled_among (id ∷ ids) = query others (λ s. setting_store_ids (
      calls.settings.find
        (λ d. contains d.store_id (id ∷ ids) && not (not_disabled d.single_attendant_enabled))
        s.settings))

  unfoldable pub list_disabled_single_attendant_store_ids : List String → Action (List String)
  list_disabled_single_attendant_store_ids store_ids =
      disabled_among (dedupe (trimmed_ids store_ids))

  unfoldable pub filter_attendance_responsibles_by_settings :
      List Responsible → Action (List Responsible)
  filter_attendance_responsibles_by_settings responsibles =
      list_disabled_single_attendant_store_ids (store_ids_of responsibles) >>= λ disabled.
      pure (filter_attendance_responsibles responsibles disabled)

  -- `Array.from(new Set(...))` of the valid thread ids, as numbers.
  abbrev thread_object_ids : List String → List ℕ
  thread_object_ids [] = []
  thread_object_ids (s ∷ ss) = add_id (calls.object_id_of s) (thread_object_ids ss)

  abbrev thread_ids_of : List Message → List String
  thread_ids_of [] = []
  thread_ids_of (m ∷ ms) = m.attendance_thread_id ∷ thread_ids_of ms

  abbrev responsibles_of : List String → Option Thread → List Responsible
  responsibles_of disabled none = []
  responsibles_of disabled (some thread) =
      filter_attendance_responsibles (get_thread_responsibles (some thread)) disabled

  -- `disabled` stands for the store ids found disabled, `threads` for the threads of the messages.
  abbrev pub with_responsibles : List Thread → List String → List Message → List Message
  with_responsibles threads disabled [] = []
  with_responsibles threads disabled (m ∷ ms) =
      record m {
        attendance_responsibles = some (
            responsibles_of disabled
              (first (λ (t : Thread). calls.to_hex t._id == m.attendance_thread_id) threads));
      }
      ∷ with_responsibles threads disabled ms

  abbrev pub attach_found : List ℕ → List Message → Action (List Message)
  attach_found [] messages = pure messages
  attach_found (id ∷ ids) messages =
      query others (λ s. calls.threads.find (λ t. any (eqb t._id) (id ∷ ids)) s.threads)
      >>= λ threads.
          list_disabled_single_attendant_store_ids (store_ids_of (all_responsibles threads))
          >>= λ disabled. pure (with_responsibles threads disabled messages)

  unfoldable pub attach_thread_metadata : List Message → Action (List Message)
  attach_thread_metadata messages =
      attach_found (thread_object_ids (dedupe (thread_ids_of messages))) messages

  abbrev head_or : Message → List Message → Message
  head_or m [] = m
  head_or m (x ∷ xs) = x

  -- `(await this.attach_thread_metadata([message]))[0] ?? message`
  unfoldable pub attached : Message → Action Message
  attached message =
      attach_thread_metadata (message ∷ []) >>= λ messages. pure (head_or message messages)
