-- ===== src/Attendance/Sides.antt =====
-- The pure functions of src/repositories/chat_repository.ts on roles, names, ids and the sides of a
-- thread.
use driveparts_websockets.Prelude.{
  ℕ, Bool, true, false, not, ◌&&◌, ◌||◌, Option, none, some, List, [], ◌∷◌, ◌++◌, String, ◌==◌,
  if◌then◌else◌, contains, trim, slice_to,
}
use driveparts_websockets.Attendance.{
  UserRole, master, seller, other, SideName, origin, target, Responsible, Side, Thread, Error,
  attendance_side_already_assigned,
}

abbrev pub is_chat_attendant_role : UserRole → Bool
is_chat_attendant_role master = true
is_chat_attendant_role seller = true
is_chat_attendant_role other = false

-- `none` is a value that is not a text.
unfoldable pub normalize_chat_user_role : Option String → UserRole
normalize_chat_user_role none = other
normalize_chat_user_role (some s) =
    if s == "master" then master else if s == "seller" then seller else other

abbrev trimmed : Option String → String
trimmed none = ""
trimmed (some s) = trim s

unfoldable pub normalize_chat_user_name : Option String → String → String
normalize_chat_user_name user_name fallback_user_id =
    let value = trimmed user_name in
    let fallback = trim fallback_user_id in
    if value == "" then (if fallback == "" then "Usuário" else fallback) else slice_to 160 value

unfoldable pub normalize_optional_id : Option String → String
normalize_optional_id none = ""
normalize_optional_id (some s) = slice_to 128 (trim s)

abbrev pub get_thread_side_name : Thread → String → Option SideName
get_thread_side_name thread store_id =
    if thread.origin_side.store_id == store_id
    then some origin
    else if thread.target_side.store_id == store_id
    then some target
    else none

abbrev pub side_of : SideName → Thread → Side
side_of origin thread = thread.origin_side
side_of target thread = thread.target_side

abbrev named_side : Thread → Option SideName → Option Side
named_side thread none = none
named_side thread (some name) = some (side_of name thread)

abbrev pub get_thread_side : Thread → String → Option Side
get_thread_side thread store_id = named_side thread (get_thread_side_name thread store_id)

-- `value` where it is a text that is not empty.
abbrev pub truthy : Option String → Bool
truthy none = false
truthy (some s) = not (s == "")

abbrev role_or_other : Option UserRole → UserRole
role_or_other none = other
role_or_other (some r) = r

abbrev side_responsible : Side → Option String → Option String → Option ℕ → List Responsible
side_responsible side (some id) (some name) (some at) =
    if id == "" || name == ""
    then []
    else record {
      store_id = side.store_id;
      user_id = id;
      user_name = name;
      user_role = role_or_other side.responsible_user_role;
      assigned_at = at;
    }
      ∷ []
side_responsible side _ _ _ = []

abbrev get_side_responsibles : Side → List Responsible
get_side_responsibles side =
    side_responsible side side.responsible_user_id side.responsible_user_name side.assigned_at

unfoldable pub get_thread_responsibles : Option Thread → List Responsible
get_thread_responsibles none = []
get_thread_responsibles (some thread) =
    get_side_responsibles thread.origin_side ++ get_side_responsibles thread.target_side

abbrev are_thread_store_sides_assigned : Thread → Bool
are_thread_store_sides_assigned thread =
    truthy thread.origin_side.responsible_user_id && truthy thread.target_side.responsible_user_id

abbrev pub should_open_thread_after_message : Thread → String → Bool
should_open_thread_after_message thread sender_store_id =
    thread.target_side.store_id == sender_store_id || are_thread_store_sides_assigned thread

abbrev name_or_user : Option String → String
name_or_user none = "Usuário"
name_or_user (some name) = name

abbrev time_or : ℕ → Option ℕ → ℕ
time_or now none = now
time_or now (some at) = at

abbrev pub holder_refusal : ℕ → String → Side → Option String → Option Error
holder_refusal now sender_user_id side none = none
holder_refusal now sender_user_id side (some id) =
    if id == "" || id == sender_user_id
    then none
    else some (
        attendance_side_already_assigned (record {
          store_id = side.store_id;
          user_id = id;
          user_name = name_or_user side.responsible_user_name;
          user_role = role_or_other side.responsible_user_role;
          assigned_at = time_or now side.assigned_at;
        }))

abbrev side_refusal : ℕ → String → Option Side → Option Error
side_refusal now sender_user_id none = none
side_refusal now sender_user_id (some side) =
    holder_refusal now sender_user_id side side.responsible_user_id

-- `assert_sender_can_handle_thread_side`: the error it throws, if any.
unfoldable pub assert_sender_can_handle_thread_side : ℕ → Thread → String → String → Option Error
assert_sender_can_handle_thread_side now thread sender_store_id sender_user_id =
    side_refusal now sender_user_id (get_thread_side thread sender_store_id)

abbrev pub free_or_own : String → Option String → Bool
free_or_own user_id none = true
free_or_own user_id (some id) = id == "" || id == user_id

abbrev side_visible : String → Option Side → Bool
side_visible user_id none = false
side_visible user_id (some side) = free_or_own user_id side.responsible_user_id

abbrev role_sees : String → UserRole → Bool → Option Side → Bool
role_sees user_id master single_attendant_enabled side = true
role_sees user_id seller single_attendant_enabled side =
    not single_attendant_enabled || side_visible user_id side
role_sees user_id other single_attendant_enabled side = false

unfoldable pub is_thread_visible_to_user : Thread → String → String → UserRole → Bool → Bool
is_thread_visible_to_user thread store_id user_id user_role single_attendant_enabled =
    contains store_id thread.participant_store_ids
    && role_sees user_id user_role single_attendant_enabled (get_thread_side thread store_id)
