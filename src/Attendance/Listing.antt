-- ===== src/Attendance/Listing.antt =====
-- Which messages a user gets to see: list_messages and find_message_by_id of
-- src/repositories/chat_repository.ts.
use driveparts_websockets.Prelude.{
  ℕ, ◌+◌, Bool, true, false, not, ◌&&◌, ◌||◌, Option, none, some, List, [], ◌∷◌, ◌++◌, String, ◌==◌,
  eqb, ltb, if◌then◌else◌, contains, is_some, take, length, reverse, sort_by,
}
use driveparts_websockets.Attendance.{Calls, UserRole, master, seller, Side, Thread, Message, Store}
use driveparts_websockets.Attendance.Actions.{Action, pure, query, ◌>>=◌}
use driveparts_websockets.Attendance.Sides.{
  is_chat_attendant_role, normalize_chat_user_role, normalize_optional_id, free_or_own, truthy,
  is_thread_visible_to_user,
}
use driveparts_websockets.Attendance.Metadata.{
  is_single_attendant_enabled, attach_thread_metadata, attached,
}

pub record ListMessagesInput : Type 0 where
  pub store_id : String
  pub user_id : String
  pub user_role : Option String
  pub peer_store_id : Option String
  pub attendance_thread_id : Option String
  pub before_message_id : Option String
  pub after_message_id : Option String
  pub limit : ℕ

pub record ListMessagesResult : Type 0 where
  pub messages : List Message
  pub has_more : Bool

abbrev pub role_of : ListMessagesInput → UserRole
role_of input = normalize_chat_user_role input.user_role

abbrev pub thread_id_of : ListMessagesInput → String
thread_id_of input = normalize_optional_id input.attendance_thread_id

-- The filter of the threads that a seller sees: a side of the store that is free or the user's own.
abbrev side_open_to : String → String → Side → Bool
side_open_to store_id user_id side =
    side.store_id == store_id && free_or_own user_id side.responsible_user_id

abbrev pub open_to : String → String → Thread → Bool
open_to store_id user_id thread =
    side_open_to store_id user_id thread.origin_side
    || side_open_to store_id user_id thread.target_side

-- `{ _id, participant_store_ids: store_id }`
abbrev pub takes_part : ℕ → String → Thread → Bool
takes_part id store_id thread = eqb thread._id id && contains store_id thread.participant_store_ids

abbrev pub hexes : (ℕ → String) → List Thread → List String
hexes to_hex [] = []
hexes to_hex (t ∷ ts) = to_hex t._id ∷ hexes to_hex ts

abbrev peer_condition : String → Option String → Message → Bool
peer_condition store_id none m = false
peer_condition store_id (some peer) m =
    (m.sender_store_id == store_id && m.recipient_store_id == peer)
    || (m.sender_store_id == peer && m.recipient_store_id == store_id)

-- The two conditions on the stores, where the request names no thread.
abbrev store_condition : ListMessagesInput → Message → Bool
store_condition input m =
    if truthy input.peer_store_id
    then peer_condition input.store_id input.peer_store_id m
    else m.sender_store_id == input.store_id || m.recipient_store_id == input.store_id

unfoldable build_list_messages_query : ListMessagesInput → Message → Bool
build_list_messages_query input m =
    if thread_id_of input == ""
    then store_condition input m
    else m.attendance_thread_id == thread_id_of input

-- The visible threads' ids take the place of the thread's own condition.
unfoldable pub restricted_query : ListMessagesInput → Option (List String) → Message → Bool
unfolding build_list_messages_query
restricted_query input none m = build_list_messages_query input m
restricted_query input (some ids) m =
    (not (thread_id_of input == "") || store_condition input m)
    && contains m.attendance_thread_id ids

-- `Map.set` by the message's id: a message that is there keeps its place.
abbrev pub put_message : Message → List Message → List Message
put_message m [] = m ∷ []
put_message m (x ∷ xs) = if eqb x._id m._id then m ∷ xs else x ∷ put_message m xs

abbrev pub collect_messages : List Message → List Message → List Message
collect_messages found [] = found
collect_messages found (m ∷ ms) = collect_messages (put_message m found) ms

unfoldable pub merge_chat_messages_by_id : List Message → List Message
merge_chat_messages_by_id messages = sort_by (λ (m : Message). m._id) (collect_messages [] messages)

module _ (calls : Calls) (others : ℕ → Store → Store) where
  abbrev pub single_for : ListMessagesInput → UserRole → Action Bool
  single_for input seller = is_single_attendant_enabled calls others input.store_id
  single_for input _ = pure true

  abbrev visible_thread : ListMessagesInput → Option Thread → Action (Option (List String))
  visible_thread input none = pure (some [])
  visible_thread input (some thread) = single_for input (role_of input) >>= λ enabled. pure (
      some (
        if is_thread_visible_to_user thread input.store_id input.user_id (role_of input) enabled
        then thread_id_of input ∷ []
        else []))

  abbrev visible_named : ListMessagesInput → Option ℕ → Action (Option (List String))
  visible_named input none = pure (some [])
  visible_named input (some id) =
      query others (λ s. calls.threads.find_one (takes_part id input.store_id) s.threads)
      >>= visible_thread input

  abbrev pub own_threads : ListMessagesInput → Bool → Action (Option (List String))
  own_threads input false = pure none
  own_threads input true = query others (λ s.
      some
        (hexes calls.to_hex (calls.threads.find (open_to input.store_id input.user_id) s.threads)))

  abbrev visible_of_store : ListMessagesInput → UserRole → Action (Option (List String))
  visible_of_store input master = pure none
  visible_of_store input _ =
      is_single_attendant_enabled calls others input.store_id >>= own_threads input

  -- `none` is null: no restriction.
  unfoldable pub list_visible_thread_ids : ListMessagesInput → Action (Option (List String))
  list_visible_thread_ids input =
      if is_chat_attendant_role (role_of input)
      then (if thread_id_of input == ""
          then visible_of_store input (role_of input)
          else visible_named input (calls.object_id_of (thread_id_of input)))
      else pure (some [])

  abbrev pub valid_id : Option String → Option ℕ
  valid_id none = none
  valid_id (some s) = if s == "" then none else calls.object_id_of s

  abbrev pub page_of : Bool → List Message → Action ListMessagesResult
  page_of has_more messages = attach_thread_metadata calls others messages >>= λ attached_messages.
      pure (record { messages = attached_messages; has_more = has_more })

  abbrev pub unread_messages : ListMessagesInput → (Message → Bool) → Action (List Message)
  unread_messages input q =
      if truthy input.peer_store_id || truthy input.attendance_thread_id
      then pure []
      else query others (λ s.
        calls.sorted_messages.all_newest_first
          (λ m. q m && (m.recipient_store_id == input.store_id && not (is_some m.read_at)))
          s.messages)

  abbrev pub latest_page : ListMessagesInput → (Message → Bool) → Action ListMessagesResult
  latest_page input q =
      query others (λ s. calls.sorted_messages.newest_first q (input.limit + 1) s.messages)
      >>= λ latest. unread_messages input q >>= λ unread.
          page_of (ltb input.limit (length latest))
            (merge_chat_messages_by_id (take input.limit latest ++ unread))

  abbrev pub page_before :
      ListMessagesInput → (Message → Bool) → Option ℕ → Action ListMessagesResult
  page_before input q none = latest_page input q
  page_before input q (some before) =
      query others (λ s.
        calls.sorted_messages.newest_first (λ m. q m && ltb m._id before) (input.limit + 1)
          s.messages)
      >>= λ found. page_of (ltb input.limit (length found)) (reverse (take input.limit found))

  abbrev pub page_after :
      ListMessagesInput → (Message → Bool) → Option ℕ → Action ListMessagesResult
  page_after input q none = page_before input q (valid_id input.before_message_id)
  page_after input q (some after) =
      query others (λ s.
        calls.sorted_messages.oldest_first (λ m. q m && ltb after m._id) (input.limit + 1)
          s.messages)
      >>= λ found. page_of (ltb input.limit (length found)) (take input.limit found)

  abbrev pub list_restricted : ListMessagesInput → Option (List String) → Action ListMessagesResult
  list_restricted input (some []) = pure (record { messages = []; has_more = false })
  list_restricted input ids =
      page_after input (restricted_query input ids) (valid_id input.after_message_id)

  unfoldable pub list_messages : ListMessagesInput → Action ListMessagesResult
  list_messages input = list_visible_thread_ids input >>= list_restricted input

  abbrev attached_found : Option Message → Action (Option Message)
  attached_found none = pure none
  attached_found (some m) = attached calls others m >>= λ m'. pure (some m')

  abbrev find_by_id : Option ℕ → Action (Option Message)
  find_by_id none = pure none
  find_by_id (some id) =
      query others (λ s. calls.messages.find_one (λ m. eqb m._id id) s.messages) >>= attached_found

  unfoldable pub find_message_by_id : String → Action (Option Message)
  find_message_by_id message_id = find_by_id (calls.object_id_of message_id)
