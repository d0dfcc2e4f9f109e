-- ===== src/Attendance/Threads.antt =====
-- Finding the thread of a message, creating it, and making the sender responsible for a side.
use Prim.Native.String
use driveparts_websockets.Prelude.{
  ℕ, Bool, true, false, ◌&&◌, Option, none, some, List, [], ◌∷◌, String, ◌==◌, eqb, if◌then◌else◌,
  contains, opt_eq, text_leb,
}
use driveparts_websockets.CompoundKey.{build_compound_key}
use driveparts_websockets.Attendance.{
  Calls, Side, Thread, ThreadStatus, waiting, closed, Store, store_to_store, is_store_to_store,
  CreateMessageInput, attendance_thread_not_found, client_thread_id_conflict, duplicate_key,
}
use driveparts_websockets.Attendance.Actions.{
  Action, Result, ok, pure, throw, query, command, ◌>>=◌,
}
use driveparts_websockets.Attendance.Sides.{normalize_optional_id}

abbrev is_closed_status : ThreadStatus → Bool
is_closed_status closed = true
is_closed_status _ = false

abbrev pub is_closed : Thread → Bool
is_closed thread = is_closed_status thread.status

abbrev thread_identity_matches : Thread → CreateMessageInput → String → Bool
thread_identity_matches thread input client_thread_id =
    is_store_to_store thread.channel
    && (thread.origin_side.store_id == input.sender_store_id
        && (thread.target_side.store_id == input.recipient_store_id
            && opt_eq thread.client_thread_id (some client_thread_id)))

-- `{ participant_store_ids: { $all: [a, b] } }` with the id
abbrev pub between_stores : ℕ → String → String → Thread → Bool
between_stores id a b thread =
    eqb thread._id id
    && (contains a thread.participant_store_ids && contains b thread.participant_store_ids)

abbrev store_side : String → Side
store_side store_id = record {
  store_id = store_id;
  responsible_user_id = none;
  responsible_user_name = none;
  responsible_user_role = none;
  assigned_at = none;
}

-- `[a, b].sort()`
abbrev sorted_pair : String → String → List String
sorted_pair a b = if text_leb a b then a ∷ b ∷ [] else b ∷ a ∷ []

abbrev new_thread : CreateMessageInput → String → String → ℕ → ℕ → Thread
new_thread input key client_thread_id now id = record {
  _id = id;
  attendance_thread_key = key;
  client_thread_id = some client_thread_id;
  channel = store_to_store;
  status = waiting;
  origin_side = store_side input.sender_store_id;
  target_side = store_side input.recipient_store_id;
  participant_store_ids = sorted_pair input.sender_store_id input.recipient_store_id;
  created_at = now;
  updated_at = now;
  last_message_id = none;
  last_message_preview = none;
  last_message_at = none;
}

abbrev pub found_or_throw : Option Thread → Action Thread
found_or_throw none = throw attendance_thread_not_found
found_or_throw (some thread) = pure thread

-- `now` and `thread_id` are the clock and the new ObjectId of one call that creates a thread.
module _ (calls : Calls) (others : ℕ → Store → Store) (now thread_id : ℕ) where
  abbrev canonical_key : CreateMessageInput → String → String
  canonical_key input client_thread_id =
      build_compound_key calls.bytes calls.sha256 "store_to_store_thread"
        (input.sender_store_id ∷ input.recipient_store_id ∷ client_thread_id ∷ [])

  abbrev legacy_key : CreateMessageInput → String → String
  legacy_key input client_thread_id = String.◌++◌ "store_to_store:" (
      String.◌++◌ input.sender_store_id
        (String.◌++◌ ":" (String.◌++◌ input.recipient_store_id (String.◌++◌ ":" client_thread_id))))

  abbrev find_by_key : String → Action (Option Thread)
  find_by_key key =
      query others (λ s. calls.threads.find_one (λ t. t.attendance_thread_key == key) s.threads)

  abbrev pub stored_or : Store → Thread → Option (List Thread) → Store × Result Bool
  stored_or s document none = (s, ok false)
  stored_or s document (some threads) = (record s { threads = threads }, ok true)

  -- insertOne; false for a duplicate key.
  abbrev pub insert_thread : Thread → Action Bool
  insert_thread document =
      command others (λ s. stored_or s document (calls.threads.insert_one document s.threads))

  abbrev pub existing_or_throw : CreateMessageInput → String → Option Thread → Action Thread
  existing_or_throw input client_thread_id none = throw duplicate_key
  existing_or_throw input client_thread_id (some thread) =
      if thread_identity_matches thread input client_thread_id
      then pure thread
      else throw duplicate_key

  abbrev pub after_insert : CreateMessageInput → String → Thread → Bool → Action Thread
  after_insert input client_thread_id document true = pure document
  after_insert input client_thread_id document false =
      find_by_key (canonical_key input client_thread_id)
      >>= existing_or_throw input client_thread_id

  abbrev pub insert_new : CreateMessageInput → String → Action Thread
  insert_new input client_thread_id =
      let document =
        new_thread input (canonical_key input client_thread_id) client_thread_id now thread_id in
      insert_thread document >>= after_insert input client_thread_id document

  abbrev pub legacy_or_new : CreateMessageInput → String → Option Thread → Action Thread
  legacy_or_new input client_thread_id none = insert_new input client_thread_id
  legacy_or_new input client_thread_id (some thread) =
      if thread_identity_matches thread input client_thread_id
      then pure thread
      else insert_new input client_thread_id

  abbrev pub canonical_or : CreateMessageInput → String → Option Thread → Action Thread
  canonical_or input client_thread_id (some thread) =
      if thread_identity_matches thread input client_thread_id
      then pure thread
      else throw client_thread_id_conflict
  canonical_or input client_thread_id none =
      find_by_key (legacy_key input client_thread_id) >>= legacy_or_new input client_thread_id

  unfoldable pub create_thread : CreateMessageInput → Action Thread
  create_thread input =
      let requested = normalize_optional_id input.client_thread_id in
      let client_thread_id = if requested == "" then calls.to_hex thread_id else requested in
      find_by_key (canonical_key input client_thread_id) >>= canonical_or input client_thread_id

  abbrev pub find_between : CreateMessageInput → Option ℕ → Action Thread
  find_between input none = throw attendance_thread_not_found
  find_between input (some id) =
      query others (λ s.
        calls.threads.find_one (between_stores id input.sender_store_id input.recipient_store_id)
          s.threads)
      >>= found_or_throw

  unfoldable pub ensure_thread : CreateMessageInput → Action Thread
  ensure_thread input =
      let id = normalize_optional_id input.attendance_thread_id in
      if id == "" then create_thread input else find_between input (calls.object_id_of id)
