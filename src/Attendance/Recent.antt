-- ===== src/Attendance/Recent.antt =====
-- list_recent_attendance_threads of src/repositories/chat_repository.ts: the latest threads of a store
-- and those with unread messages, as a user of the store sees them.
use Prim.Native.String
use driveparts_websockets.Prelude.{
  ℕ, ◌+◌, Bool, true, false, not, ◌&&◌, ◌||◌, Option, none, some, List, [], ◌∷◌, ◌++◌, String, ◌==◌,
  eqb, ltb, if◌then◌else◌, any, first, take, contains, is_some, trim,
}
use driveparts_websockets.Attendance.{
  Calls, UserRole, seller, Channel, ThreadStatus, Responsible, Thread, Message, Store,
  is_store_to_store,
}
use driveparts_websockets.Attendance.Actions.{Action, pure, query, ◌>>=◌}
use driveparts_websockets.Attendance.Sides.{
  is_chat_attendant_role, normalize_chat_user_role, get_thread_responsibles,
}
use driveparts_websockets.Attendance.Metadata.{
  is_single_attendant_enabled, list_disabled_single_attendant_store_ids,
  filter_attendance_responsibles, store_ids_of, all_responsibles, add_id,
}
use driveparts_websockets.Attendance.Listing.{open_to}

pub record ListRecentInput : Type 0 where
  pub store_id : String
  pub user_id : String
  pub user_role : Option String
  pub limit : ℕ

pub record ThreadSummary : Type 0 where
  pub attendance_thread_id : String
  pub attendance_thread_key : String
  pub client_thread_id : Option String
  pub channel : Channel
  pub status : ThreadStatus
  pub peer_store_id : String
  pub last_message_preview : String
  pub last_message_at : Option ℕ
  pub updated_at : ℕ
  pub attendance_responsibles : List Responsible
  pub responsible_label : String
  pub is_pending_for_current_store : Bool
  pub single_attendant_enabled : Bool
  pub unread_count : ℕ

abbrev is_seller : UserRole → Bool
is_seller seller = true
is_seller _ = false

-- The query: threads between stores with a message, of the store; for a seller under single
-- attendants, on a side that is free or the seller's own. `last_message_id` is never empty.
abbrev recent_query : ListRecentInput → Bool → Thread → Bool
recent_query input single t =
    contains input.store_id t.participant_store_ids
    && (is_store_to_store t.channel
        && (is_some t.last_message_id
            && (not (is_seller (normalize_chat_user_role input.user_role) && single)
                || open_to input.store_id input.user_id t)))

-- The later update first, and of two at one time the later id.
abbrev comes_first : Thread → Thread → Bool
comes_first a b =
    ltb b.updated_at a.updated_at || (eqb a.updated_at b.updated_at && ltb b._id a._id)

abbrev insert_recent : Thread → List Thread → List Thread
insert_recent t [] = t ∷ []
insert_recent t (u ∷ us) = if comes_first u t then u ∷ insert_recent t us else t ∷ u ∷ us

abbrev sort_recent : List Thread → List Thread
sort_recent [] = []
sort_recent (t ∷ ts) = insert_recent t (sort_recent ts)

-- `Map.set` by the thread's id.
abbrev put_thread : Thread → List Thread → List Thread
put_thread t [] = t ∷ []
put_thread t (x ∷ xs) = if eqb x._id t._id then t ∷ xs else x ∷ put_thread t xs

abbrev collect_threads : List Thread → List Thread → List Thread
collect_threads found [] = found
collect_threads found (t ∷ ts) = collect_threads (put_thread t found) ts

unfoldable merge_chat_threads_by_id : List Thread → List Thread
merge_chat_threads_by_id threads = sort_recent (collect_threads [] threads)

-- The unread messages to the store, counted by thread id in the groups of the aggregation.
abbrev count_in : String → List (String × ℕ) → List (String × ℕ)
count_in id [] = (id, 1) ∷ []
count_in id ((j, n) ∷ groups) = if j == id then (j, n + 1) ∷ groups else (j, n) ∷ count_in id groups

abbrev unread_groups : String → List Message → List (String × ℕ)
unread_groups store_id [] = []
unread_groups store_id (m ∷ ms) =
    let rest = unread_groups store_id ms in
    if m.recipient_store_id == store_id && not (is_some m.read_at)
    then count_in m.attendance_thread_id rest
    else rest

-- `new Map(...)` by the trimmed ids: the last group of an id counts.
abbrev count_of : String → List (String × ℕ) → ℕ
count_of id [] = 0
count_of id ((j, n) ∷ groups) =
    let later = count_of id groups in
    if any (λ e. trim e.0 == id) groups then later else if trim j == id then n else 0

abbrev unread_object_ids : (String → Option ℕ) → List (String × ℕ) → List ℕ
unread_object_ids object_id_of [] = []
unread_object_ids object_id_of ((j, n) ∷ groups) =
    add_id (object_id_of (trim j)) (unread_object_ids object_id_of groups)

abbrev text_or : String → Option String → String
text_or default none = default
text_or default (some s) = s

abbrev label_of : Bool → Option Responsible → String
label_of false r = "Atendimento compartilhado"
label_of true none = "Pendente"
label_of true (some r) = String.◌++◌ "Resp.: " r.user_name

abbrev present_id : Option String → Option String
present_id none = none
present_id (some s) = if s == "" then none else some s

unfoldable summary :
    (ℕ → String) → ListRecentInput → Bool → List String → List (String × ℕ) → Thread → ThreadSummary
summary to_hex input single disabled groups t =
    let responsibles = filter_attendance_responsibles (get_thread_responsibles (some t)) disabled in
    let current = first (λ (r : Responsible). r.store_id == input.store_id) responsibles in
    record {
      attendance_thread_id = to_hex t._id;
      attendance_thread_key = t.attendance_thread_key;
      client_thread_id = present_id t.client_thread_id;
      channel = t.channel;
      status = t.status;
      peer_store_id =
          if t.origin_side.store_id == input.store_id
          then t.target_side.store_id
          else t.origin_side.store_id;
      last_message_preview = text_or "Mensagem" t.last_message_preview;
      last_message_at = t.last_message_at;
      updated_at = t.updated_at;
      attendance_responsibles = responsibles;
      responsible_label = label_of single current;
      is_pending_for_current_store = single && not (is_some current);
      single_attendant_enabled = single;
      unread_count = count_of (to_hex t._id) groups;
    }

abbrev summaries :
    (ℕ → String)
    → ListRecentInput
    → Bool
    → List String
    → List (String × ℕ)
    → List Thread
    → List ThreadSummary
summaries to_hex input single disabled groups [] = []
summaries to_hex input single disabled groups (t ∷ ts) =
    summary to_hex input single disabled groups t ∷ summaries to_hex input single disabled groups ts

module _ (calls : Calls) (others : ℕ → Store → Store) where
  -- find(query).sort({ updated_at: -1, _id: -1 })
  abbrev find_recent : (Thread → Bool) → Action (List Thread)
  find_recent q = query others (λ s. sort_recent (calls.threads.find q s.threads))

  abbrev unread_threads : (Thread → Bool) → List ℕ → Action (List Thread)
  unread_threads q [] = pure []
  unread_threads q (id ∷ ids) = find_recent (λ t. q t && any (eqb t._id) (id ∷ ids))

  abbrev recent_of : ListRecentInput → Bool → Action (List ThreadSummary)
  recent_of input single = find_recent (recent_query input single) >>= λ latest.
      query others (λ s. unread_groups input.store_id s.messages) >>= λ groups.
      unread_threads (recent_query input single) (unread_object_ids calls.object_id_of groups)
      >>= λ unread.
          (let threads = merge_chat_threads_by_id (take input.limit latest ++ unread) in
            list_disabled_single_attendant_store_ids calls others
              (store_ids_of (all_responsibles threads))
            >>= λ disabled. pure (summaries calls.to_hex input single disabled groups threads))

  unfoldable list_recent_attendance_threads : ListRecentInput → Action (List ThreadSummary)
  list_recent_attendance_threads input =
      if is_chat_attendant_role (normalize_chat_user_role input.user_role)
      then is_single_attendant_enabled calls others input.store_id >>= recent_of input
      else pure []
