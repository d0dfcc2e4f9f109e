-- ===== src/Attendance/Seen.antt =====
-- Reading a thread: who may, and what it changes.
use driveparts_websockets.Prelude.{
  ℕ, ◌+◌, eqb, ◌&&◌, not, is_some, All, eq_iff, ◌≡◌, ◌≢◌, ◌↔◌, refl, Bool, true, false, Option,
  none, some, List, [], ◌∷◌, String, ◌==◌, arith, if◌then◌else◌, contains, first, tally, update_all,
  trim, dedupe, Bool-cases, inl, inr,
}
use mathlib.Core.Bool.{true≢false}
use mathlib.Core.Path.{subst, ap, sym, ◌∙◌}
use driveparts_websockets.Attendance.{
  Calls, UserRole, master, seller, other, Side, Thread, Message, Store,
}
use driveparts_websockets.Attendance.Actions.{
  World, Result, ok, err, pure, query, command, continue, ◌>>=◌,
}
use driveparts_websockets.Attendance.Sides.{
  normalize_chat_user_role, get_thread_responsibles, is_thread_visible_to_user, free_or_own,
  holder_refusal,
}
use driveparts_websockets.Attendance.Metadata.{
  setting_enables, is_single_attendant_enabled, disabled_among, filter_attendance_responsibles,
  list_disabled_single_attendant_store_ids, filter_attendance_responsibles_by_settings, trimmed_ids,
  store_ids_of,
}
use driveparts_websockets.Attendance.Send.{undisturbed}
use driveparts_websockets.Attendance.Listing.{takes_part}
use driveparts_websockets.Attendance.Read.{
  MarkConversationReadInput, MarkConversationReadResult, unread_in, set_read, single_for, answer,
  marking, mark_visible, participants_or, mark_conversation_read,
}

-- The setting of a store as it is stored.
abbrev pub enabled_in : Store → String → Bool
enabled_in s store_id =
    let id = trim store_id in
    if id == "" then true else setting_enables (first (λ d. d.store_id == id) s.settings)

pub holder_iff :
    (now : ℕ) (user_id : String) (side : Side) (o : Option String)
    → (free_or_own user_id o ≡ true) ↔ (holder_refusal now user_id side o ≡ none)
holder_iff now user_id side none = ((λ _. refl), (λ _. refl))
holder_iff now user_id side (some id) = ground arith

module _ (calls : Calls) where
  pub enabled-value :
      (store_id : String) (w : World)
      → (is_single_attendant_enabled calls undisturbed store_id w).1
        ≡ ok (enabled_in w.store store_id)
  unfolding is_single_attendant_enabled query command pure
  enabled-value store_id w = elim (Bool-cases (trim store_id == "")) [
    | inl e ↦ rw e refl
    | inr e ↦ rw (e, calls.settings.find_one_lem) refl
  ]

  pub enabled-store :
      (store_id : String) (w : World)
      → (is_single_attendant_enabled calls undisturbed store_id w).0.store ≡ w.store
  unfolding is_single_attendant_enabled query command pure
  enabled-store store_id w = elim (Bool-cases (trim store_id == "")) [
    | inl e ↦ rw e refl
    | inr e ↦ rw e refl
  ]

  -- The updated_count of the answer, and the collections.
  abbrev pub Answers :
      MarkConversationReadInput → World × Result MarkConversationReadResult → Store → ℕ → Type 0
  Answers input (w, ok r) s n = (w.store ≡ s) × (r.updated_count ≡ n)
  Answers input (w, err e) s n = ⊥

  answer-Answers :
      (input : MarkConversationReadInput) (now : ℕ) (t : Option Thread) (n : ℕ) (w : World)
      → Answers input (answer calls undisturbed input now t n w) w.store n
  unfolding filter_attendance_responsibles_by_settings list_disabled_single_attendant_store_ids
      ◌>>=◌ pure query command
  answer-Answers input now t n w =
      from_ids (dedupe (trimmed_ids (store_ids_of (get_thread_responsibles t))))
    where
      from_ids :
          (ids : List String)
          → Answers input
              (continue
                (λ responsibles. pure (record {
                  updated_count = n;
                  participant_store_ids = participants_or input.store_id t;
                  attendance_responsibles = responsibles;
                  read_at = now;
                }))
                (continue
                  (λ disabled.
                    pure (filter_attendance_responsibles (get_thread_responsibles t) disabled))
                  (disabled_among calls undisturbed ids w)))
              w.store
              n
      from_ids [] = (refl, refl)
      from_ids (id ∷ ids) = (refl, refl)

  Answers-from :
      (input : MarkConversationReadInput) (now : ℕ) (t : Option Thread) (o : World × Result ℕ)
      (s : Store) (n : ℕ)
      → o.0.store ≡ s
      → o.1 ≡ ok n
      → Answers input (continue (answer calls undisturbed input now t) o) s n
  Answers-from input now t (w, ok m) s n h k =
      let e : m ≡ n = ground arith in
      subst (λ s'. Answers input (answer calls undisturbed input now t m w) s' n) h
        (subst (λ n'. Answers input (answer calls undisturbed input now t m w) w.store n') e
          (answer-Answers input now t m w))
  Answers-from input now t (w, err e) s n h k = absurd (ground arith)

  read-changes :
      (now : ℕ) (input : MarkConversationReadInput) (m : Message)
      → unread_in input m ≡ true
      → set_read now m ≢ m
  read-changes now input m h e =
      let f : some now ≡ m.read_at = ap (λ (x : Message). x.read_at) e in absurd (ground arith)

  -- What reading does to the collections, and the count it answers, if the user sees the thread.
  abbrev pub read_store : ℕ → MarkConversationReadInput → Bool → Store → Store
  read_store now input visible s = record s {
    messages =
        if visible then update_all (unread_in input) (set_read now) s.messages else s.messages;
  }

  abbrev pub read_count : MarkConversationReadInput → Bool → Store → ℕ
  read_count input visible s = if visible then tally (unread_in input) s.messages else 0

  mark_visible-Answers :
      (now : ℕ) (input : MarkConversationReadInput) (t : Thread) (visible : Bool) (w : World)
      → Answers input
          (mark_visible calls undisturbed input now (some t) visible w)
          (read_store now input visible w.store)
          (read_count input visible w.store)
  unfolding ◌>>=◌ command
  mark_visible-Answers now input t false w = answer-Answers input now (some t) 0 w
  mark_visible-Answers now input t true w =
      Answers-from input now (some t) (command undisturbed (marking calls undisturbed input now) w)
        (read_store now input true w.store) _ (rw calls.messages.update_many_docs refl)
        (ap ok (
          calls.messages.update_many_modified (unread_in input) (set_read now) w.store.messages
            (read-changes now input)))

-- The setting that counts for a user: only a seller is bound by it.
abbrev bound_by : UserRole → Store → String → Bool
bound_by seller s store_id = enabled_in s store_id
bound_by _ s store_id = true

module _ (calls : Calls) (now : ℕ) (input : MarkConversationReadInput) (t : Thread) where
  -- The answer to a user with the role, once the setting is read.
  role_sees_it : UserRole → Bool → Bool
  role_sees_it role enabled = is_thread_visible_to_user t input.store_id input.user_id role enabled

  enabled-Answers :
      (role : UserRole) (o : World × Result Bool) (s : Store) (b : Bool)
      → o.0.store ≡ s
      → o.1 ≡ ok b
      → Answers calls input
          (continue
            (λ e. mark_visible calls undisturbed input now (some t) (role_sees_it role e))
            o)
          (read_store calls now input (role_sees_it role b) s)
          (read_count calls input (role_sees_it role b) s)
  enabled-Answers role (w, ok c) s b h k =
      let e : c ≡ b = ground arith in
      subst
        (λ s'.
          Answers calls input
            (mark_visible calls undisturbed input now (some t) (role_sees_it role c) w)
            (read_store calls now input (role_sees_it role b) s')
            (read_count calls input (role_sees_it role b) s'))
        h
        (subst
          (λ d.
            Answers calls input
              (mark_visible calls undisturbed input now (some t) (role_sees_it role c) w)
              (read_store calls now input (role_sees_it role d) w.store)
              (read_count calls input (role_sees_it role d) w.store))
          e (mark_visible-Answers calls now input t (role_sees_it role c) w))
  enabled-Answers role (w, err e) s b h k = absurd (ground arith)

  role-Answers :
      (role : UserRole) (w : World)
      → Answers calls input
          (continue
            (λ e. mark_visible calls undisturbed input now (some t) (role_sees_it role e))
            (single_for calls undisturbed input role (some t) w))
          (read_store calls now input
            (role_sees_it role (bound_by role w.store input.store_id))
            w.store)
          (read_count calls input
            (role_sees_it role (bound_by role w.store input.store_id))
            w.store)
  unfolding pure
  role-Answers seller w =
      enabled-Answers seller _ w.store _ (enabled-store calls input.store_id w)
        (enabled-value calls input.store_id w)
  role-Answers master w = enabled-Answers master (w, ok true) w.store true refl refl
  role-Answers other w = enabled-Answers other (w, ok true) w.store true refl refl

-- What reading does, by the filter of the code.
conversation_read :
    (calls : Calls) (now id : ℕ) (input : MarkConversationReadInput) (t : Thread) (w : World)
    → calls.object_id_of input.attendance_thread_id ≡ some id
    → first (takes_part id input.store_id) w.store.threads ≡ some t
    → let role = normalize_chat_user_role input.user_role in
      let visible =
        is_thread_visible_to_user t input.store_id input.user_id role
          (bound_by role w.store input.store_id) in
      Answers calls input
        (mark_conversation_read calls undisturbed now input w)
        (read_store calls now input visible w.store)
        (read_count calls input visible w.store)
unfolding mark_conversation_read ◌>>=◌ query command role_sees_it
conversation_read calls now id input t w valid found =
    rw (valid, calls.threads.find_one_lem, found)
      (role-Answers calls now input t (normalize_chat_user_role input.user_role)
        (record w { sent = w.sent + 1 }))

module _ (calls : Calls) (now id : ℕ) (input : MarkConversationReadInput)
    (valid : calls.object_id_of input.attendance_thread_id ≡ some id)
    (read_back : (n : ℕ) → calls.object_id_of (calls.to_hex n) ≡ some n) where
  -- The thread id of a message is the text of an id, as the driver writes it.
  abbrev pub IsWritten : Message → Type 0
  IsWritten m = (n : ℕ) × (m.attendance_thread_id ≡ calls.to_hex n)

  -- The message is marked: it is an unread one of the visible thread to the store, and the request
  -- writes the thread's id as the driver does.
  abbrev pub is_marked : Bool → Message → Bool
  is_marked visible m =
      visible
      && (input.attendance_thread_id == calls.to_hex id
          && (m.attendance_thread_id == calls.to_hex id
              && (m.recipient_store_id == input.store_id && not (is_some m.read_at))))

  same_thread :
      (m : Message)
      → IsWritten m
      → (m.attendance_thread_id == input.attendance_thread_id) ≡ (
          (input.attendance_thread_id == calls.to_hex id)
          && (m.attendance_thread_id == calls.to_hex id))
  same_thread m (n, written) = elim (Bool-cases (input.attendance_thread_id == calls.to_hex id)) [
    | inl same ↦ rw (same, ap (λ x. m.attendance_thread_id == x) ((eq_iff _ _).0 same)) refl
    | inr differ ↦
        rw differ (elim (Bool-cases (m.attendance_thread_id == input.attendance_thread_id)) [
          | inr unequal ↦ unequal
          | inl equal ↦
              let text : input.attendance_thread_id ≡ calls.to_hex n =
                sym ((eq_iff _ _).0 equal) ∙ written in
              let ids : some id ≡ some n = sym valid ∙ ap calls.object_id_of text ∙ read_back n in
              let number : n ≡ id = cc in
              absurd (true≢false (sym ((eq_iff _ _).1 (text ∙ ap calls.to_hex number)) ∙ differ))
        ])
  ]

  marked_all :
      (visible : Bool) (ms : List Message)
      → All IsWritten ms
      → (if visible then update_all (unread_in input) (set_read now) ms else ms)
        ≡ update_all (is_marked visible) (set_read now) ms
  marked_all true [] h = refl
  marked_all false [] h = refl
  marked_all true (m ∷ ms) (h, hs) = rw (same_thread m h, marked_all true ms hs) (ground arith)
  marked_all false (m ∷ ms) (h, hs) = ap (λ xs. m ∷ xs) (marked_all false ms hs)

  counted_all :
      (visible : Bool) (ms : List Message)
      → All IsWritten ms
      → (if visible then tally (unread_in input) ms else 0) ≡ tally (is_marked visible) ms
  counted_all true [] h = refl
  counted_all false [] h = refl
  counted_all true (m ∷ ms) (h, hs) = ground (arith, same_thread m h, counted_all true ms hs)
  counted_all false (m ∷ ms) (h, hs) = omega (arith, counted_all false ms hs)

-- A user of a store reads a thread that the store takes part in. If the thread is visible to the user
-- under the store's setting and the request writes the thread's id as the driver writes it, every
-- unread message of the thread to the store is marked with the time, their number is answered, and
-- nothing else changes. If the thread is not visible, or the request writes its id in another way,
-- such as in upper case, nothing changes and the answer is 0. No other process runs meanwhile, the
-- messages' thread ids are written by the driver, and it reads what it writes.
pub mark_conversation_read_complete :
    (calls : Calls) (now id : ℕ) (input : MarkConversationReadInput) (t : Thread) (w : World)
    → ((n : ℕ) → calls.object_id_of (calls.to_hex n) ≡ some n)
    → All (λ (m : Message). (n : ℕ) × (m.attendance_thread_id ≡ calls.to_hex n)) w.store.messages
    → calls.object_id_of input.attendance_thread_id ≡ some id
    → first (λ d. eqb d._id id && contains input.store_id d.participant_store_ids) w.store.threads
      ≡ some t
    → let role = normalize_chat_user_role input.user_role in
      let visible =
        is_thread_visible_to_user t input.store_id input.user_id role
          (bound_by role w.store input.store_id) in
      let marked : Message → Bool = λ m.
        visible
        && (input.attendance_thread_id == calls.to_hex id
            && (m.attendance_thread_id == calls.to_hex id
                && (m.recipient_store_id == input.store_id && not (is_some m.read_at)))) in
      Answers calls input
        (mark_conversation_read calls undisturbed now input w)
        (record w.store {
          messages = update_all marked (λ m. record m { read_at = some now }) w.store.messages;
        })
        (tally marked w.store.messages)
mark_conversation_read_complete calls now id input t w read_back written valid found =
    let role = normalize_chat_user_role input.user_role in
    let visible =
      is_thread_visible_to_user t input.store_id input.user_id role
        (bound_by role w.store input.store_id) in
    let o = mark_conversation_read calls undisturbed now input w in
    let marked = is_marked calls now id input valid read_back visible in
    let left : Store = record w.store {
      messages = update_all marked (set_read now) w.store.messages;
    } in
    subst (λ n. Answers calls input o left n)
      (counted_all calls now id input valid read_back visible w.store.messages written)
      (subst
        (λ ms.
          Answers calls input o (record w.store { messages = ms })
            (read_count calls input visible w.store))
        (marked_all calls now id input valid read_back visible w.store.messages written)
        (conversation_read calls now id input t w valid found))
