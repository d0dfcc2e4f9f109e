-- ===== src/Attendance/Listed.antt =====
-- What list_messages of src/repositories/chat_repository.ts returns to a seller.
use driveparts_websockets.Prelude.{
  ℕ, ◌+◌, ◌≡◌, refl, Bool, true, false, not, ◌&&◌, ◌||◌, Option, none, some, List, [], ◌∷◌, ◌++◌,
  ◌∙◌, String, ◌==◌, ltb, arith, keep, take, reverse, sort_by, All, contains, is_some, Bool-cases,
  inl, inr, length,
}
use mathlib.Core.Path.{subst, sym, ap}
use driveparts_websockets.Prelude.Sorting.{All-append, All-reverse, All-take, All-sort_by}
use driveparts_websockets.Attendance.{Calls, seller, Thread, Message, Store}
use driveparts_websockets.Attendance.Actions.{
  World, Result, ok, err, Action, pure, query, command, continue, ◌>>=◌,
}
use driveparts_websockets.Attendance.Sides.{truthy}
use driveparts_websockets.Attendance.Metadata.{
  attach_thread_metadata, attach_found, with_responsibles, is_single_attendant_enabled,
}
use driveparts_websockets.Attendance.Send.{undisturbed}
use driveparts_websockets.Attendance.Listing.{
  ListMessagesInput, ListMessagesResult, role_of, thread_id_of, open_to, hexes, restricted_query,
  put_message, collect_messages, merge_chat_messages_by_id, own_threads, list_visible_thread_ids,
  page_of, unread_messages, latest_page, page_before, page_after, list_restricted, list_messages,
  valid_id,
}
use driveparts_websockets.Attendance.Seen.{enabled_in, enabled-value, enabled-store}

ok_injective : {A : Type 0} {a b : A} → ◌≡◌ {A = Result A} (ok a) (ok b) → a ≡ b
ok_injective h = cc

-- The message belongs to one of the threads.
abbrev InThreads : List String → Message → Type 0
InThreads ids m = contains m.attendance_thread_id ids ≡ true

-- Every message of the page does.
abbrev pub Lists : List String → World × Result ListMessagesResult → Type 0
Lists ids (w, ok page) = All (InThreads ids) page.messages
Lists ids (w, err e) = Unit

module _ (calls : Calls) (others : ℕ → Store → Store) (ids : List String) where
  Lists-continue :
      {A : Type 0} (f : A → Action ListMessagesResult) (o : World × Result A)
      → ((a : A) (w : World) → o.1 ≡ ok a → Lists ids (f a w))
      → Lists ids (continue f o)
  Lists-continue f (w, ok a) h = h a w refl
  Lists-continue f (w, err e) h = tt

  with_responsibles-InThreads :
      (threads : List Thread) (disabled : List String) (ms : List Message)
      → All (InThreads ids) ms
      → All (InThreads ids) (with_responsibles calls others threads disabled ms)
  with_responsibles-InThreads threads disabled [] a = tt
  with_responsibles-InThreads threads disabled (m ∷ ms) a =
      (a.0, with_responsibles-InThreads threads disabled ms a.1)

  attach_found-Lists :
      (has_more : Bool) (found : List ℕ) (ms : List Message) (w : World)
      → All (InThreads ids) ms
      → Lists ids (
          continue
            (λ messages. pure (record { messages = messages; has_more = has_more }))
            (attach_found calls others found ms w))
  unfolding pure ◌>>=◌ query command
  attach_found-Lists has_more [] ms w a = a
  attach_found-Lists has_more (id ∷ found) ms w a = from_disabled _ _
    where
      from_disabled :
          (threads : List Thread) (o : World × Result (List String))
          → Lists ids (
              continue
                (λ messages. pure (record { messages = messages; has_more = has_more }))
                (continue
                  (λ disabled. pure (with_responsibles calls others threads disabled ms))
                  o))
      from_disabled threads (w', ok disabled) = with_responsibles-InThreads threads disabled ms a
      from_disabled threads (w', err e) = tt

  page_of-Lists :
      (has_more : Bool) (ms : List Message) (w : World)
      → All (InThreads ids) ms
      → Lists ids (page_of calls others has_more ms w)
  unfolding attach_thread_metadata ◌>>=◌
  page_of-Lists has_more ms w a = attach_found-Lists has_more _ ms w a

put_message-InThreads :
    (ids : List String) (m : Message) (xs : List Message)
    → InThreads ids m
    → All (InThreads ids) xs
    → All (InThreads ids) (put_message m xs)
put_message-InThreads ids m [] h a = (h, tt)
put_message-InThreads ids m (x ∷ xs) h a = ground (arith, put_message-InThreads ids m xs h a.1)

collect_messages-InThreads :
    (ids : List String) (found ms : List Message)
    → All (InThreads ids) found
    → All (InThreads ids) ms
    → All (InThreads ids) (collect_messages found ms)
collect_messages-InThreads ids found [] a b = a
collect_messages-InThreads ids found (m ∷ ms) a b =
    collect_messages-InThreads ids (put_message m found) ms
      (put_message-InThreads ids m found b.0 a) b.1

-- The restricted query with a further condition finds messages of the threads only.
restricted-InThreads :
    (input : ListMessagesInput) (ids : List String) (p : Message → Bool) (ms : List Message)
    → All (InThreads ids) (keep (λ m. restricted_query input (some ids) m && p m) ms)
unfolding restricted_query
restricted-InThreads input ids p [] = tt
restricted-InThreads input ids p (m ∷ ms) = ground (arith, restricted-InThreads input ids p ms)

restricted_alone-InThreads :
    (input : ListMessagesInput) (ids : List String) (ms : List Message)
    → All (InThreads ids) (keep (restricted_query input (some ids)) ms)
unfolding restricted_query
restricted_alone-InThreads input ids [] = tt
restricted_alone-InThreads input ids (m ∷ ms) =
    ground (arith, restricted_alone-InThreads input ids ms)

abbrev number : Message → ℕ
number m = m._id

abbrev with_condition : ListMessagesInput → List String → (Message → Bool) → Message → Bool
with_condition input ids p m = restricted_query input (some ids) m && p m

sorted-InThreads :
    (input : ListMessagesInput) (ids : List String) (p : Message → Bool) (ms : List Message)
    → All (InThreads ids) (sort_by number (keep (with_condition input ids p) ms))
sorted-InThreads input ids p ms =
    All-sort_by (InThreads ids) number _ (restricted-InThreads input ids p ms)

reversed-InThreads :
    (input : ListMessagesInput) (ids : List String) (p : Message → Bool) (ms : List Message)
    → All (InThreads ids) (reverse (sort_by number (keep (with_condition input ids p) ms)))
reversed-InThreads input ids p ms = All-reverse (InThreads ids) _ (sorted-InThreads input ids p ms)

latest-InThreads :
    (input : ListMessagesInput) (ids : List String) (n : ℕ) (ms : List Message)
    → All
        (InThreads ids)
        (take n (reverse (sort_by number (keep (restricted_query input (some ids)) ms))))
latest-InThreads input ids n ms = All-take (InThreads ids) n _ (
    All-reverse (InThreads ids) _
      (All-sort_by (InThreads ids) number _ (restricted_alone-InThreads input ids ms)))

merged-InThreads :
    (ids : List String) (n : ℕ) (latest unread : List Message)
    → All (InThreads ids) latest
    → All (InThreads ids) unread
    → All (InThreads ids) (merge_chat_messages_by_id (take n latest ++ unread))
unfolding merge_chat_messages_by_id
merged-InThreads ids n latest unread a b = All-sort_by (InThreads ids) number _ (
    collect_messages-InThreads ids [] _ tt
      (All-append (InThreads ids) (take n latest) unread (All-take (InThreads ids) n latest a) b))

module _ (calls : Calls) (others : ℕ → Store → Store) (input : ListMessagesInput)
    (ids : List String) where
  abbrev unread : Message → Bool
  unread m = m.recipient_store_id == input.store_id && not (is_some m.read_at)

  -- What the unread query adds.
  unread-InThreads :
      (w : World) (ms : List Message)
      → (unread_messages calls others input (restricted_query input (some ids)) w).1 ≡ ok ms
      → All (InThreads ids) ms
  unfolding pure query command
  unread-InThreads w ms h =
      elim (Bool-cases (truthy input.peer_store_id || truthy input.attendance_thread_id)) [
        | inl named ↦
            let e : [] ≡ ms = ok_injective (sym (rw named refl) ∙ h) in
            subst (All (InThreads ids)) e tt
        | inr free ↦
            let e : reverse (
                  sort_by number
                    (keep (with_condition input ids unread) (others w.sent w.store).messages))
                ≡ ms =
              ok_injective (sym (rw (free, calls.sorted_messages.all_newest_first_lem) refl) ∙ h) in
            subst (All (InThreads ids)) e
              (reversed-InThreads input ids unread (others w.sent w.store).messages)
      ]

  latest-Lists :
      (w : World) → Lists ids (latest_page calls others input (restricted_query input (some ids)) w)
  unfolding ◌>>=◌ query command
  latest-Lists w =
      let latest = take (input.limit + 1) (
        reverse (
          sort_by number
            (keep (restricted_query input (some ids)) (others w.sent w.store).messages))) in
      rw calls.sorted_messages.newest_first_lem (
        Lists-continue calls others ids
          (λ found.
            page_of calls others (ltb input.limit (length latest))
              (merge_chat_messages_by_id (take input.limit latest ++ found)))
          (unread_messages calls others input (restricted_query input (some ids)) _)
          (λ found w' h.
            page_of-Lists calls others ids (ltb input.limit (length latest))
              (merge_chat_messages_by_id (take input.limit latest ++ found)) w'
              (merged-InThreads ids input.limit latest found
                (latest-InThreads input ids (input.limit + 1) _) (unread-InThreads _ found h))))

  before-Lists :
      (o : Option ℕ) (w : World)
      → Lists ids (page_before calls others input (restricted_query input (some ids)) o w)
  unfolding ◌>>=◌ query command
  before-Lists none w = latest-Lists w
  before-Lists (some before) w =
      let p : Message → Bool = λ m. ltb m._id before in
      let found = take (input.limit + 1) (
        reverse
          (sort_by number (keep (with_condition input ids p) (others w.sent w.store).messages))) in
      rw calls.sorted_messages.newest_first_lem (
        page_of-Lists calls others ids (ltb input.limit (length found))
          (reverse (take input.limit found)) _
          (All-reverse (InThreads ids) _ (
            All-take (InThreads ids) input.limit found
              (All-take (InThreads ids) (input.limit + 1) _ (reversed-InThreads input ids p _)))))

  after-Lists :
      (o : Option ℕ) (w : World)
      → Lists ids (page_after calls others input (restricted_query input (some ids)) o w)
  unfolding ◌>>=◌ query command
  after-Lists none w = before-Lists (valid_id calls others input.before_message_id) w
  after-Lists (some after) w =
      let p : Message → Bool = λ m. ltb after m._id in
      let found =
        take (input.limit + 1)
          (sort_by number (keep (with_condition input ids p) (others w.sent w.store).messages)) in
      rw calls.sorted_messages.oldest_first_lem (
        page_of-Lists calls others ids (ltb input.limit (length found)) (take input.limit found) _ (
          All-take (InThreads ids) input.limit found
            (All-take (InThreads ids) (input.limit + 1) _ (sorted-InThreads input ids p _))))

pub restricted-Lists :
    (calls : Calls) (others : ℕ → Store → Store) (input : ListMessagesInput) (ids : List String)
    (w : World)
    → Lists ids (list_restricted calls others input (some ids) w)
unfolding pure
restricted-Lists calls others input [] w = tt
restricted-Lists calls others input (id ∷ ids) w =
    after-Lists calls others input (id ∷ ids) (valid_id calls others input.after_message_id) w

own-Lists :
    (calls : Calls) (input : ListMessagesInput) (o : World × Result Bool) (s : Store)
    → o.0.store ≡ s
    → o.1 ≡ ok true
    → Lists (hexes calls.to_hex (keep (open_to input.store_id input.user_id) s.threads)) (
        continue
          (list_restricted calls undisturbed input)
          (continue (own_threads calls undisturbed input) o))
unfolding query command
own-Lists calls input (w, ok true) s h k = rw calls.threads.find_lem (
    subst
      (λ (r : Store).
        Lists (hexes calls.to_hex (keep (open_to input.store_id input.user_id) r.threads)) (
          list_restricted calls undisturbed input
            (some
              (hexes calls.to_hex (keep (open_to input.store_id input.user_id) w.store.threads)))
            (record w { sent = w.sent + 1 })))
      h (restricted-Lists calls undisturbed input _ _))
own-Lists calls input (w, ok false) s h k = absurd (ground arith)
own-Lists calls input (w, err e) s h k = absurd (ground arith)

-- A seller of a store whose sides have single attendants asks for messages without naming a thread,
-- while no other process runs: every message of the answer belongs to a stored thread with a side of
-- the store that nobody or that seller is responsible for.
pub sellers_see_open_threads :
    (calls : Calls) (input : ListMessagesInput) (w : World)
    → role_of input ≡ seller
    → thread_id_of input ≡ ""
    → enabled_in w.store input.store_id ≡ true
    → Lists
        (hexes calls.to_hex (keep (open_to input.store_id input.user_id) w.store.threads))
        (list_messages calls undisturbed input w)
unfolding list_messages list_visible_thread_ids ◌>>=◌
sellers_see_open_threads calls input w role unnamed single =
    rw (role, unnamed)
      (own-Lists calls input (is_single_attendant_enabled calls undisturbed input.store_id w)
        w.store (enabled-store calls input.store_id w)
        (enabled-value calls input.store_id w ∙ ap ok single))
