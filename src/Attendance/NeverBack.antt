-- ===== src/Attendance/NeverBack.antt =====
-- What create_message of src/repositories/chat_repository.ts can do to the stored threads.
use driveparts_websockets.Prelude.{
  ℕ, Bool, true, false, Option, none, some, [], ◌∷◌, ◌++◌, String, any, if◌then◌else◌,
}
use driveparts_websockets.Attendance.{
  Calls, Thread, Message, Store, CreateMessageInput, Error, duplicate_key, thread_conflicts,
  attendance_attendant_role_required, attendance_side_already_assigned, attendance_thread_closed,
  attendance_thread_not_found, client_message_id_conflict, client_thread_id_conflict,
}
use driveparts_websockets.Attendance.Actions.{Action, World, Result, ok, err}
use driveparts_websockets.Attendance.Threads.{
  insert_thread, stored_or, existing_or_throw, after_insert, insert_new, legacy_or_new,
  canonical_or, create_thread, find_between, ensure_thread,
}
use driveparts_websockets.Attendance.Send.{
  Fresh, execute_atomic, rolled_back, undisturbed, find_message, thread_of,
  return_authorized_existing_message,
}
use driveparts_websockets.Attendance.Create.{
  create_message, send_once, existing_or_new, send_new, send_in, answer, retried,
  existing_or_rethrow,
}
use driveparts_websockets.Attendance.Grows.{
  Grows, Grows-refl, Grows-trans, Grows-append, Onward, pure-Onward, throw-Onward, command-Onward,
  query-Onward, if-Onward, catch-Onward, throw_if-Onward, bind-Onward,
}
use driveparts_websockets.Attendance.Monotone.{
  enabled-Onward, attached-Onward, assert_if-Onward, found-Onward, store_message-Onward,
}

module _ (calls : Calls) (others : ℕ → Store → Store)
    (h : (i : ℕ) (s : Store) → Grows s.threads (others i s).threads) where
  find_message-Onward : (store_id id : String) → Onward (find_message calls others store_id id)
  find_message-Onward store_id id = query-Onward others _ h

  thread_of-Onward :
      (m : Message) (input : CreateMessageInput) (o : Option ℕ)
      → Onward (thread_of calls others m input o)
  thread_of-Onward m input none = pure-Onward none
  thread_of-Onward m input (some id) = query-Onward others _ h

  return_existing-Onward :
      (now : ℕ) (m : Message) (input : CreateMessageInput)
      → Onward (return_authorized_existing_message calls others now m input)
  unfolding return_authorized_existing_message
  return_existing-Onward now m input = bind-Onward _ _ (throw_if-Onward _ _) (λ _.
      bind-Onward _ _ (bind-Onward _ _ (thread_of-Onward m input _) (found-Onward calls others h))
        (λ thread. bind-Onward _ _ (enabled-Onward calls others h _) (λ enabled.
          bind-Onward _ _ (assert_if-Onward calls others h enabled now thread _ _)
            (λ _. attached-Onward calls others h m))))

  module _ (now thread_id : ℕ) where
    insert_thread-Onward : (t : Thread) → Onward (insert_thread calls others now thread_id t)
    insert_thread-Onward t =
        command-Onward others _ h
          (λ s. rw calls.threads.insert_one_lem (stored s (any (thread_conflicts t) s.threads)))
      where
        stored :
            (s : Store) (b : Bool)
            → Grows s.threads
                (stored_or calls others now thread_id s t
                  (if b then none else some (s.threads ++ t ∷ []))).0.threads
        stored s true = Grows-refl s.threads
        stored s false = Grows-append s.threads (t ∷ [])

    existing-Onward :
        (input : CreateMessageInput) (id : String) (o : Option Thread)
        → Onward (existing_or_throw calls others now thread_id input id o)
    existing-Onward input id none = throw-Onward _
    existing-Onward input id (some t) = if-Onward _ _ _ (pure-Onward t) (throw-Onward _)

    after_insert-Onward :
        (input : CreateMessageInput) (id : String) (t : Thread) (b : Bool)
        → Onward (after_insert calls others now thread_id input id t b)
    after_insert-Onward input id t true = pure-Onward t
    after_insert-Onward input id t false =
        bind-Onward _ _ (query-Onward others _ h) (existing-Onward input id)

    insert_new-Onward :
        (input : CreateMessageInput) (id : String)
        → Onward (insert_new calls others now thread_id input id)
    insert_new-Onward input id =
        bind-Onward _ _ (insert_thread-Onward _) (after_insert-Onward input id _)

    legacy-Onward :
        (input : CreateMessageInput) (id : String) (o : Option Thread)
        → Onward (legacy_or_new calls others now thread_id input id o)
    legacy-Onward input id none = insert_new-Onward input id
    legacy-Onward input id (some t) = if-Onward _ _ _ (pure-Onward t) (insert_new-Onward input id)

    canonical-Onward :
        (input : CreateMessageInput) (id : String) (o : Option Thread)
        → Onward (canonical_or calls others now thread_id input id o)
    canonical-Onward input id none =
        bind-Onward _ _ (query-Onward others _ h) (legacy-Onward input id)
    canonical-Onward input id (some t) = if-Onward _ _ _ (pure-Onward t) (throw-Onward _)

    find_between-Onward :
        (input : CreateMessageInput) (o : Option ℕ)
        → Onward (find_between calls others now thread_id input o)
    find_between-Onward input none = throw-Onward _
    find_between-Onward input (some id) =
        bind-Onward _ _ (query-Onward others _ h) (found-Onward calls others h)

    ensure_thread-Onward :
        (input : CreateMessageInput) → Onward (ensure_thread calls others now thread_id input)
    unfolding ensure_thread create_thread
    ensure_thread-Onward input =
        if-Onward _ _ _ (bind-Onward _ _ (query-Onward others _ h) (canonical-Onward input _))
          (find_between-Onward input _)

  rolled_back-Grows :
      {A : Type 0} (w : World) (o : World × Result A)
      → Grows w.store.threads o.0.store.threads
      → Grows w.store.threads (rolled_back w o).0.store.threads
  rolled_back-Grows w (w', ok a) g = g
  rolled_back-Grows w (w', err e) g = Grows-refl w.store.threads

  atomic-Onward :
      {A : Type 0} (enabled : Bool) (operation : (ℕ → Store → Store) → Action A)
      → Onward (operation others)
      → Onward (operation undisturbed)
      → Onward (execute_atomic enabled others operation)
  unfolding execute_atomic
  atomic-Onward false operation g k = record { at = g.at }
  atomic-Onward true operation g k = record {
    at = λ w.
        let start = record w { store = others w.sent w.store } in
        Grows-trans _ _ _ (h w.sent w.store) (rolled_back-Grows start _ (k.at start));
  }

  module _ (transactions_enabled : Bool) where
    rethrow-Onward :
        (fresh : Fresh) (input : CreateMessageInput) (e : Error) (o : Option Message)
        → Onward (existing_or_rethrow calls others transactions_enabled fresh input e o)
    rethrow-Onward fresh input e none = throw-Onward e
    rethrow-Onward fresh input e (some m) =
        bind-Onward _ _ (return_existing-Onward _ m input) (λ m'. pure-Onward _)

    retried-Onward :
        (fresh : Fresh) (input : CreateMessageInput) (o : Option String) (e : Error)
        → Onward (retried calls others transactions_enabled fresh input o e)
    retried-Onward fresh input none e = throw-Onward e
    retried-Onward fresh input (some id) duplicate_key =
        bind-Onward _ _ (find_message-Onward _ id) (rethrow-Onward fresh input duplicate_key)
    retried-Onward fresh input (some id) attendance_attendant_role_required = throw-Onward _
    retried-Onward fresh input (some id) (attendance_side_already_assigned r) = throw-Onward _
    retried-Onward fresh input (some id) attendance_thread_closed = throw-Onward _
    retried-Onward fresh input (some id) attendance_thread_not_found = throw-Onward _
    retried-Onward fresh input (some id) client_message_id_conflict = throw-Onward _
    retried-Onward fresh input (some id) client_thread_id_conflict = throw-Onward _

    answer-Onward :
        (m : Message) (o : Option Message) → Onward (answer calls others transactions_enabled m o)
    answer-Onward m none = attached-Onward calls others h m
    answer-Onward m (some existing) = pure-Onward existing

    send_in-Onward :
        (single : Bool) (fresh : Fresh) (input : CreateMessageInput) (t : Thread)
        → Onward (send_in calls others transactions_enabled single fresh input t)
    send_in-Onward single fresh input t = bind-Onward _ _ (throw_if-Onward _ _) (λ _.
        bind-Onward _ _ (assert_if-Onward calls others h single fresh.now t _ _) (λ _.
          bind-Onward _ _
            (catch-Onward _ _
              (bind-Onward _ _
                (atomic-Onward transactions_enabled _
                  (store_message-Onward calls others h single input fresh _ _ _)
                  (store_message-Onward calls undisturbed (λ i s. Grows-refl s.threads) single input
                    fresh _ _ _))
                (λ _. pure-Onward none))
              (retried-Onward fresh input _))
            (answer-Onward _)))

    send_new-Onward :
        (fresh : Fresh) (input : CreateMessageInput)
        → Onward (send_new calls others transactions_enabled fresh input)
    send_new-Onward fresh input = bind-Onward _ _ (enabled-Onward calls others h _) (λ enabled.
        bind-Onward _ _ (ensure_thread-Onward _ _ input) (send_in-Onward enabled fresh input))

    existing_or_new-Onward :
        (fresh : Fresh) (input : CreateMessageInput) (o : Option Message)
        → Onward (existing_or_new calls others transactions_enabled fresh input o)
    existing_or_new-Onward fresh input none = send_new-Onward fresh input
    existing_or_new-Onward fresh input (some m) = return_existing-Onward _ m input

    send_once-Onward :
        (fresh : Fresh) (input : CreateMessageInput) (o : Option String)
        → Onward (send_once calls others transactions_enabled fresh input o)
    send_once-Onward fresh input none = send_new-Onward fresh input
    send_once-Onward fresh input (some id) =
        bind-Onward _ _ (find_message-Onward _ id) (existing_or_new-Onward fresh input)

    create_message-Onward :
        (fresh : Fresh) (input : CreateMessageInput)
        → Onward (create_message calls others transactions_enabled fresh input)
    unfolding create_message
    create_message-Onward fresh input =
        if-Onward _ _ _ (send_once-Onward fresh input _) (throw-Onward _)

-- Wherever create_message fails, with or without transactions, and whatever other processes that keep
-- to the same order do meanwhile, no stored thread goes back: each is still there with its id, key,
-- channel and stores, its status has not moved from closed or from open to waiting, a responsible user
-- of a side is still that user, and its last message is not an older one.
pub create_message_never_back :
    (calls : Calls) (others : ℕ → Store → Store) (transactions_enabled : Bool) (fresh : Fresh)
    (input : CreateMessageInput) (w : World)
    → ((i : ℕ) (s : Store) → Grows s.threads (others i s).threads)
    → Grows w.store.threads
        (create_message calls others transactions_enabled fresh input w).0.store.threads
create_message_never_back calls others transactions_enabled fresh input w h =
    (create_message-Onward calls others h transactions_enabled fresh input).at w
