-- ===== src/Ecommerce/Again.antt =====
-- A store's message that is sent again under the same client_message_id: create_store_message of
-- src/repositories/ecommerce_chat_repository.ts, run alone.
use mathlib.Core.Path.{subst}
use driveparts_websockets.Prelude.{
  is_some, ℕ, ◌+◌, ◌≡◌, refl, ap, Bool, true, false, ◌&&◌, inl, inr, Option, none, some, List, [],
  ◌∷◌, ◌++◌, String, arith, any, first, update_first, ◌==◌, eq_iff, eq_refl, eqb, opt_eq,
  Bool-cases, if◌then◌else◌,
}
use driveparts_websockets.Mongo.Unique.{first-append, first_missing, first-updated, any_of_first}
use driveparts_websockets.CompoundKey.{build_compound_key}
use driveparts_websockets.Ecommerce.{
  Calls, Conversation, Message, CreateStoreMessageInput, Store, client_message_id_conflict,
  is_closed, present, same_some, message_conflicts,
}
use driveparts_websockets.Ecommerce.Actions.{
  Action, World, ok, err, pure, throw, command, query, ◌>>=◌, throw_if, catch, execute_atomic,
  undisturbed,
}
use driveparts_websockets.Ecommerce.Latest.{apply_store_message, build_latest_message_fields}
use driveparts_websockets.Ecommerce.Idempotent.{
  legacy_store_idempotency_key, store_key, validate_store_idempotent_message, find_sent,
}
use driveparts_websockets.Ecommerce.Conversations.{open_with_id, find_store_conversation}
use driveparts_websockets.Ecommerce.Sending.{
  Fresh, store_message, insert_and_update, create_store_message,
}

any_key_conflicts :
    (key : String) (m : Message) (ms : List Message)
    → m.idempotency_key ≡ some key
    → any (λ d. eqb d._id m._id) ms ≡ false
    → any (λ d. opt_eq d.idempotency_key (some key)) ms ≡ false
    → any (message_conflicts m) ms ≡ false
any_key_conflicts key m [] k h i = refl
any_key_conflicts key m (d ∷ ms) k h i =
    let rest = any_key_conflicts key m ms k in
    let apart : same_some m.idempotency_key d.idempotency_key
        ≡ opt_eq d.idempotency_key (some key) =
      rw k (same_some_key key d.idempotency_key) in
    ground (arith, apart, rest)
  where
    same_some_key :
        (key : String) (o : Option String) → same_some (some key) o ≡ opt_eq o (some key)
    same_some_key key none = refl
    same_some_key key (some b) = ground (arith, eq_iff key b, eq_iff b key)

-- The key of the message is the one, and there is one.
abbrev has_key : Option String → Message → Bool
has_key k m = is_some k && opt_eq m.idempotency_key k

module _ (calls : Calls) (transactions_enabled : Bool) (input : CreateStoreMessageInput)
    (id : String) where
  abbrev key : String
  key =
      build_compound_key calls.bytes calls.sha256 "ecommerce_store_message"
        (input.store_id ∷ input.sender_user_id ∷ input.conversation_id ∷ id ∷ [])

  abbrev with_key : String → Message → Bool
  with_key k m = opt_eq m.idempotency_key (some k)

  abbrev of_id : ℕ → Conversation → Bool
  of_id n d = eqb d._id n && d.store_id == input.store_id

  abbrev new_message : Fresh → Conversation → Message
  new_message fresh c = store_message fresh input (some key) (calls.to_hex c._id) c

  abbrev updated : Fresh → Conversation → Conversation
  updated fresh = apply_store_message input fresh.message_id fresh.now

  abbrev delivered : Fresh → Conversation → World → World
  delivered fresh c w = record {
    store = record {
      conversations = update_first (open_with_id c._id) (updated fresh) w.store.conversations;
      messages = w.store.messages ++ new_message fresh c ∷ [];
    };
    sent = w.sent + 1 + 1 + 1 + 1 + 1;
  }

  module _ (known : input.client_message_id ≡ some id) (given : (id == "") ≡ false) where
    known_present : present input.client_message_id ≡ some id
    known_present =
        rw known
          (ap {A = Bool} {B = Option String} (λ b. elim b [ true ↦ none | false ↦ some id ]) given)

    store_key-known : store_key calls input ≡ some key
    store_key-known = rw known_present refl

    conversation_found :
        (c : Conversation) (w : World)
        → calls.object_id_of input.conversation_id ≡ some c._id
        → first (of_id c._id) w.store.conversations ≡ some c
        → find_store_conversation calls undisturbed input.store_id input.conversation_id w
          ≡ (record w { sent = w.sent + 1 }, ok (some c))
    unfolding find_store_conversation query command
    conversation_found c w o f =
        rw (o, calls.conversations.find_one_lem (of_id c._id) w.store.conversations, f) refl

    none_sent :
        (w : World)
        → any (with_key key) w.store.messages ≡ false
        → any (with_key (legacy_store_idempotency_key input)) w.store.messages ≡ false
        → find_sent calls undisturbed
            (validate_store_idempotent_message input)
            (some key)
            (legacy_store_idempotency_key input)
            w
          ≡ (record w { sent = w.sent + 1 + 1 }, ok none)
    unfolding find_sent query command ◌>>=◌ pure
    none_sent w h k =
        rw
          (
            calls.messages.find_one_lem (with_key key) w.store.messages,
            first_missing (with_key key) w.store.messages h,
            calls.messages.find_one_lem (with_key (legacy_store_idempotency_key input))
                w.store.messages,
            first_missing (with_key (legacy_store_idempotency_key input)) w.store.messages k,
          )
          refl

    -- Run alone, an operation that returns leaves what it leaves without a transaction.
    atomic-ok :
        (operation : (ℕ → Store → Store) → Action Message) (w w' : World) (m : Message)
        → operation undisturbed w ≡ (w', ok m)
        → execute_atomic transactions_enabled undisturbed operation w ≡ (w', ok m)
    unfolding execute_atomic
    atomic-ok operation w w' m h = elim (Bool-cases transactions_enabled) [
      | inl on ↦ rw (on, h) refl
      | inr off ↦ rw (off, h) refl
    ]

    module _ (c : Conversation) (fresh : Fresh) (w : World)
        (o : calls.object_id_of input.conversation_id ≡ some c._id)
        (f : first (of_id c._id) w.store.conversations ≡ some c) (active : is_closed c ≡ false)
        (new_key : any (with_key key) w.store.messages ≡ false)
        (new_legacy : any (with_key (legacy_store_idempotency_key input)) w.store.messages ≡ false)
        (new_id : any (λ m. eqb m._id fresh.message_id) w.store.messages ≡ false) where
      open_c : any (open_with_id c._id) w.store.conversations ≡ true
      open_c =
          any_of_first (open_with_id c._id) (of_id c._id) w.store.conversations c f (ground arith)

      inserted :
          (v : World)
          → v.store ≡ w.store
          → insert_and_update calls (new_message fresh c) c._id (updated fresh) undisturbed v
            ≡ (record (delivered fresh c w) { sent = v.sent + 1 + 1 }, ok (new_message fresh c))
      unfolding command ◌>>=◌ throw_if pure
      inserted v e =
          rw
            (
              e,
              calls.messages.insert_one_lem (new_message fresh c) w.store.messages,
              any_key_conflicts key (new_message fresh c) w.store.messages refl new_id new_key,
              calls.conversations.update_one_docs (open_with_id c._id) (updated fresh)
                  w.store.conversations,
              calls.conversations.update_one_matched (open_with_id c._id) (updated fresh)
                  w.store.conversations,
              open_c,
            )
            refl

      created :
          create_store_message calls undisturbed transactions_enabled fresh input w
          ≡ (delivered fresh c w, ok (new_message fresh c))
      unfolding create_store_message ◌>>=◌ throw_if pure catch
      created =
          rw
            (
              conversation_found c w o f,
              active,
              store_key-known,
              none_sent (record w { sent = w.sent + 1 }) new_key new_legacy,
              store_key-known,
              atomic-ok (insert_and_update calls (new_message fresh c) c._id (updated fresh))
                  (record w { sent = w.sent + 1 + 1 + 1 }) _ _
                  (inserted (record w { sent = w.sent + 1 + 1 + 1 }) refl),
            )
            refl

      -- The conversation after the first call, as a query by id finds it.
      still_found :
          (d : Conversation) × (first (of_id c._id) (delivered fresh c w).store.conversations
            ≡ some d)
          × (d._id ≡ c._id)
          × (is_closed d ≡ false)
      unfolding apply_store_message build_latest_message_fields
      still_found =
          elim (first-updated (of_id c._id) (open_with_id c._id) (updated fresh)
            w.store.conversations c (λ d. refl) f) [
              | inl same ↦ (c, same, refl, active)
              | inr new ↦ (updated fresh c, new, refl, refl)
            ]

      -- The lookup under the key finds the message, and compares it with the request.
      found_again :
          (v : World)
          → v.store.messages ≡ (delivered fresh c w).store.messages
          → find_sent calls undisturbed
              (validate_store_idempotent_message input)
              (some key)
              (legacy_store_idempotency_key input)
              v
            ≡ (
              record v { sent = v.sent + 1 },
              if calls.to_hex c._id == input.conversation_id
                  then ok (some (new_message fresh c))
                  else err client_message_id_conflict,
            )
      unfolding find_sent query command ◌>>=◌ pure throw validate_store_idempotent_message
      found_again v e = elim (Bool-cases (calls.to_hex c._id == input.conversation_id)) [
        | inl same ↦
            rw
              (
                e,
                calls.messages.find_one_lem (with_key key)
                    (w.store.messages ++ new_message fresh c ∷ []),
                first-append (with_key key) w.store.messages (new_message fresh c) new_key
                    (eq_refl key),
                known_present,
                known,
                same,
                eq_refl input.store_id,
                eq_refl input.sender_user_id,
                eq_refl id,
                eq_refl input.body,
              )
              refl
        | inr differ ↦
            rw
              (
                e,
                calls.messages.find_one_lem (with_key key)
                    (w.store.messages ++ new_message fresh c ∷ []),
                first-append (with_key key) w.store.messages (new_message fresh c) new_key
                    (eq_refl key),
                differ,
                eq_refl input.store_id,
                eq_refl input.sender_user_id,
              )
              refl
      ]

      repeated :
          (later : Fresh)
          → let again =
              create_store_message calls undisturbed transactions_enabled later input
                (delivered fresh c w) in
            (again.0.store ≡ (delivered fresh c w).store)
            × (again.1 ≡ (
                if calls.to_hex c._id == input.conversation_id
                then ok (new_message fresh c)
                else err client_message_id_conflict))
      unfolding create_store_message ◌>>=◌ throw_if pure
      repeated later =
          let (d, found, same_id, still_open) = still_found in
          let at_d : first (of_id d._id) (delivered fresh c w).store.conversations ≡ some d =
            rw same_id found in
          let o' : calls.object_id_of input.conversation_id ≡ some d._id = rw same_id o in
          rw
            (
              conversation_found d (delivered fresh c w) o' at_d,
              still_open,
              store_key-known,
              found_again (record (delivered fresh c w) { sent = (delivered fresh c w).sent + 1 })
                  refl,
            )
            (elim (Bool-cases (calls.to_hex c._id == input.conversation_id)) [
              | inl same ↦ rw same (refl, refl)
              | inr differ ↦ rw differ (refl, refl)
            ])

-- A store's message with a client_message_id, to one of its conversations that is not closed, is
-- stored if no message has its key, its legacy key or its new id. Sent again it changes nothing, when no
-- other process acts: it is answered with the
-- stored message if the request writes the conversation's id as the driver writes it, in lower case,
-- and is refused as a conflict of the client_message_id if it writes the id in another way.
pub store_message_sent_again :
    (calls : Calls) (transactions_enabled : Bool) (input : CreateStoreMessageInput) (id : String)
    (c : Conversation) (fresh later : Fresh) (w : World)
    → input.client_message_id ≡ some id
    → (id == "") ≡ false
    → calls.object_id_of input.conversation_id ≡ some c._id
    → first (λ d. eqb d._id c._id && d.store_id == input.store_id) w.store.conversations ≡ some c
    → is_closed c ≡ false
    → any (has_key (store_key calls input)) w.store.messages ≡ false
    → any (has_key (some (legacy_store_idempotency_key input))) w.store.messages ≡ false
    → any (λ m. eqb m._id fresh.message_id) w.store.messages ≡ false
    → let once = create_store_message calls undisturbed transactions_enabled fresh input w in
      let twice = create_store_message calls undisturbed transactions_enabled later input once.0 in
      let message = store_message fresh input (store_key calls input) (calls.to_hex c._id) c in
      (once.1 ≡ ok message)
      × (once.0.store.messages ≡ w.store.messages ++ message ∷ [])
      × (twice.0.store ≡ once.0.store)
      × (twice.1 ≡ (
          if calls.to_hex c._id == input.conversation_id
          then ok message
          else err client_message_id_conflict))
store_message_sent_again calls transactions_enabled input id c fresh later w known given o f active
      k l i =
    let as_key = store_key-known calls transactions_enabled input id known given in
    let new_key : any
          (with_key calls transactions_enabled input id (key calls transactions_enabled input id))
          w.store.messages
        ≡ false =
      subst (λ o. any (has_key o) w.store.messages ≡ false) as_key k in
    let once =
      created calls transactions_enabled input id known given c fresh w o f active new_key l i in
    let (same, answer) =
      repeated calls transactions_enabled input id known given c fresh w o f active new_key l i
        later in
    rw (as_key, once) (refl, refl, same, answer)
