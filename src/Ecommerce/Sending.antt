-- ===== src/Ecommerce/Sending.antt =====
-- create_customer_message and create_store_message of
-- src/repositories/ecommerce_chat_repository.ts.
use driveparts_websockets.Prelude.{ℕ, Bool, Option, none, some, List, String, eqb}
use driveparts_websockets.Ecommerce.{
  Calls, website_customer, store_user, Conversation, Message, CreateCustomerMessageInput,
  CreateStoreMessageInput, Store, duplicate_key, ecommerce_conversation_closed,
  ecommerce_conversation_not_found, is_closed, present,
}
use driveparts_websockets.Ecommerce.Actions.{
  Action, Result, ok, err, pure, throw, command, ◌>>=◌, ◌>>◌, throw_if, catch, execute_atomic,
}
use driveparts_websockets.Ecommerce.Latest.{apply_customer_message, apply_store_message}
use driveparts_websockets.Ecommerce.Idempotent.{
  legacy_customer_idempotency_key, legacy_store_idempotency_key, customer_key, store_key,
  validate_customer_idempotent_message, validate_store_idempotent_message, find_sent, recover,
}
use driveparts_websockets.Ecommerce.Conversations.{
  open_with_id, update_one, ensure_customer_conversation, synchronize_customer_contact,
  find_store_conversation,
}

-- The clock and the new ObjectIds of one call, in the order in which the code asks for them.
pub record Fresh : Type 0 where
  pub conversation_now : ℕ
  pub conversation_id : ℕ
  pub contact_now : ℕ
  pub now : ℕ
  pub message_id : ℕ

abbrev pub customer_message : Fresh → CreateCustomerMessageInput → Option String → String → Message
customer_message fresh input idempotency_key conversation_hex = record {
  _id = fresh.message_id;
  conversation_id = conversation_hex;
  store_id = input.identity.store_id;
  visitor_id = input.identity.visitor_id;
  sender_type = website_customer;
  sender_user_id = none;
  sender_name = input.identity.visitor_name;
  sender_user_role = none;
  body = input.body;
  inventory_item_reference = some input.identity.inventory_item_reference;
  client_message_id = present input.client_message_id;
  idempotency_key = idempotency_key;
  created_at = fresh.now;
  read_at = none;
}

abbrev pub store_message :
    Fresh → CreateStoreMessageInput → Option String → String → Conversation → Message
store_message fresh input idempotency_key conversation_hex c = record {
  _id = fresh.message_id;
  conversation_id = conversation_hex;
  store_id = input.store_id;
  visitor_id = c.visitor_id;
  sender_type = store_user;
  sender_user_id = some input.sender_user_id;
  sender_name = input.sender_name;
  sender_user_role = some input.sender_user_role;
  body = input.body;
  inventory_item_reference = none;
  client_message_id = present input.client_message_id;
  idempotency_key = idempotency_key;
  created_at = fresh.now;
  read_at = none;
}

module _ (calls : Calls) where
  abbrev pub inserted_message : Store → Option (List Message) → Store × Result (Unit {0})
  inserted_message s none = (s, err duplicate_key)
  inserted_message s (some messages) = (record s { messages = messages }, ok tt)

  abbrev pub insert_message : (ℕ → Store → Store) → Message → Action (Unit {0})
  insert_message others message =
      command others (λ s. inserted_message s (calls.messages.insert_one message s.messages))

  -- `if (matchedCount === 0) throw`
  abbrev pub matched_or_throw : Message → ℕ → Action Message
  matched_or_throw message matched =
      throw_if (eqb matched 0) ecommerce_conversation_closed >> pure message

  -- The message is stored, and the conversation updated unless it is closed.
  abbrev pub insert_and_update :
      Message → ℕ → (Conversation → Conversation) → (ℕ → Store → Store) → Action Message
  insert_and_update message id f others =
      insert_message others message
      >> (update_one calls others (open_with_id id) f >>= matched_or_throw message)

module _ (calls : Calls) (others : ℕ → Store → Store) (transactions_enabled : Bool) where
  abbrev pub deliver_customer : Fresh → CreateCustomerMessageInput → Conversation → Action Message
  deliver_customer fresh input c =
      let key = customer_key calls input in
      throw_if (is_closed c) ecommerce_conversation_closed
      >> (synchronize_customer_contact calls others c input.identity fresh.contact_now
          >> catch
              (execute_atomic transactions_enabled others (
                insert_and_update calls (customer_message fresh input key (calls.to_hex c._id))
                  c._id (apply_customer_message input fresh.message_id fresh.now)))
              (recover calls others (validate_customer_idempotent_message input) key))

  abbrev pub customer_unless_sent :
      Fresh → CreateCustomerMessageInput → Option Message → Action Message
  customer_unless_sent fresh input (some m) = pure m
  customer_unless_sent fresh input none =
      ensure_customer_conversation calls others input.identity fresh.conversation_now
        fresh.conversation_id
      >>= deliver_customer fresh input

  unfoldable pub create_customer_message : Fresh → CreateCustomerMessageInput → Action Message
  create_customer_message fresh input =
      find_sent calls others (validate_customer_idempotent_message input) (customer_key calls input)
        (legacy_customer_idempotency_key input)
      >>= customer_unless_sent fresh input

  abbrev pub deliver_store :
      Fresh → CreateStoreMessageInput → Conversation → Option Message → Action Message
  deliver_store fresh input c (some m) = pure m
  deliver_store fresh input c none =
      let key = store_key calls input in
      catch
        (execute_atomic transactions_enabled others (
          insert_and_update calls (store_message fresh input key (calls.to_hex c._id) c) c._id
            (apply_store_message input fresh.message_id fresh.now)))
        (recover calls others (validate_store_idempotent_message input) key)

  abbrev pub store_to_found : Fresh → CreateStoreMessageInput → Option Conversation → Action Message
  store_to_found fresh input none = throw ecommerce_conversation_not_found
  store_to_found fresh input (some c) =
      throw_if (is_closed c) ecommerce_conversation_closed
      >> (find_sent calls others (validate_store_idempotent_message input) (store_key calls input)
            (legacy_store_idempotency_key input)
          >>= deliver_store fresh input c)

  unfoldable pub create_store_message : Fresh → CreateStoreMessageInput → Action Message
  create_store_message fresh input =
      find_store_conversation calls others input.store_id input.conversation_id
      >>= store_to_found fresh input
