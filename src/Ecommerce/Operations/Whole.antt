-- ===== src/Ecommerce/Operations/Whole.antt =====
-- The six operations that write, of src/repositories/ecommerce_chat_repository.ts.
use driveparts_websockets.Prelude.{ℕ, Bool, Option, none, some, String}
use driveparts_websockets.Effects.Keeps.{
  pure-Keeps, throw-Keeps, if-Keeps, catch-Keeps, bind-Keeps, throw_if-Keeps,
}
use driveparts_websockets.Ecommerce.{
  Calls, SenderType, website_customer, store_user, CustomerIdentity, CreateCustomerMessageInput,
  CreateStoreMessageInput, Conversation, Message, Store, Error, ecommerce_conversation_closed,
  ecommerce_conversation_not_found,
}
use driveparts_websockets.Ecommerce.Actions.{Action, World, pure, throw, ◌>>=◌, ◌>>◌}
use driveparts_websockets.Ecommerce.Idempotent.{
  validate_customer_idempotent_message, validate_store_idempotent_message,
}
use driveparts_websockets.Ecommerce.Identity.{
  CustomerContactInput, synchronize_found, synchronize_customer_identity, update_customer_contact,
}
use driveparts_websockets.Ecommerce.Sending.{
  Fresh, deliver_customer, customer_unless_sent, create_customer_message, deliver_store,
  store_to_found, create_store_message,
}
use driveparts_websockets.Ecommerce.Reading.{mark_read, mark_customer_read, mark_store_read}
use driveparts_websockets.Ecommerce.Operations.{
  Steps, Keeping, find-Keeps, validate_customer-Keeps, validate_store-Keeps, ensure-Keeps,
  synchronize_contact-Keeps, find_store-Keeps, find_sent-Keeps, recover-Keeps,
}

-- The requests that write: the clock and the ids of the call, and its input.
pub data Request : Type 0 where
  send_customer : Fresh → CreateCustomerMessageInput → Request
  send_store : Fresh → CreateStoreMessageInput → Request
  read_customer read_store : ℕ → String → String → Request
  sync_identity : CustomerIdentity → ℕ → ℕ → Request
  set_contact_value : CustomerContactInput → ℕ → Request

abbrev pub handle : Calls → (ℕ → Store → Store) → Bool → Request → Action (Unit {0})
handle calls others tx (send_customer fresh input) =
    create_customer_message calls others tx fresh input >> pure tt
handle calls others tx (send_store fresh input) =
    create_store_message calls others tx fresh input >> pure tt
handle calls others tx (read_customer at store_id visitor_id) =
    mark_customer_read calls others tx at store_id visitor_id >> pure tt
handle calls others tx (read_store at store_id conversation_id) =
    mark_store_read calls others tx at store_id conversation_id >> pure tt
handle calls others tx (sync_identity identity contact_now now) =
    synchronize_customer_identity calls others identity contact_now now >> pure tt
handle calls others tx (set_contact_value input now) =
    update_customer_contact calls others input now >> pure tt

module _ (R : Store → Store → Type 0) (R-refl : (s : Store) → R s s)
    (R-trans : (s t u : Store) → R s t → R t u → R s u) (calls : Calls) (others : ℕ → Store → Store)
    (tx : Bool) (steps : Steps R R-refl R-trans calls others tx) where
  abbrev Here : {A : Type 0} → Action A → Type 0
  Here m = Keeping R R-refl R-trans calls others tx m

  abbrev ends : {A : Type 0} (a : A) → Here (pure a)
  ends a = pure-Keeps R R-refl R-trans a

  abbrev throws : {A : Type 0} (e : Error) → Here (throw {A = A} e)
  throws e = throw-Keeps R R-refl R-trans e

  abbrev after :
      {A B : Type 0} {m : Action A} {f : A → Action B}
      → Here m
      → ((a : A) → Here (f a))
      → Here (m >>= f)
  after {m = m} {f = f} h k = bind-Keeps R R-refl R-trans m f h k

  deliver_customer-Keeps :
      (fresh : Fresh) (input : CreateCustomerMessageInput) (c : Conversation)
      → Here (deliver_customer calls others tx fresh input c)
  deliver_customer-Keeps fresh input c =
      after (throw_if-Keeps R R-refl R-trans _ ecommerce_conversation_closed) λ _.
        after
          (synchronize_contact-Keeps R R-refl R-trans calls others tx steps c input.identity
            fresh.contact_now)
          λ _. catch-Keeps R R-refl R-trans _ _ (steps.customer_sent fresh input _ c) (
            recover-Keeps R R-refl R-trans calls others tx steps
              (validate_customer_idempotent_message input)
              (validate_customer-Keeps R R-refl R-trans calls others tx steps input) _)

  customer_unless_sent-Keeps :
      (fresh : Fresh) (input : CreateCustomerMessageInput) (o : Option Message)
      → Here (customer_unless_sent calls others tx fresh input o)
  customer_unless_sent-Keeps fresh input (some m) = ends m
  customer_unless_sent-Keeps fresh input none =
      after (ensure-Keeps R R-refl R-trans calls others tx steps input.identity _ _)
        (deliver_customer-Keeps fresh input)

  create_customer_message-Keeps :
      (fresh : Fresh) (input : CreateCustomerMessageInput)
      → Here (create_customer_message calls others tx fresh input)
  unfolding create_customer_message
  create_customer_message-Keeps fresh input =
      after
        (find_sent-Keeps R R-refl R-trans calls others tx steps
          (validate_customer_idempotent_message input)
          (validate_customer-Keeps R R-refl R-trans calls others tx steps input) _ _)
        (customer_unless_sent-Keeps fresh input)

  deliver_store-Keeps :
      (fresh : Fresh) (input : CreateStoreMessageInput) (c : Conversation) (o : Option Message)
      → Here (deliver_store calls others tx fresh input c o)
  deliver_store-Keeps fresh input c (some m) = ends m
  deliver_store-Keeps fresh input c none =
      catch-Keeps R R-refl R-trans _ _ (steps.store_sent fresh input _ c) (
        recover-Keeps R R-refl R-trans calls others tx steps
          (validate_store_idempotent_message input)
          (validate_store-Keeps R R-refl R-trans calls others tx steps input) _)

  store_to_found-Keeps :
      (fresh : Fresh) (input : CreateStoreMessageInput) (o : Option Conversation)
      → Here (store_to_found calls others tx fresh input o)
  store_to_found-Keeps fresh input none = throws ecommerce_conversation_not_found
  store_to_found-Keeps fresh input (some c) =
      after (throw_if-Keeps R R-refl R-trans _ ecommerce_conversation_closed) λ _.
        after
          (find_sent-Keeps R R-refl R-trans calls others tx steps
            (validate_store_idempotent_message input)
            (validate_store-Keeps R R-refl R-trans calls others tx steps input) _ _)
          (deliver_store-Keeps fresh input c)

  create_store_message-Keeps :
      (fresh : Fresh) (input : CreateStoreMessageInput)
      → Here (create_store_message calls others tx fresh input)
  unfolding create_store_message
  create_store_message-Keeps fresh input =
      after (find_store-Keeps R R-refl R-trans calls others tx steps _ _)
        (store_to_found-Keeps fresh input)

  mark_read-Keeps :
      (read_at : ℕ) (reader : SenderType) (o : Option Conversation)
      → Here (mark_read calls others tx read_at reader o)
  unfolding mark_read
  mark_read-Keeps read_at reader none = ends _
  mark_read-Keeps read_at reader (some c) = after (steps.marked read_at c reader) λ n. ends _

  synchronize_found-Keeps :
      (identity : CustomerIdentity) (contact_now now : ℕ) (o : Option Conversation)
      → Here (synchronize_found calls others identity contact_now now o)
  synchronize_found-Keeps identity contact_now now none = ends _
  synchronize_found-Keeps identity contact_now now (some c) =
      if-Keeps R R-refl R-trans _ _ _
        (after (steps.identity _ _ contact_now now)
          λ _. after (find-Keeps R R-refl R-trans calls others tx steps _) λ o. ends _)
        (ends _)

  request-Keeps : (r : Request) → Here (handle calls others tx r)
  unfolding mark_customer_read mark_store_read synchronize_customer_identity
  request-Keeps (send_customer fresh input) =
      after (create_customer_message-Keeps fresh input) λ _. ends tt
  request-Keeps (send_store fresh input) =
      after (create_store_message-Keeps fresh input) λ _. ends tt
  request-Keeps (read_customer at store_id visitor_id) =
      after
        (after (find-Keeps R R-refl R-trans calls others tx steps _)
          (mark_read-Keeps at website_customer))
        λ _. ends tt
  request-Keeps (read_store at store_id conversation_id) =
      after
        (after (find_store-Keeps R R-refl R-trans calls others tx steps store_id conversation_id)
          (mark_read-Keeps at store_user))
        λ _. ends tt
  request-Keeps (sync_identity identity contact_now now) =
      after
        (after (find-Keeps R R-refl R-trans calls others tx steps _)
          (synchronize_found-Keeps identity contact_now now))
        λ _. ends tt
  request-Keeps (set_contact_value input now) = after (steps.contact_value input now) λ _. ends tt

-- What every command keeps, every request keeps.
pub requests_keep :
    (R : Store → Store → Type 0) (R-refl : (s : Store) → R s s)
    (R-trans : (s t u : Store) → R s t → R t u → R s u) (calls : Calls) (others : ℕ → Store → Store)
    (tx : Bool)
    → Steps R R-refl R-trans calls others tx
    → (r : Request) (w : World) → R w.store (handle calls others tx r w).0.store
requests_keep R R-refl R-trans calls others tx steps r w =
    (request-Keeps R R-refl R-trans calls others tx steps r).at w
