-- ===== src/Ecommerce/Operations.antt =====
-- What each command of the repository keeps, every operation keeps: the operations of
-- src/repositories/ecommerce_chat_repository.ts are put together from their commands.
pub mod Whole
use driveparts_websockets.Prelude.{ℕ, ◌≡◌, refl, Bool, true, false, Option, none, some, String, eqb}
use driveparts_websockets.Effects.Keeps.{
  Keeps, pure-Keeps, throw-Keeps, query-Keeps, if-Keeps, catch-Keeps, bind-Keeps, throw_if-Keeps,
}
use driveparts_websockets.Ecommerce.{
  Calls, SenderType, website_customer, store_user, CustomerIdentity, CreateCustomerMessageInput,
  CreateStoreMessageInput, Conversation, Message, Store, Error, duplicate_key,
  ecommerce_conversation_closed, ecommerce_conversation_not_found, client_message_id_conflict,
}
use driveparts_websockets.Ecommerce.Actions.{Action, pure, throw, ◌>>=◌, execute_atomic}
use driveparts_websockets.Ecommerce.Latest.{apply_customer_message, apply_store_message}
use driveparts_websockets.Ecommerce.Idempotent.{
  validate_customer_idempotent_message, validate_store_idempotent_message, same_body, find_by_key,
  canonical_or_throw, legacy_or_none, legacy, canonical, find_sent, existing_or_throw, raced,
  recover,
}
use driveparts_websockets.Ecommerce.Conversations.{
  set_contact, find_conversation, update_one, insert_conversation, after_insert,
  concurrent_or_throw, existing_or_new, ensure_customer_conversation, synchronize_customer_contact,
  found_with_id, find_store_conversation,
}
use driveparts_websockets.Ecommerce.Identity.{
  IdentityUpdates, set_identity, CustomerContactInput, synchronize_found,
  synchronize_customer_identity, update_customer_contact,
}
use driveparts_websockets.Ecommerce.Sending.{
  Fresh, customer_message, store_message, insert_and_update, deliver_customer, customer_unless_sent,
  create_customer_message, deliver_store, store_to_found, create_store_message,
}
use driveparts_websockets.Ecommerce.Reading.{
  mark_all, mark_read, mark_customer_read, mark_store_read,
}

module _ (R : Store → Store → Type 0) (R-refl : (s : Store) → R s s)
    (R-trans : (s t u : Store) → R s t → R t u → R s u) (calls : Calls) (others : ℕ → Store → Store)
    (transactions_enabled : Bool) where
  abbrev pub Keeping : {A : Type 0} → Action A → Type 0
  Keeping m = Keeps {E = Error} R R-refl R-trans m

  -- The commands that write, and the pairs of commands that are sent as one transaction.
  pub record Steps : Type 0 where
    pub others_keep : (i : ℕ) (s : Store) → R s (others i s)
    pub inserted :
        (c : Conversation)
        → c.unread_store_count ≡ 0
        → c.unread_customer_count ≡ 0
        → Keeping (insert_conversation calls others c)
    pub contact :
        (p : Conversation → Bool) (mail number : Option String) (now : ℕ)
        → Keeping (update_one calls others p (set_contact mail number now))
    pub identity :
        (p : Conversation → Bool) (u : IdentityUpdates) (contact_now now : ℕ)
        → Keeping (update_one calls others p (set_identity u contact_now now))
    pub contact_value :
        (input : CustomerContactInput) (now : ℕ)
        → Keeping (update_customer_contact calls others input now)
    pub customer_sent :
        (fresh : Fresh) (input : CreateCustomerMessageInput) (key : Option String)
        (c : Conversation)
        → Keeping (
            execute_atomic transactions_enabled others (
              insert_and_update calls
                (customer_message fresh input key (calls.to_hex c._id))
                c._id
                (apply_customer_message input fresh.message_id fresh.now)))
    pub store_sent :
        (fresh : Fresh) (input : CreateStoreMessageInput) (key : Option String) (c : Conversation)
        → Keeping (
            execute_atomic transactions_enabled others (
              insert_and_update calls
                (store_message fresh input key (calls.to_hex c._id) c)
                c._id
                (apply_store_message input fresh.message_id fresh.now)))
    pub marked :
        (read_at : ℕ) (c : Conversation) (reader : SenderType)
        → Keeping (
            execute_atomic transactions_enabled others
              (mark_all calls others transactions_enabled read_at c reader))

  module _ (steps : Steps) where
    abbrev ends : {A : Type 0} (a : A) → Keeping (pure a)
    ends a = pure-Keeps R R-refl R-trans a

    abbrev throws : {A : Type 0} (e : Error) → Keeping (throw {A = A} e)
    throws e = throw-Keeps R R-refl R-trans e

    abbrev after :
        {A B : Type 0} {m : Action A} {f : A → Action B}
        → Keeping m
        → ((a : A) → Keeping (f a))
        → Keeping (m >>= f)
    after {m = m} {f = f} h k = bind-Keeps R R-refl R-trans m f h k

    find-Keeps : (p : Conversation → Bool) → Keeping (find_conversation calls others p)
    find-Keeps p = query-Keeps R R-refl R-trans others _ steps.others_keep

    same_body-Keeps : (b : Bool) → Keeping (same_body b)
    same_body-Keeps true = ends true
    same_body-Keeps false = throws client_message_id_conflict

    validate_customer-Keeps :
        (input : CreateCustomerMessageInput) (m : Message)
        → Keeping (validate_customer_idempotent_message input m)
    unfolding validate_customer_idempotent_message
    validate_customer-Keeps input m =
        if-Keeps R R-refl R-trans _ _ _ (same_body-Keeps _) (ends false)

    validate_store-Keeps :
        (input : CreateStoreMessageInput) (m : Message)
        → Keeping (validate_store_idempotent_message input m)
    unfolding validate_store_idempotent_message
    validate_store-Keeps input m = if-Keeps R R-refl R-trans _ _ _ (same_body-Keeps _) (ends false)

    concurrent-Keeps : (o : Option Conversation) → Keeping (concurrent_or_throw calls others o)
    concurrent-Keeps none = throws duplicate_key
    concurrent-Keeps (some c) = ends c

    after_insert-Keeps :
        (input : CustomerIdentity) (c : Conversation) (b : Bool)
        → Keeping (after_insert calls others input c b)
    after_insert-Keeps input c true = ends c
    after_insert-Keeps input c false = after (find-Keeps _) concurrent-Keeps

    existing_or_new-Keeps :
        (input : CustomerIdentity) (now _id : ℕ) (o : Option Conversation)
        → Keeping (existing_or_new calls others input now _id o)
    existing_or_new-Keeps input now _id (some c) = ends c
    existing_or_new-Keeps input now _id none =
        after (steps.inserted _ refl refl) (after_insert-Keeps input _)

    ensure-Keeps :
        (input : CustomerIdentity) (now _id : ℕ)
        → Keeping (ensure_customer_conversation calls others input now _id)
    unfolding ensure_customer_conversation
    ensure-Keeps input now _id = after (find-Keeps _) (existing_or_new-Keeps input now _id)

    synchronize_contact-Keeps :
        (c : Conversation) (identity : CustomerIdentity) (now : ℕ)
        → Keeping (synchronize_customer_contact calls others c identity now)
    unfolding synchronize_customer_contact
    synchronize_contact-Keeps c identity now =
        if-Keeps R R-refl R-trans _ _ _ (after (steps.contact _ _ _ now) (λ _. ends tt)) (ends tt)

    found_with_id-Keeps :
        (store_id : String) (o : Option ℕ) → Keeping (found_with_id calls others store_id o)
    found_with_id-Keeps store_id none = ends none
    found_with_id-Keeps store_id (some id) = find-Keeps _

    find_store-Keeps :
        (store_id conversation_id : String)
        → Keeping (find_store_conversation calls others store_id conversation_id)
    unfolding find_store_conversation
    find_store-Keeps store_id conversation_id = found_with_id-Keeps store_id _

    module _ (validate : Message → Action Bool)
        (validate-Keeps : (m : Message) → Keeping (validate m)) where
      key-Keeps : (key : String) → Keeping (find_by_key calls others validate key)
      key-Keeps key = query-Keeps R R-refl R-trans others _ steps.others_keep

      canonical_or_throw-Keeps :
          (m : Message) (b : Bool) → Keeping (canonical_or_throw calls others validate m b)
      canonical_or_throw-Keeps m true = ends (some m)
      canonical_or_throw-Keeps m false = throws client_message_id_conflict

      legacy_or_none-Keeps :
          (m : Message) (b : Bool) → Keeping (legacy_or_none calls others validate m b)
      legacy_or_none-Keeps m true = ends (some m)
      legacy_or_none-Keeps m false = ends none

      legacy-Keeps : (o : Option Message) → Keeping (legacy calls others validate o)
      legacy-Keeps none = ends none
      legacy-Keeps (some m) = after (validate-Keeps m) (legacy_or_none-Keeps m)

      canonical-Keeps :
          (legacy_key : String) (o : Option Message)
          → Keeping (canonical calls others validate legacy_key o)
      canonical-Keeps legacy_key (some m) = after (validate-Keeps m) (canonical_or_throw-Keeps m)
      canonical-Keeps legacy_key none = after (key-Keeps legacy_key) legacy-Keeps

      find_sent-Keeps :
          (key : Option String) (legacy_key : String)
          → Keeping (find_sent calls others validate key legacy_key)
      unfolding find_sent
      find_sent-Keeps none legacy_key = ends none
      find_sent-Keeps (some key) legacy_key = after (key-Keeps key) (canonical-Keeps legacy_key)

      existing_or_throw-Keeps :
          (m : Message) (b : Bool) → Keeping (existing_or_throw calls others validate m b)
      existing_or_throw-Keeps m true = ends m
      existing_or_throw-Keeps m false = throws duplicate_key

      raced-Keeps : (o : Option Message) → Keeping (raced calls others validate o)
      raced-Keeps none = throws duplicate_key
      raced-Keeps (some m) = after (validate-Keeps m) (existing_or_throw-Keeps m)

      recover-Keeps :
          (key : Option String) (e : Error) → Keeping (recover calls others validate key e)
      unfolding recover
      recover-Keeps none duplicate_key = throws duplicate_key
      recover-Keeps (some key) duplicate_key = after (key-Keeps key) raced-Keeps
      recover-Keeps none ecommerce_conversation_closed = throws ecommerce_conversation_closed
      recover-Keeps none ecommerce_conversation_not_found = throws ecommerce_conversation_not_found
      recover-Keeps none client_message_id_conflict = throws client_message_id_conflict
      recover-Keeps (some key) ecommerce_conversation_closed = throws ecommerce_conversation_closed
      recover-Keeps (some key) ecommerce_conversation_not_found =
          throws ecommerce_conversation_not_found
      recover-Keeps (some key) client_message_id_conflict = throws client_message_id_conflict
