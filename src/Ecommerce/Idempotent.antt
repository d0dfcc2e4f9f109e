-- ===== src/Ecommerce/Idempotent.antt =====
-- A message that the client sends again under its own id is found instead of sent: the keys and the
-- checks of create_customer_message and create_store_message in
-- src/repositories/ecommerce_chat_repository.ts.
use Prim.Native.String
use mathlib.Core.Option
use driveparts_websockets.Prelude.{
  ℕ, Bool, true, false, ◌&&◌, Option, none, some, [], ◌∷◌, String, ◌==◌, if◌then◌else◌, opt_eq,
}
use driveparts_websockets.CompoundKey.{build_compound_key}
use driveparts_websockets.Ecommerce.{
  Calls, website_customer, store_user, same_sender, Message, Store, CreateCustomerMessageInput,
  CreateStoreMessageInput, Error, client_message_id_conflict, duplicate_key, present,
}
use driveparts_websockets.Ecommerce.Actions.{Action, pure, throw, query, ◌>>=◌}

-- `parts.join(':')` of the parts before and the id
abbrev text_of : Option String → String
text_of none = ""
text_of (some s) = s

abbrev joined : String → String → String → Option String → String
joined kind a b c = String.◌++◌ kind (
    String.◌++◌ ":" (String.◌++◌ a (String.◌++◌ ":" (String.◌++◌ b (String.◌++◌ ":" (text_of c))))))

abbrev pub legacy_customer_idempotency_key : CreateCustomerMessageInput → String
legacy_customer_idempotency_key input =
    joined "website_customer" input.identity.store_id input.identity.visitor_id
      input.client_message_id

abbrev pub legacy_store_idempotency_key : CreateStoreMessageInput → String
legacy_store_idempotency_key input =
    joined "store_user" input.store_id input.sender_user_id input.client_message_id

abbrev pub same_customer_identity : Message → CreateCustomerMessageInput → Bool
same_customer_identity message input =
    same_sender message.sender_type website_customer
    && (message.store_id == input.identity.store_id
        && (message.visitor_id == input.identity.visitor_id
            && opt_eq message.client_message_id input.client_message_id))

abbrev pub same_store_identity : Message → CreateStoreMessageInput → Bool
same_store_identity message input =
    same_sender message.sender_type store_user
    && (message.store_id == input.store_id
        && (opt_eq message.sender_user_id (some input.sender_user_id)
            && (message.conversation_id == input.conversation_id
                && opt_eq message.client_message_id input.client_message_id)))

abbrev pub same_body : Bool → Action Bool
same_body true = pure true
same_body false = throw client_message_id_conflict

unfoldable pub validate_customer_idempotent_message :
    CreateCustomerMessageInput → Message → Action Bool
validate_customer_idempotent_message input message =
    if same_customer_identity message input
    then same_body (message.body == input.body)
    else pure false

unfoldable pub validate_store_idempotent_message : CreateStoreMessageInput → Message → Action Bool
validate_store_idempotent_message input message =
    if same_store_identity message input then same_body (message.body == input.body) else pure false

module _ (calls : Calls) where
  abbrev pub customer_key : CreateCustomerMessageInput → Option String
  customer_key input =
      Option.map
        (λ id.
          build_compound_key calls.bytes calls.sha256 "ecommerce_customer_message"
            (input.identity.store_id ∷ input.identity.visitor_id ∷ id ∷ []))
        (present input.client_message_id)

  abbrev pub store_key : CreateStoreMessageInput → Option String
  store_key input =
      Option.map
        (λ id.
          build_compound_key calls.bytes calls.sha256 "ecommerce_store_message"
            (input.store_id ∷ input.sender_user_id ∷ input.conversation_id ∷ id ∷ []))
        (present input.client_message_id)

module _ (calls : Calls) (others : ℕ → Store → Store) (validate : Message → Action Bool) where
  abbrev pub has_idempotency_key : String → Message → Bool
  has_idempotency_key key m = opt_eq m.idempotency_key (some key)

  abbrev pub find_by_key : String → Action (Option Message)
  find_by_key key = query others (λ s. calls.messages.find_one (has_idempotency_key key) s.messages)

  abbrev pub canonical_or_throw : Message → Bool → Action (Option Message)
  canonical_or_throw m true = pure (some m)
  canonical_or_throw m false = throw client_message_id_conflict

  abbrev pub legacy_or_none : Message → Bool → Action (Option Message)
  legacy_or_none m true = pure (some m)
  legacy_or_none m false = pure none

  abbrev pub legacy : Option Message → Action (Option Message)
  legacy none = pure none
  legacy (some m) = validate m >>= legacy_or_none m

  abbrev pub canonical : String → Option Message → Action (Option Message)
  canonical legacy_key (some m) = validate m >>= canonical_or_throw m
  canonical legacy_key none = find_by_key legacy_key >>= legacy

  -- The message that was sent before under the client's id.
  unfoldable pub find_sent : Option String → String → Action (Option Message)
  find_sent none legacy_key = pure none
  find_sent (some key) legacy_key = find_by_key key >>= canonical legacy_key

  abbrev pub existing_or_throw : Message → Bool → Action Message
  existing_or_throw m true = pure m
  existing_or_throw m false = throw duplicate_key

  abbrev pub raced : Option Message → Action Message
  raced none = throw duplicate_key
  raced (some m) = validate m >>= existing_or_throw m

  -- The handler of the insertion's errors.
  unfoldable pub recover : Option String → Error → Action Message
  recover (some key) duplicate_key = find_by_key key >>= raced
  recover _ e = throw e
