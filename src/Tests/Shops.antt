-- ===== src/Tests/Shops.antt =====
-- Conversations of a shop at concrete inputs: a visitor's two messages, and the store's reading.
use driveparts_websockets.Prelude.{
  true, false, none, some, [], ◌∷◌, ◌++◌, ◌≡◌, refl, ◌==◌, if◌then◌else◌,
}
use driveparts_websockets.Mongo.{listed, sorted, ordered}
use driveparts_websockets.Ecommerce.{
  Calls, InventoryItemReference, desktop, CustomerIdentity, CreateCustomerMessageInput, Message,
  CreateStoreMessageInput, Conversation, seller, client_message_id_conflict, conversation_conflicts,
  message_conflicts, latest_first,
}
use driveparts_websockets.Ecommerce.Actions.{World, undisturbed, ok, err}
use driveparts_websockets.Ecommerce.Sending.{Fresh, store_message, create_store_message}
use driveparts_websockets.Ecommerce.Idempotent.{store_key}
use driveparts_websockets.Ecommerce.Conversations.{new_conversation}
use driveparts_websockets.Ecommerce.Again.{store_message_sent_again}
use driveparts_websockets.Ecommerce.Operations.Whole.{handle, send_customer, read_store}
use driveparts_websockets.Ecommerce.Grows.{Grows, Grows-refl}
use driveparts_websockets.Ecommerce.NeverBack.{requests_never_back}
use driveparts_websockets.Ecommerce.Counted.{Counted}
use driveparts_websockets.Ecommerce.Counted.Always.{requests_count_unread}
use driveparts_websockets.Tests.Ids.{tallied, tallied_injective}

abbrev calls : Calls
calls = record {
  conversations = listed conversation_conflicts;
  messages = listed message_conflicts;
  sorted_messages = sorted (λ (m : Message). m._id);
  ordered_conversations = ordered latest_first;
  object_id_of = λ s. some 1;
  to_hex = tallied;
  bytes = λ s. [];
  sha256 = λ bytes. "h";
}

abbrev item : InventoryItemReference
item = record {
  inventory_item_id = "item1";
  inventory_item_name = "Farol";
  inventory_item_url = "/farol";
  inventory_item_checkout_url = "/farol/comprar";
  inventory_item_thumbnail_url = none;
}

abbrev visitor : CustomerIdentity
visitor = record {
  visitor_id = "v1";
  visitor_name = "Visitante";
  customer_email = none;
  customer_phone = some "1199";
  store_id = "s1";
  store_name = "Loja";
  inventory_item_reference = item;
  lead_metadata = record {
    device_type = desktop;
    landing_page_url = "/";
    ip_address = none;
    user_agent = none;
    referrer_url = none;
    utm_source = none;
    utm_medium = none;
    utm_campaign = none;
    utm_content = none;
    utm_term = none;
  };
}

abbrev asking : CreateCustomerMessageInput
asking = record { identity = visitor; body = "Tem estoque?"; client_message_id = some "c1" }

abbrev fresh : Fresh
fresh = record {
  conversation_now = 10;
  conversation_id = 1;
  contact_now = 11;
  now = 12;
  message_id = 5;
}

abbrev empty : World
empty = record { store = record { conversations = []; messages = [] }; sent = 0 }

-- One request, and the reading of its message by the store.
abbrev asked : World
asked = (handle calls undisturbed true (send_customer fresh asking) empty).0

requests_never_back_example :
    Grows asked.store (handle calls undisturbed true (read_store 20 "s1" "1") asked).0.store
requests_never_back_example =
    requests_never_back calls undisturbed true (read_store 20 "s1" "1") asked (λ i s. Grows-refl s)

requests_count_unread_example :
    Counted tallied (handle calls undisturbed true (send_customer fresh asking) empty).0.store
requests_count_unread_example =
    requests_count_unread calls undisturbed (send_customer fresh asking) empty tallied_injective
      (λ i s h. h) (record { counts = tt; owners = tt; ids = tt })

-- The driver writes the ids in lower case and reads either case.
abbrev lower : Calls
lower = record calls { to_hex = λ n. "a1" }

abbrev replying : CreateStoreMessageInput
replying = record {
  conversation_id = "A1";
  store_id = "s1";
  sender_user_id = "u1";
  sender_name = "Ana";
  sender_user_role = seller;
  body = "Sim";
  client_message_id = some "c2";
}

abbrev waiting_one : Conversation
waiting_one = new_conversation visitor "k" 10 1

abbrev one_waiting : World
one_waiting = record {
  store = record { conversations = waiting_one ∷ []; messages = [] };
  sent = 0;
}

store_message_sent_again_example :
    let once = create_store_message lower undisturbed false fresh replying one_waiting in
    let twice = create_store_message lower undisturbed false fresh replying once.0 in
    let message = store_message fresh replying (store_key lower replying) "a1" waiting_one in
    (once.1 ≡ ok message)
    × (once.0.store.messages ≡ [] ++ message ∷ [])
    × (twice.0.store ≡ once.0.store)
    × (twice.1 ≡ (if "a1" == "A1" then ok message else err client_message_id_conflict))
store_message_sent_again_example =
    store_message_sent_again lower false replying "c2" waiting_one fresh fresh one_waiting refl refl
      refl refl refl refl refl refl
