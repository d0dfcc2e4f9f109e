-- ===== src/Ecommerce/Latest.antt =====
-- What a message and a reading change in the conversation: the pipeline updates of
-- src/repositories/ecommerce_chat_repository.ts.
use driveparts_websockets.Prelude.{
  ℕ, ◌+◌, ◌-◌, Bool, true, Option, none, some, String, ltb, if◌then◌else◌, slice_to,
}
use driveparts_websockets.Ecommerce.{
  SenderType, website_customer, store_user, opened, Conversation, CreateCustomerMessageInput,
  CreateStoreMessageInput,
}

pub record LatestMessage : Type 0 where
  pub message_id : ℕ
  pub message_preview : String
  pub sender_type : SenderType
  pub created_at : ℕ

abbrev pub is_newest_message : Option ℕ → ℕ → Bool
is_newest_message none id = true
is_newest_message (some last) id = ltb last id

unfoldable pub build_latest_message_fields : LatestMessage → Conversation → Conversation
build_latest_message_fields m c =
    let newest = is_newest_message c.last_message_id m.message_id in
    record c {
      last_message_id = if newest then some m.message_id else c.last_message_id;
      last_message_preview = if newest then some m.message_preview else c.last_message_preview;
      last_message_sender_type = if newest then some m.sender_type else c.last_message_sender_type;
      last_message_at = if newest then some m.created_at else c.last_message_at;
      updated_at = if ltb c.updated_at m.created_at then m.created_at else c.updated_at;
    }

-- The `$set` of create_customer_message.
unfoldable pub apply_customer_message :
    CreateCustomerMessageInput → ℕ → ℕ → Conversation → Conversation
unfolding build_latest_message_fields
apply_customer_message input message_id now c =
    record (build_latest_message_fields
      (record {
        message_id = message_id;
        message_preview = slice_to 160 input.body;
        sender_type = website_customer;
        created_at = now;
      })
      c) {
        store_name = input.identity.store_name;
        inventory_item_reference = input.identity.inventory_item_reference;
        unread_store_count = c.unread_store_count + 1;
      }

-- `$ifNull`
abbrev pub if_null {ℓ} : {A : Type ℓ} → Option A → A → Option A
if_null none a = some a
if_null (some b) a = some b

-- The `$set` of create_store_message.
unfoldable pub apply_store_message : CreateStoreMessageInput → ℕ → ℕ → Conversation → Conversation
unfolding build_latest_message_fields
apply_store_message input message_id now c =
    record (build_latest_message_fields
      (record {
        message_id = message_id;
        message_preview = slice_to 160 input.body;
        sender_type = store_user;
        created_at = now;
      })
      c) {
        status = opened;
        responsible_user_id = if_null c.responsible_user_id input.sender_user_id;
        responsible_user_name = if_null c.responsible_user_name input.sender_name;
        responsible_user_role = if_null c.responsible_user_role input.sender_user_role;
        unread_customer_count = c.unread_customer_count + 1;
      }

-- The `$set` of mark_read: the count of the reader's side, less the messages now read, and not below 0.
unfoldable pub subtract_unread : SenderType → ℕ → Conversation → Conversation
subtract_unread website_customer n c = record c {
  unread_customer_count = c.unread_customer_count - n;
}
subtract_unread store_user n c = record c { unread_store_count = c.unread_store_count - n }
