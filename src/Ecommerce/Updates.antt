-- ===== src/Ecommerce/Updates.antt =====
-- Each update of a conversation, in src/repositories/ecommerce_chat_repository.ts, only moves it on.
use driveparts_websockets.Prelude.{
  ℕ, ◌≤◌, ◌≡◌, refl, false, Option, none, some, String, arith, if◌then◌else◌,
}
use driveparts_websockets.Prelude.Growth.{Stays, Stays-refl, option_rank}
use driveparts_websockets.Ecommerce.{
  SenderType, website_customer, store_user, CreateCustomerMessageInput, CreateStoreMessageInput,
  Conversation, is_closed,
}
use driveparts_websockets.Ecommerce.Latest.{
  build_latest_message_fields, apply_customer_message, apply_store_message, subtract_unread,
  is_newest_message, if_null,
}
use driveparts_websockets.Ecommerce.Conversations.{set_contact}
use driveparts_websockets.Ecommerce.Identity.{
  IdentityUpdates, set_identity, CustomerContactInput, email, phone, contact_update,
}
use driveparts_websockets.Ecommerce.Grows.{rank, Later}

-- The latest message is never an older one.
pub newest-le :
    (last : Option ℕ) (id : ℕ)
    → option_rank last ≤ option_rank (if is_newest_message last id then some id else last)
newest-le none id = omega arith
newest-le (some last) id = ground arith

pub apply_customer_message-Later :
    (input : CreateCustomerMessageInput) (id now : ℕ) (c : Conversation)
    → Later c (apply_customer_message input id now c)
unfolding apply_customer_message build_latest_message_fields
apply_customer_message-Later input id now c = record {
  _id = refl;
  conversation_key = refl;
  store_id = refl;
  visitor_id = refl;
  status = omega arith;
  responsible_user_id = Stays-refl _;
  last_message_id = newest-le c.last_message_id id;
}

pub not_closed-rank : (c : Conversation) → is_closed c ≡ false → rank c.status ≤ 1
not_closed-rank c h = ground arith

pub if_null-Stays : (o : Option String) (s : String) → Stays o (if_null o s)
if_null-Stays none s = tt
if_null-Stays (some a) s = refl

pub apply_store_message-Later :
    (input : CreateStoreMessageInput) (id now : ℕ) (c : Conversation)
    → is_closed c ≡ false
    → Later c (apply_store_message input id now c)
unfolding apply_store_message build_latest_message_fields
apply_store_message-Later input id now c h = record {
  _id = refl;
  conversation_key = refl;
  store_id = refl;
  visitor_id = refl;
  status = not_closed-rank c h;
  responsible_user_id = if_null-Stays _ _;
  last_message_id = newest-le c.last_message_id id;
}

-- An update of other fields than those.
abbrev pub Aside : (Conversation → Conversation) → Type 0
Aside f =
    (c : Conversation)
    → (((f c)._id ≡ c._id)
        × ((f c).conversation_key ≡ c.conversation_key)
        × ((f c).store_id ≡ c.store_id)
        × ((f c).visitor_id ≡ c.visitor_id))
      × ((f c).status ≡ c.status)
      × ((f c).responsible_user_id ≡ c.responsible_user_id)
      × ((f c).last_message_id ≡ c.last_message_id)

pub Aside-Later : (f : Conversation → Conversation) → Aside f → (c : Conversation) → Later c (f c)
Aside-Later f h c =
    let ((a, b, d, e), g, i, j) = h c in
    record {
      _id = a;
      conversation_key = b;
      store_id = d;
      visitor_id = e;
      status = rw g (omega arith);
      responsible_user_id = rw i (Stays-refl c.responsible_user_id);
      last_message_id = rw j (omega arith);
    }

pub set_contact-Aside :
    (mail number : Option String) (now : ℕ) → Aside (set_contact mail number now)
set_contact-Aside mail number now c = ((refl, refl, refl, refl), refl, refl, refl)

pub subtract_unread-Aside : (reader : SenderType) (n : ℕ) → Aside (subtract_unread reader n)
unfolding subtract_unread
subtract_unread-Aside website_customer n c = ((refl, refl, refl, refl), refl, refl, refl)
subtract_unread-Aside store_user n c = ((refl, refl, refl, refl), refl, refl, refl)

pub set_identity-Aside :
    (u : IdentityUpdates) (contact_now now : ℕ) → Aside (set_identity u contact_now now)
unfolding set_identity
set_identity-Aside u contact_now now c = ((refl, refl, refl, refl), refl, refl, refl)

pub contact_update-Aside :
    (input : CustomerContactInput) (now : ℕ) → Aside (contact_update input now)
contact_update-Aside input now c =
    elim input.contact_type
        as (λ t. Aside (contact_update (record input { contact_type = t }) now)) [
          | email ↦ λ d. ((refl, refl, refl, refl), refl, refl, refl)
          | phone ↦ λ d. ((refl, refl, refl, refl), refl, refl, refl)
        ]
      c
