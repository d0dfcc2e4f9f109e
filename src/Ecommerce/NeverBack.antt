-- ===== src/Ecommerce/NeverBack.antt =====
-- Every request of src/repositories/ecommerce_chat_repository.ts only moves the stored conversations
-- and messages on, whatever other processes do.
use driveparts_websockets.Prelude.{
  ℕ, ◌≡◌, refl, Bool, true, false, not, Option, none, some, List, String, any, is_some, inl, inr,
  Bool-cases, arith, and-right,
}
use driveparts_websockets.Prelude.Growth.{
  Stays, Extends-refl, Extends-append, Extends-update_first, Extends-update_all,
}
use driveparts_websockets.Effects.Keeps.{
  Keeps, pure-Keeps, command-Keeps, if-Keeps, bind-Keeps, throw_if-Keeps, execute_atomic-Keeps,
}
use driveparts_websockets.Ecommerce.{
  Calls, SenderType, Conversation, Message, Store, Error, ecommerce_conversation_closed, is_closed,
  conversation_conflicts, message_conflicts,
}
use driveparts_websockets.Ecommerce.Actions.{Action, World, command, undisturbed}
use driveparts_websockets.Ecommerce.Latest.{subtract_unread}
use driveparts_websockets.Ecommerce.Conversations.{
  update_one, insert_conversation, open_with_id, set_contact,
}
use driveparts_websockets.Ecommerce.Sending.{insert_message, insert_and_update}
use driveparts_websockets.Ecommerce.Identity.{
  set_identity, CustomerContactInput, contact_update, found_or_missing, update_customer_contact,
}
use driveparts_websockets.Ecommerce.Reading.{
  set_read, unread_from, unread_sender_type, marking, mark_all,
}
use driveparts_websockets.Ecommerce.Grows.{
  Later, Later-refl, Kept, Kept-refl, ConversationsGrow, MessagesGrow, Grows, Grows-refl,
  Grows-trans,
}
use driveparts_websockets.Ecommerce.Updates.{
  apply_customer_message-Later, apply_store_message-Later, Aside-Later, set_contact-Aside,
  subtract_unread-Aside, set_identity-Aside, contact_update-Aside,
}
use driveparts_websockets.Ecommerce.Operations.{Steps}
use driveparts_websockets.Ecommerce.Operations.Whole.{Request, handle, requests_keep}

abbrev Onward : {A : Type 0} → Action A → Type 0
Onward m = Keeps {E = Error} Grows Grows-refl Grows-trans m

abbrev OthersGrow : (ℕ → Store → Store) → Type 0
OthersGrow others = (i : ℕ) (s : Store) → Grows s (others i s)

conversations-Grows :
    (s : Store) (cs : List Conversation)
    → ConversationsGrow s.conversations cs
    → Grows s (record s { conversations = cs })
conversations-Grows s cs h = record {
  conversations = h;
  messages = Extends-refl Kept Kept-refl s.messages;
}

messages-Grows :
    (s : Store) (ms : List Message)
    → MessagesGrow s.messages ms
    → Grows s (record s { messages = ms })
messages-Grows s ms h = record {
  conversations = Extends-refl Later Later-refl s.conversations;
  messages = h;
}

unset-Stays : (o : Option ℕ) (at : ℕ) → not (is_some o) ≡ true → Stays o (some at)
unset-Stays none at h = tt
unset-Stays (some a) at h = absurd (ground arith)

set_read-Kept :
    (hex : String) (sender : SenderType) (at : ℕ) (m : Message)
    → unread_from hex sender m ≡ true
    → Kept m (set_read at m)
set_read-Kept hex sender at m h = record {
  content = refl;
  read_at = unset-Stays m.read_at at (and-right _ _ (and-right _ _ h));
}

module _ (calls : Calls) (others : ℕ → Store → Store) (h : OthersGrow others) where
  update-Onward :
      (p : Conversation → Bool) (f : Conversation → Conversation)
      → ((c : Conversation) → p c ≡ true → Later c (f c))
      → Onward (update_one calls others p f)
  update-Onward p f k = command-Keeps Grows Grows-refl Grows-trans others _ h λ s.
      conversations-Grows s _ (
        rw calls.conversations.update_one_docs
          (Extends-update_first Later Later-refl p f s.conversations k))

  insert_conversation-Onward : (c : Conversation) → Onward (insert_conversation calls others c)
  insert_conversation-Onward c = command-Keeps Grows Grows-refl Grows-trans others _ h λ s.
      rw calls.conversations.insert_one_lem
        (elim (Bool-cases (any (conversation_conflicts c) s.conversations)) [
          | inl taken ↦ rw taken (Grows-refl s)
          | inr free ↦
              rw free (conversations-Grows s _ (Extends-append Later Later-refl s.conversations _))
        ])

  insert_message-Onward : (m : Message) → Onward (insert_message calls others m)
  insert_message-Onward m = command-Keeps Grows Grows-refl Grows-trans others _ h λ s.
      rw calls.messages.insert_one_lem (elim (Bool-cases (any (message_conflicts m) s.messages)) [
        | inl taken ↦ rw taken (Grows-refl s)
        | inr free ↦ rw free (messages-Grows s _ (Extends-append Kept Kept-refl s.messages _))
      ])

  contact_value-Onward :
      (input : CustomerContactInput) (now : ℕ)
      → Onward (update_customer_contact calls others input now)
  unfolding update_customer_contact
  contact_value-Onward input now = command-Keeps Grows Grows-refl Grows-trans others _ h λ s.
      rw calls.conversations.find_one_and_update_lem (
        found s _ _ (
          Extends-update_first Later Later-refl _ _ s.conversations
            (λ c _. Aside-Later (contact_update input now) (contact_update-Aside input now) c)))
    where
      found :
          (s : Store) (cs : List Conversation) (o : Option Conversation)
          → ConversationsGrow s.conversations cs
          → Grows s (found_or_missing calls others s (cs, o)).0
      found s cs none g = conversations-Grows s cs g
      found s cs (some c) g = conversations-Grows s cs g

  sent-Onward :
      (m : Message) (id : ℕ) (f : Conversation → Conversation)
      → ((c : Conversation) → open_with_id id c ≡ true → Later c (f c))
      → Onward (insert_and_update calls m id f others)
  sent-Onward m id f k = bind-Keeps Grows Grows-refl Grows-trans _ _ (insert_message-Onward m) λ _.
      bind-Keeps Grows Grows-refl Grows-trans _ _ (update-Onward (open_with_id id) f k) λ n.
        bind-Keeps Grows Grows-refl Grows-trans _ _
          (throw_if-Keeps Grows Grows-refl Grows-trans _ ecommerce_conversation_closed)
          (λ _. pure-Keeps Grows Grows-refl Grows-trans m)

  module _ (before : ℕ → Store → Store) (tx : Bool) where
    marking-Onward :
        (hex : String) (sender : SenderType) (at : ℕ)
        → Onward (command others (marking calls before tx hex sender at))
    marking-Onward hex sender at = command-Keeps Grows Grows-refl Grows-trans others _ h λ s.
        messages-Grows s _ (
          rw calls.messages.update_many_docs
            (Extends-update_all Kept Kept-refl _ _ s.messages (set_read-Kept hex sender at)))

    mark_all-Onward :
        (at : ℕ) (c : Conversation) (reader : SenderType)
        → Onward (mark_all calls before tx at c reader others)
    mark_all-Onward at c reader =
        bind-Keeps Grows Grows-refl Grows-trans _ _
          (marking-Onward (calls.to_hex c._id) (unread_sender_type reader) at)
          λ n.
            if-Keeps Grows Grows-refl Grows-trans _ _ _
              (bind-Keeps Grows Grows-refl Grows-trans _ _
                (update-Onward _ _ (λ d _.
                  Aside-Later (subtract_unread reader n) (subtract_unread-Aside reader n) d))
                (λ _. pure-Keeps Grows Grows-refl Grows-trans n))
              (pure-Keeps Grows Grows-refl Grows-trans n)

not_closed_of : (id : ℕ) (c : Conversation) → open_with_id id c ≡ true → is_closed c ≡ false
not_closed_of id c h = ground arith

alone-Grows : OthersGrow undisturbed
alone-Grows i s = Grows-refl s

steps-Grow :
    (calls : Calls) (others : ℕ → Store → Store) (tx : Bool)
    → OthersGrow others
    → Steps Grows Grows-refl Grows-trans calls others tx
steps-Grow calls others tx h = record {
  others_keep = h;
  inserted = λ c _ _. insert_conversation-Onward calls others h c;
  contact = λ p mail number now.
      update-Onward calls others h p (set_contact mail number now)
        (λ c _. Aside-Later (set_contact mail number now) (set_contact-Aside mail number now) c);
  identity = λ p u contact_now now.
      update-Onward calls others h p (set_identity u contact_now now) (λ c _.
        Aside-Later (set_identity u contact_now now) (set_identity-Aside u contact_now now) c);
  contact_value = contact_value-Onward calls others h;
  customer_sent = λ fresh input key c.
      execute_atomic-Keeps Grows Grows-refl Grows-trans tx others _ h
        (sent-Onward calls others h _ _ _ (λ d _. apply_customer_message-Later input _ _ d))
        (sent-Onward calls undisturbed alone-Grows _ _ _
          (λ d _. apply_customer_message-Later input _ _ d));
  store_sent = λ fresh input key c.
      execute_atomic-Keeps Grows Grows-refl Grows-trans tx others _ h
        (sent-Onward calls others h _ c._id _
          (λ d k. apply_store_message-Later input _ _ d (not_closed_of c._id d k)))
        (sent-Onward calls undisturbed alone-Grows _ c._id _
          (λ d k. apply_store_message-Later input _ _ d (not_closed_of c._id d k)));
  marked = λ at c reader.
      execute_atomic-Keeps Grows Grows-refl Grows-trans tx others _ h
        (mark_all-Onward calls others h others tx at c reader)
        (mark_all-Onward calls undisturbed alone-Grows others tx at c reader);
}

-- Whatever a request returns or throws, with transactions or without, and whatever other processes
-- that keep to the same order do between its commands: every conversation is still there with its id,
-- key, store and visitor; it has not come back from closed, nor from open to waiting; a responsible
-- user is still that user; its last message is not an older one; and every message is still there
-- with its content, and read if it was read, at the same time.
pub requests_never_back :
    (calls : Calls) (others : ℕ → Store → Store) (tx : Bool) (r : Request) (w : World)
    → ((i : ℕ) (s : Store) → Grows s (others i s))
    → Grows w.store (handle calls others tx r w).0.store
requests_never_back calls others tx r w h =
    requests_keep Grows Grows-refl Grows-trans calls others tx (steps-Grow calls others tx h) r w
