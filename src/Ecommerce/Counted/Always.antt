-- ===== src/Ecommerce/Counted/Always.antt =====
-- With transactions, every request of src/repositories/ecommerce_chat_repository.ts keeps the unread
-- counts equal to the numbers of unread messages.
use driveparts_websockets.Prelude.{
  ℕ, ◌≡◌, ◌≢◌, refl, ap, Bool, true, Option, none, some, List, [], ◌∷◌, String, arith, any, tally,
  update_all, ltb, Bool-cases, inl, inr,
}
use driveparts_websockets.Mongo.Unique.{any-implies}
use driveparts_websockets.Effects.Keeps.{Keeps, command-Keeps, transaction-Keeps}
use driveparts_websockets.Ecommerce.{
  Calls, SenderType, website_customer, store_user, CreateCustomerMessageInput,
  CreateStoreMessageInput, Conversation, Message, Store, Error, conversation_conflicts,
  message_conflicts,
}
use driveparts_websockets.Ecommerce.Actions.{
  Action, World, command, pure, throw, ◌>>=◌, throw_if, rolled_back, undisturbed,
}
use driveparts_websockets.Ecommerce.Latest.{
  build_latest_message_fields, apply_customer_message, apply_store_message, subtract_unread,
}
use driveparts_websockets.Ecommerce.Conversations.{
  update_one, insert_conversation, open_with_id, set_contact,
}
use driveparts_websockets.Ecommerce.Sending.{insert_and_update}
use driveparts_websockets.Ecommerce.Identity.{
  IdentityUpdates, email, phone, set_identity, CustomerContactInput, contact_update,
  found_or_missing, update_customer_contact,
}
use driveparts_websockets.Ecommerce.Reading.{set_read, unread_from, unread_sender_type, mark_all}
use driveparts_websockets.Ecommerce.Counted.{count_of, same_id, Counted}
use driveparts_websockets.Ecommerce.Counted.Lists.{KeepsCounts, CountsOne, Subtracts}
use driveparts_websockets.Ecommerce.Operations.{Steps}
use driveparts_websockets.Ecommerce.Operations.Whole.{Request, handle, requests_keep}
use driveparts_websockets.Ecommerce.Counted.Updates.{
  Preserves, updated-Counted, inserted-Counted, sent-Counted, read-Counted,
}

abbrev Onward : {A : Type 0} (to_hex : ℕ → String) → Action A → Type 0
Onward to_hex m = Keeps {E = Error} (Preserves to_hex) (λ s h. h) (λ s t u f g h. g (f h)) m

same_id-conflicts : (c d : Conversation) → same_id c d ≡ true → conversation_conflicts c d ≡ true
same_id-conflicts c d h = ground arith

both_sides :
    (P : SenderType → Type 0) → P website_customer → P store_user → (sender : SenderType) → P sender
both_sides P a b website_customer = a
both_sides P a b store_user = b

by_sides :
    (c d : Conversation)
    → d.unread_store_count ≡ c.unread_store_count
    → d.unread_customer_count ≡ c.unread_customer_count
    → (sender : SenderType) → count_of sender d ≡ count_of sender c
by_sides c d a b = both_sides _ a b

contact_update-KeepsCounts :
    (input : CustomerContactInput) (now : ℕ) → KeepsCounts (contact_update input now)
contact_update-KeepsCounts input now c =
    elim input.contact_type
      as (λ t.
        let c' = contact_update (record input { contact_type = t }) now c in
        (c'._id ≡ c._id) × ((sender : SenderType) → count_of sender c' ≡ count_of sender c)) [
          | email ↦ (refl, by_sides c _ refl refl)
          | phone ↦ (refl, by_sides c _ refl refl)
        ]

set_contact-KeepsCounts :
    (mail number : Option String) (now : ℕ) → KeepsCounts (set_contact mail number now)
set_contact-KeepsCounts mail number now c = (refl, by_sides c _ refl refl)

set_identity-KeepsCounts :
    (u : IdentityUpdates) (contact_now now : ℕ) → KeepsCounts (set_identity u contact_now now)
unfolding set_identity
set_identity-KeepsCounts u contact_now now c = (refl, by_sides c _ refl refl)

customer-CountsOne :
    (input : CreateCustomerMessageInput) (id now : ℕ)
    → CountsOne website_customer (apply_customer_message input id now)
unfolding apply_customer_message build_latest_message_fields
customer-CountsOne input id now c = (refl, both_sides _ refl (omega arith))

store-CountsOne :
    (input : CreateStoreMessageInput) (id now : ℕ)
    → CountsOne store_user (apply_store_message input id now)
unfolding apply_store_message build_latest_message_fields
store-CountsOne input id now c = (refl, both_sides _ (omega arith) refl)

-- A reader takes from the count of the other side's messages.
subtract_unread-Subtracts :
    (reader : SenderType) (n : ℕ)
    → Subtracts (unread_sender_type reader) n (subtract_unread reader n)
unfolding subtract_unread
subtract_unread-Subtracts website_customer n c = (refl, both_sides _ (omega arith) refl)
subtract_unread-Subtracts store_user n c = (refl, both_sides _ refl (omega arith))

set_read-ne :
    (hex : String) (sender : SenderType) (at : ℕ) (m : Message)
    → unread_from hex sender m ≡ true
    → set_read at m ≢ m
set_read-ne hex sender at m h e = ground (arith, ap (λ (d : Message). d.read_at) e)

update_all_none :
    {A : Type 0} (p : A → Bool) (f : A → A) (xs : List A) → tally p xs ≡ 0 → update_all p f xs ≡ xs
update_all_none p f [] h = refl
update_all_none p f (x ∷ xs) h = ground (arith, update_all_none p f xs)

module _ (calls : Calls) (injective : (a b : ℕ) → calls.to_hex a ≡ calls.to_hex b → a ≡ b)
    (others : ℕ → Store → Store)
    (h : (i : ℕ) (s : Store) → Preserves calls.to_hex s (others i s)) where
  update-Counted :
      (p : Conversation → Bool) (f : Conversation → Conversation)
      → KeepsCounts f
      → Onward calls.to_hex (update_one calls others p f)
  update-Counted p f k =
      command-Keeps (Preserves calls.to_hex) (λ s a. a) (λ s t u f g a. g (f a)) others _ h
        λ s. rw calls.conversations.update_one_docs (updated-Counted calls.to_hex s p f k)

  insert-Counted :
      (c : Conversation)
      → c.unread_store_count ≡ 0
      → c.unread_customer_count ≡ 0
      → Onward calls.to_hex (insert_conversation calls others c)
  insert-Counted c z z' =
      command-Keeps (Preserves calls.to_hex) (λ s a. a) (λ s t u f g a. g (f a)) others _ h
        λ s.
          rw calls.conversations.insert_one_lem
            (elim (Bool-cases (any (conversation_conflicts c) s.conversations)) [
              | inl taken ↦ rw taken (λ a. a)
              | inr free ↦ rw free (
                  inserted-Counted calls.to_hex injective s c z z' (
                    any-implies (same_id c) (conversation_conflicts c) s.conversations
                      (same_id-conflicts c) free))
            ])

  contact_value-Counted :
      (input : CustomerContactInput) (now : ℕ)
      → Onward calls.to_hex (update_customer_contact calls others input now)
  unfolding update_customer_contact
  contact_value-Counted input now =
      command-Keeps (Preserves calls.to_hex) (λ s a. a) (λ s t u f g a. g (f a)) others _ h
        λ s. rw calls.conversations.find_one_and_update_lem (
          found s _ _ (
            updated-Counted calls.to_hex s _ (contact_update input now)
              (contact_update-KeepsCounts input now)))
    where
      found :
          (s : Store) (cs : List Conversation) (o : Option Conversation)
          → Preserves calls.to_hex s (record s { conversations = cs })
          → Preserves calls.to_hex s (found_or_missing calls others s (cs, o)).0
      found s cs none g = g
      found s cs (some c) g = g

  -- The two commands of a message, in a transaction.
  sent-Counted_all :
      (m : Message) (id : ℕ) (sent : SenderType) (f : Conversation → Conversation)
      → CountsOne sent f
      → m.conversation_id ≡ calls.to_hex id
      → m.sender_type ≡ sent
      → m.read_at ≡ none
      → (w : World)
      → Preserves calls.to_hex w.store
          (rolled_back w (insert_and_update calls m id f undisturbed w)).0.store
  unfolding ◌>>=◌ command throw_if throw pure
  sent-Counted_all m id sent f one e st r w =
      rw calls.messages.insert_one_lem
        (elim (Bool-cases (any (message_conflicts m) w.store.messages)) [
          | inl taken ↦ rw taken (λ a. a)
          | inr free ↦ rw free (
              rw (calls.conversations.update_one_docs, calls.conversations.update_one_matched)
                (elim (Bool-cases (any (open_with_id id) w.store.conversations)) [
                  | inr gone ↦ rw gone (λ a. a)
                  | inl there ↦
                      rw there
                        (sent-Counted calls.to_hex injective w.store id sent f m one e st r there)
                ]))
        ])

  -- The two commands of a reading, in a transaction.
  read-Counted_all :
      (at : ℕ) (c : Conversation) (reader : SenderType) (w : World)
      → Preserves calls.to_hex w.store
          (rolled_back w (mark_all calls others true at c reader undisturbed w)).0.store
  unfolding ◌>>=◌ command pure
  read-Counted_all at c reader w =
      let sent = unread_sender_type reader in
      let p = unread_from (calls.to_hex c._id) sent in
      let n = tally p w.store.messages in
      rw
        (
          calls.messages.update_many_docs,
          calls.messages.update_many_modified p (set_read at) w.store.messages
              (set_read-ne (calls.to_hex c._id) sent at),
        )
        (elim (Bool-cases (ltb 0 n)) [
          | inl some_read ↦
              rw (some_read, calls.conversations.update_one_docs)
                (read-Counted calls.to_hex injective w.store c._id sent at
                  (subtract_unread reader n) (subtract_unread-Subtracts reader n))
          | inr none_read ↦
              rw (none_read, update_all_none p (set_read at) w.store.messages (ground arith))
                (λ a. a)
        ])

alone-Preserves : (to_hex : ℕ → String) (i : ℕ) (s : Store) → Preserves to_hex s (undisturbed i s)
alone-Preserves to_hex i s h = h

steps-Counted :
    (calls : Calls) (injective : (a b : ℕ) → calls.to_hex a ≡ calls.to_hex b → a ≡ b)
    (others : ℕ → Store → Store)
    → ((i : ℕ) (s : Store) → Preserves calls.to_hex s (others i s))
    → Steps (Preserves calls.to_hex) (λ s a. a) (λ s t u f g a. g (f a)) calls others true
steps-Counted calls injective others h = record {
  others_keep = h;
  inserted = insert-Counted calls injective others h;
  contact = λ p mail number now.
      update-Counted calls injective others h p (set_contact mail number now)
        (set_contact-KeepsCounts mail number now);
  identity = λ p u contact_now now.
      update-Counted calls injective others h p (set_identity u contact_now now)
        (set_identity-KeepsCounts u contact_now now);
  contact_value = contact_value-Counted calls injective others h;
  customer_sent = λ fresh input key c.
      transaction-Keeps (Preserves calls.to_hex) (λ s a. a) (λ s t u f g a. g (f a)) others _ h
        (sent-Counted_all calls injective others h _ c._id website_customer _
          (customer-CountsOne input fresh.message_id fresh.now) refl refl refl);
  store_sent = λ fresh input key c.
      transaction-Keeps (Preserves calls.to_hex) (λ s a. a) (λ s t u f g a. g (f a)) others _ h
        (sent-Counted_all calls injective others h _ c._id store_user _
          (store-CountsOne input fresh.message_id fresh.now) refl refl refl);
  marked = λ at c reader.
      transaction-Keeps (Preserves calls.to_hex) (λ s a. a) (λ s t u f g a. g (f a)) others _ h
        (read-Counted_all calls injective others h at c reader);
}

-- With transactions enabled, a request leaves each conversation with the numbers of its unread messages
-- as its two counts, if it finds them so: whatever the request returns or throws, and whatever other
-- processes that do the same do between its commands and transactions. Different ids have different
-- texts.
pub requests_count_unread :
    (calls : Calls) (others : ℕ → Store → Store) (r : Request) (w : World)
    → ((a b : ℕ) → calls.to_hex a ≡ calls.to_hex b → a ≡ b)
    → ((i : ℕ) (s : Store) → Preserves calls.to_hex s (others i s))
    → Counted calls.to_hex w.store
    → Counted calls.to_hex (handle calls others true r w).0.store
requests_count_unread calls others r w injective h =
    requests_keep (Preserves calls.to_hex) (λ s a. a) (λ s t u f g a. g (f a)) calls others true
      (steps-Counted calls injective others h) r w
