-- ===== src/Ecommerce/Conversations.antt =====
-- The conversation of a visitor, found or created, and the visitor's contact in it:
-- src/repositories/ecommerce_chat_repository.ts.
use driveparts_websockets.Prelude.{
  ℕ, Bool, true, false, not, ◌&&◌, ◌||◌, Option, none, some, List, [], ◌∷◌, String, ◌==◌, eqb,
  if◌then◌else◌, opt_eq, is_some,
}
use driveparts_websockets.CompoundKey.{build_compound_key}
use driveparts_websockets.Ecommerce.{
  Calls, waiting, Conversation, CustomerIdentity, Store, duplicate_key, is_of, is_closed, present,
}
use driveparts_websockets.Ecommerce.Actions.{
  Action, Result, ok, pure, throw, query, command, ◌>>=◌, ◌>>◌,
}

abbrev pub new_conversation : CustomerIdentity → String → ℕ → ℕ → Conversation
new_conversation input conversation_key now _id = record {
  _id = _id;
  conversation_key = conversation_key;
  store_id = input.store_id;
  store_name = input.store_name;
  visitor_id = input.visitor_id;
  visitor_name = input.visitor_name;
  customer_email = present input.customer_email;
  customer_phone = present input.customer_phone;
  customer_contact_updated_at =
      if is_some (present input.customer_email) || is_some (present input.customer_phone)
      then some now
      else none;
  status = waiting;
  inventory_item_reference = input.inventory_item_reference;
  lead_metadata = input.lead_metadata;
  responsible_user_id = none;
  responsible_user_name = none;
  responsible_user_role = none;
  created_at = now;
  updated_at = now;
  last_message_id = none;
  last_message_preview = none;
  last_message_sender_type = none;
  last_message_at = none;
  unread_store_count = 0;
  unread_customer_count = 0;
}

-- `value && value !== current ? value : undefined`
abbrev pub changed_text : Option String → Option String → Option String
changed_text value current = if opt_eq (present value) current then none else present value

-- `$set` of a field that is there only if it changed.
abbrev pub set_text : Option String → Option String → Option String
set_text none current = current
set_text (some s) current = some s

abbrev pub set_contact : Option String → Option String → ℕ → Conversation → Conversation
set_contact email phone now c = record c {
  customer_email = set_text email c.customer_email;
  customer_phone = set_text phone c.customer_phone;
  customer_contact_updated_at = some now;
  updated_at = now;
}

abbrev pub open_with_id : ℕ → Conversation → Bool
open_with_id id c = eqb c._id id && not (is_closed c)

module _ (calls : Calls) (others : ℕ → Store → Store) where
  abbrev pub find_conversation : (Conversation → Bool) → Action (Option Conversation)
  find_conversation p = query others (λ s. calls.conversations.find_one p s.conversations)

  -- An update of a conversation, and matchedCount.
  abbrev pub updating_one :
      (Conversation → Bool) → (Conversation → Conversation) → Store → Store × Result ℕ
  updating_one p f s =
      let (conversations, matched, modified) = calls.conversations.update_one p f s.conversations in
      (record s { conversations = conversations }, ok matched)

  abbrev pub update_one : (Conversation → Bool) → (Conversation → Conversation) → Action ℕ
  update_one p f = command others (updating_one p f)

  abbrev pub stored_or : Store → Option (List Conversation) → Store × Result Bool
  stored_or s none = (s, ok false)
  stored_or s (some conversations) = (record s { conversations = conversations }, ok true)

  -- insertOne; false for a duplicate key.
  abbrev pub insert_conversation : Conversation → Action Bool
  insert_conversation c =
      command others (λ s. stored_or s (calls.conversations.insert_one c s.conversations))

  abbrev pub concurrent_or_throw : Option Conversation → Action Conversation
  concurrent_or_throw none = throw duplicate_key
  concurrent_or_throw (some c) = pure c

  abbrev pub after_insert : CustomerIdentity → Conversation → Bool → Action Conversation
  after_insert input c true = pure c
  after_insert input c false =
      find_conversation (is_of input.store_id input.visitor_id) >>= concurrent_or_throw

  abbrev conversation_key_of : CustomerIdentity → String
  conversation_key_of input =
      build_compound_key calls.bytes calls.sha256 "ecommerce_conversation"
        (input.store_id ∷ input.visitor_id ∷ [])

  abbrev pub existing_or_new : CustomerIdentity → ℕ → ℕ → Option Conversation → Action Conversation
  existing_or_new input now _id (some c) = pure c
  existing_or_new input now _id none =
      let c = new_conversation input (conversation_key_of input) now _id in
      insert_conversation c >>= after_insert input c

  -- `now` and `_id` are the clock and the new ObjectId.
  unfoldable pub ensure_customer_conversation : CustomerIdentity → ℕ → ℕ → Action Conversation
  ensure_customer_conversation input now _id =
      find_conversation (is_of input.store_id input.visitor_id) >>= existing_or_new input now _id

  unfoldable pub synchronize_customer_contact :
      Conversation → CustomerIdentity → ℕ → Action (Unit {0})
  synchronize_customer_contact c identity now =
      let email = changed_text identity.customer_email c.customer_email in
      let phone = changed_text identity.customer_phone c.customer_phone in
      if is_some email || is_some phone
      then update_one (open_with_id c._id) (set_contact email phone now) >> pure tt
      else pure tt

  abbrev pub found_with_id : String → Option ℕ → Action (Option Conversation)
  found_with_id store_id none = pure none
  found_with_id store_id (some id) = find_conversation (λ c. eqb c._id id && c.store_id == store_id)

  unfoldable pub find_store_conversation : String → String → Action (Option Conversation)
  find_store_conversation store_id conversation_id =
      found_with_id store_id (calls.object_id_of conversation_id)
