-- ===== src/Ecommerce/Identity.antt =====
-- synchronize_customer_identity and update_customer_contact of
-- src/repositories/ecommerce_chat_repository.ts.
use driveparts_websockets.Prelude.{
  ℕ, Bool, true, false, not, ◌&&◌, ◌||◌, Option, none, some, List, String, ◌==◌, eqb, if◌then◌else◌,
  opt_eq, is_some,
}
use driveparts_websockets.Ecommerce.{
  Calls, Conversation, InventoryItemReference, CustomerIdentity, Store,
  ecommerce_conversation_not_found, is_of,
}
use driveparts_websockets.Ecommerce.Actions.{Action, Result, ok, err, pure, command, ◌>>=◌, ◌>>◌}
use driveparts_websockets.Ecommerce.Conversations.{
  changed_text, set_text, find_conversation, update_one,
}

unfoldable pub inventory_references_equal : InventoryItemReference → InventoryItemReference → Bool
inventory_references_equal left right =
    left.inventory_item_id == right.inventory_item_id
    && (left.inventory_item_name == right.inventory_item_name
        && (left.inventory_item_url == right.inventory_item_url
            && (left.inventory_item_checkout_url == right.inventory_item_checkout_url
                && opt_eq left.inventory_item_thumbnail_url right.inventory_item_thumbnail_url)))

-- `identity_updates`, with undefined for a field that is not there.
pub record IdentityUpdates : Type 0 where
  pub visitor_name : Option String
  pub customer_email : Option String
  pub customer_phone : Option String
  pub store_name : Option String
  pub inventory_item_reference : Option InventoryItemReference

unfoldable pub identity_updates_of : CustomerIdentity → Conversation → IdentityUpdates
unfolding inventory_references_equal
identity_updates_of identity c = record {
  visitor_name =
      if not (identity.visitor_name == "Visitante") && not (identity.visitor_name == c.visitor_name)
      then some identity.visitor_name
      else none;
  customer_email = changed_text identity.customer_email c.customer_email;
  customer_phone = changed_text identity.customer_phone c.customer_phone;
  store_name = if identity.store_name == c.store_name then none else some identity.store_name;
  inventory_item_reference =
      if inventory_references_equal identity.inventory_item_reference c.inventory_item_reference
      then none
      else some identity.inventory_item_reference;
}

-- `Object.keys(identity_updates).length > 0`
abbrev pub has_updates : IdentityUpdates → Bool
has_updates u =
    is_some u.visitor_name
    || (is_some u.customer_email
        || (is_some u.customer_phone
            || (is_some u.store_name || is_some u.inventory_item_reference)))

abbrev set_name : Option String → String → String
set_name none old = old
set_name (some s) old = s

abbrev set_reference :
    Option InventoryItemReference → InventoryItemReference → InventoryItemReference
set_reference none old = old
set_reference (some r) old = r

-- `$set: identity_updates`; `contact_now` and `now` are the two readings of the clock.
unfoldable pub set_identity : IdentityUpdates → ℕ → ℕ → Conversation → Conversation
set_identity u contact_now now c = record c {
  visitor_name = set_name u.visitor_name c.visitor_name;
  customer_email = set_text u.customer_email c.customer_email;
  customer_phone = set_text u.customer_phone c.customer_phone;
  customer_contact_updated_at =
      if is_some u.customer_email || is_some u.customer_phone
      then some contact_now
      else c.customer_contact_updated_at;
  store_name = set_name u.store_name c.store_name;
  inventory_item_reference = set_reference u.inventory_item_reference c.inventory_item_reference;
  updated_at = now;
}

pub record IdentitySyncResult : Type 0 where
  pub conversation : Option Conversation
  pub changed : Bool

pub data ContactType : Type 0 where
  email phone : ContactType

pub record CustomerContactInput : Type 0 where
  pub store_id : String
  pub visitor_id : String
  pub contact_type : ContactType
  pub contact_value : String

abbrev pub contact_update : CustomerContactInput → ℕ → Conversation → Conversation
contact_update input now c =
    record (elim input.contact_type [
      | email ↦ record c { customer_email = some input.contact_value }
      | phone ↦ record c { customer_phone = some input.contact_value }
    ]) { customer_contact_updated_at = some now; updated_at = now }

module _ (calls : Calls) (others : ℕ → Store → Store) where
  abbrev pub after_update : Option Conversation → Action IdentitySyncResult
  after_update c = pure (record { conversation = c; changed = true })

  abbrev pub synchronize_found :
      CustomerIdentity → ℕ → ℕ → Option Conversation → Action IdentitySyncResult
  synchronize_found identity contact_now now none =
      pure (record { conversation = none; changed = false })
  synchronize_found identity contact_now now (some c) =
      let updates = identity_updates_of identity c in
      if has_updates updates
      then update_one calls others (λ d. eqb d._id c._id) (set_identity updates contact_now now)
        >> (find_conversation calls others (λ d. eqb d._id c._id) >>= after_update)
      else pure (record { conversation = some c; changed = false })

  unfoldable pub synchronize_customer_identity :
      CustomerIdentity → ℕ → ℕ → Action IdentitySyncResult
  synchronize_customer_identity identity contact_now now =
      find_conversation calls others (is_of identity.store_id identity.visitor_id)
      >>= synchronize_found identity contact_now now

  abbrev pub found_or_missing :
      Store → List Conversation × Option Conversation → Store × Result Conversation
  found_or_missing s (conversations, none) =
      (record s { conversations = conversations }, err ecommerce_conversation_not_found)
  found_or_missing s (conversations, some c) = (record s { conversations = conversations }, ok c)

  unfoldable pub update_customer_contact : CustomerContactInput → ℕ → Action Conversation
  update_customer_contact input now = command others (λ s. found_or_missing s (
      calls.conversations.find_one_and_update (is_of input.store_id input.visitor_id)
        (contact_update input now) s.conversations))
