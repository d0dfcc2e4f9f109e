-- ===== src/Ecommerce/Listing.antt =====
-- list_customer_messages, list_store_messages and list_store_conversations of
-- src/repositories/ecommerce_chat_repository.ts.
use driveparts_websockets.Prelude.{
  ℕ, ◌+◌, Bool, true, false, not, ◌&&◌, ◌||◌, Option, none, some, List, [], ◌∷◌, ◌++◌, String, ◌==◌,
  eqb, ltb, leb, if◌then◌else◌, length, take, reverse, sort_with,
}
use driveparts_websockets.Ecommerce.{
  Calls, SenderType, website_customer, Conversation, Message, Store, is_of, is_closed,
}
use driveparts_websockets.Ecommerce.Actions.{Action, pure, query, ◌>>=◌}
use driveparts_websockets.Ecommerce.Conversations.{find_conversation, find_store_conversation}

pub record MessagePagination : Type 0 where
  pub before_message_id : Option String
  pub after_message_id : Option String
  pub limit : ℕ

pub record MessageListResult : Type 0 where
  pub conversation : Option Conversation
  pub messages : List Message
  pub has_more : Bool

abbrev pub in_conversation : String → Message → Bool
in_conversation conversation_hex m = m.conversation_id == conversation_hex

abbrev is_customer : Option SenderType → Bool
is_customer (some website_customer) = true
is_customer _ = false

-- The conversations that wait for the store.
abbrev pub is_pending : String → Conversation → Bool
is_pending store_id c =
    c.store_id == store_id
    && (not (is_closed c) && (ltb 0 c.unread_store_count || is_customer c.last_message_sender_type))

abbrev pub activity_at : Conversation → ℕ
activity_at c = elim c.last_message_at [ none ↦ c.updated_at | some at ↦ at ]

-- `left` stands before `right` or at its place: the later activity first, then the greater id.
abbrev pub before : Conversation → Conversation → Bool
before left right =
    ltb (activity_at right) (activity_at left)
    || (eqb (activity_at right) (activity_at left) && leb right._id left._id)

-- `Map.set` by the id: a conversation that is there keeps its place.
abbrev pub put_conversation : Conversation → List Conversation → List Conversation
put_conversation c [] = c ∷ []
put_conversation c (d ∷ ds) = if eqb d._id c._id then c ∷ ds else d ∷ put_conversation c ds

abbrev pub collect : List Conversation → List Conversation → List Conversation
collect found [] = found
collect found (c ∷ cs) = collect (put_conversation c found) cs

unfoldable pub merge_conversations : List Conversation → List Conversation
merge_conversations cs = sort_with before (collect [] cs)

module _ (calls : Calls) (others : ℕ → Store → Store) where
  abbrev pub valid_id : Option String → Option ℕ
  valid_id none = none
  valid_id (some s) = if s == "" then none else calls.object_id_of s

  -- The last messages, in the order of the ids.
  abbrev pub page_backward : Conversation → ℕ → (Message → Bool) → Action MessageListResult
  page_backward c limit q =
      query others (λ s. calls.sorted_messages.newest_first q (limit + 1) s.messages) >>= λ found.
      pure (record {
        conversation = some c;
        messages = reverse (take limit found);
        has_more = ltb limit (length found);
      })

  abbrev pub page_forward : Conversation → ℕ → (Message → Bool) → Action MessageListResult
  page_forward c limit q =
      query others (λ s. calls.sorted_messages.oldest_first q (limit + 1) s.messages) >>= λ found.
      pure (record {
        conversation = some c;
        messages = take limit found;
        has_more = ltb limit (length found);
      })

  abbrev pub before_or_latest :
      Conversation → MessagePagination → Option ℕ → Action MessageListResult
  before_or_latest c pagination none =
      page_backward c pagination.limit (in_conversation (calls.to_hex c._id))
  before_or_latest c pagination (some before_id) =
      page_backward c pagination.limit
        (λ m. in_conversation (calls.to_hex c._id) m && ltb m._id before_id)

  abbrev pub after_or_before :
      Conversation → MessagePagination → Option ℕ → Action MessageListResult
  after_or_before c pagination none =
      before_or_latest c pagination (valid_id pagination.before_message_id)
  after_or_before c pagination (some after_id) =
      page_forward c pagination.limit
        (λ m. in_conversation (calls.to_hex c._id) m && ltb after_id m._id)

  unfoldable pub list_messages : MessagePagination → Option Conversation → Action MessageListResult
  list_messages pagination none =
      pure (record { conversation = none; messages = []; has_more = false })
  list_messages pagination (some c) =
      after_or_before c pagination (valid_id pagination.after_message_id)

  unfoldable list_customer_messages : String → String → MessagePagination → Action MessageListResult
  list_customer_messages store_id visitor_id pagination =
      find_conversation calls others (is_of store_id visitor_id) >>= list_messages pagination

  unfoldable pub list_store_messages :
      String → String → MessagePagination → Action MessageListResult
  list_store_messages store_id conversation_id pagination =
      find_store_conversation calls others store_id conversation_id >>= list_messages pagination

  -- The two reads: the latest of the store, and all that wait for it.
  unfoldable pub list_store_conversations : String → ℕ → Action (List Conversation)
  list_store_conversations store_id limit =
      query others (λ s.
        calls.ordered_conversations.in_order (λ c. c.store_id == store_id) limit s.conversations)
      >>= λ latest.
          query others
            (λ s. calls.ordered_conversations.all_in_order (is_pending store_id) s.conversations)
          >>= λ pending. pure (merge_conversations (latest ++ pending))
