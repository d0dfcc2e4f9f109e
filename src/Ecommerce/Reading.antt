-- ===== src/Ecommerce/Reading.antt =====
-- mark_customer_read and mark_store_read of src/repositories/ecommerce_chat_repository.ts.
use driveparts_websockets.Prelude.{
  ℕ, Bool, not, ◌&&◌, Option, none, some, String, ◌==◌, eqb, ltb, if◌then◌else◌, is_some,
}
use driveparts_websockets.Ecommerce.{
  Calls, SenderType, website_customer, store_user, same_sender, Conversation, Message, Store, is_of,
}
use driveparts_websockets.Ecommerce.Actions.{
  Action, Result, ok, pure, command, ◌>>=◌, ◌>>◌, execute_atomic,
}
use driveparts_websockets.Ecommerce.Latest.{subtract_unread}
use driveparts_websockets.Ecommerce.Conversations.{
  find_conversation, update_one, find_store_conversation,
}

pub record ReadResult : Type 0 where
  pub conversation : Option Conversation
  pub updated_count : ℕ
  pub read_at : ℕ
  pub reader_type : SenderType

abbrev pub unread_sender_type : SenderType → SenderType
unread_sender_type website_customer = store_user
unread_sender_type store_user = website_customer

-- A message of the conversation that the sender's other side has not read.
abbrev pub unread_from : String → SenderType → Message → Bool
unread_from conversation_hex sender m =
    m.conversation_id == conversation_hex
    && (same_sender m.sender_type sender && not (is_some m.read_at))

abbrev pub set_read : ℕ → Message → Message
set_read read_at m = record m { read_at = some read_at }

module _ (calls : Calls) (others : ℕ → Store → Store) (transactions_enabled : Bool) where
  abbrev pub marking : String → SenderType → ℕ → Store → Store × Result ℕ
  marking conversation_hex sender read_at s =
      let (messages, modified) =
        calls.messages.update_many (unread_from conversation_hex sender) (set_read read_at)
          s.messages in
      (record s { messages = messages }, ok modified)

  abbrev pub subtract_if : (ℕ → Store → Store) → SenderType → Conversation → ℕ → Action ℕ
  subtract_if others' reader_type c modified =
      if ltb 0 modified
      then update_one calls others' (λ d. eqb d._id c._id) (subtract_unread reader_type modified)
        >> pure modified
      else pure modified

  abbrev pub mark_all : ℕ → Conversation → SenderType → (ℕ → Store → Store) → Action ℕ
  mark_all read_at c reader_type others' =
      command others' (marking (calls.to_hex c._id) (unread_sender_type reader_type) read_at)
      >>= subtract_if others' reader_type c

  unfoldable pub mark_read : ℕ → SenderType → Option Conversation → Action ReadResult
  mark_read read_at reader_type none = pure (record {
    conversation = none;
    updated_count = 0;
    read_at = read_at;
    reader_type = reader_type;
  })
  mark_read read_at reader_type (some c) =
      execute_atomic transactions_enabled others (mark_all read_at c reader_type)
      >>= λ updated_count. pure (record {
        conversation = some c;
        updated_count = updated_count;
        read_at = read_at;
        reader_type = reader_type;
      })

  unfoldable pub mark_customer_read : ℕ → String → String → Action ReadResult
  mark_customer_read read_at store_id visitor_id =
      find_conversation calls others (is_of store_id visitor_id)
      >>= mark_read read_at website_customer

  unfoldable pub mark_store_read : ℕ → String → String → Action ReadResult
  mark_store_read read_at store_id conversation_id =
      find_store_conversation calls others store_id conversation_id >>= mark_read read_at store_user
