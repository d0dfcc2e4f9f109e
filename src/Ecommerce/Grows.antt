-- ===== src/Ecommerce/Grows.antt =====
-- What never goes back in the stored conversations and messages of a shop.
use driveparts_websockets.Prelude.{ℕ, ◌≤◌, ◌≡◌, refl, none, List, arith}
use driveparts_websockets.Prelude.Growth.{
  Stays, Stays-refl, Stays-trans, option_rank, Extends, Extends-refl, Extends-trans,
}
use driveparts_websockets.Ecommerce.{
  ConversationStatus, waiting, opened, closed, Conversation, Message, Store,
}

-- The order in which a conversation's status moves.
abbrev pub rank : ConversationStatus → ℕ
rank waiting = 0
rank opened = 1
rank closed = 2

-- `new` is the conversation `old` at the same or a later time.
pub record Later (old new : Conversation) : Type 0 where
  pub _id : new._id ≡ old._id
  pub conversation_key : new.conversation_key ≡ old.conversation_key
  pub store_id : new.store_id ≡ old.store_id
  pub visitor_id : new.visitor_id ≡ old.visitor_id
  pub status : rank old.status ≤ rank new.status
  pub responsible_user_id : Stays old.responsible_user_id new.responsible_user_id
  pub last_message_id : option_rank old.last_message_id ≤ option_rank new.last_message_id

pub Later-refl : (c : Conversation) → Later c c
Later-refl c = record {
  _id = refl;
  conversation_key = refl;
  store_id = refl;
  visitor_id = refl;
  status = omega arith;
  responsible_user_id = Stays-refl _;
  last_message_id = omega arith;
}

Later-trans : (a b c : Conversation) → Later a b → Later b c → Later a c
Later-trans a b c h k = record {
  _id = cc;
  conversation_key = cc;
  store_id = cc;
  visitor_id = cc;
  status = omega arith;
  responsible_user_id = Stays-trans _ _ _ h.responsible_user_id k.responsible_user_id;
  last_message_id = omega arith;
}

abbrev unread : Message → Message
unread m = record m { read_at = none }

-- `new` is the message `old`, read or not: a message that was read stays read at its time.
pub record Kept (old new : Message) : Type 0 where
  pub content : unread new ≡ unread old
  pub read_at : Stays old.read_at new.read_at

pub Kept-refl : (m : Message) → Kept m m
Kept-refl m = record { content = refl; read_at = Stays-refl _ }

Kept-trans : (a b c : Message) → Kept a b → Kept b c → Kept a c
Kept-trans a b c h k = record { content = cc; read_at = Stays-trans _ _ _ h.read_at k.read_at }

abbrev pub ConversationsGrow : List Conversation → List Conversation → Type 0
ConversationsGrow = Extends Later Later-refl

abbrev pub MessagesGrow : List Message → List Message → Type 0
MessagesGrow = Extends Kept Kept-refl

-- No conversation goes back and no message is lost or changed, but for its being read.
pub record Grows (old new : Store) : Type 0 where
  pub conversations : ConversationsGrow old.conversations new.conversations
  pub messages : MessagesGrow old.messages new.messages

pub Grows-refl : (s : Store) → Grows s s
Grows-refl s = record {
  conversations = Extends-refl Later Later-refl s.conversations;
  messages = Extends-refl Kept Kept-refl s.messages;
}

pub Grows-trans : (s t u : Store) → Grows s t → Grows t u → Grows s u
Grows-trans s t u h k = record {
  conversations = Extends-trans Later Later-refl Later-trans _ _ _ h.conversations k.conversations;
  messages = Extends-trans Kept Kept-refl Kept-trans _ _ _ h.messages k.messages;
}
