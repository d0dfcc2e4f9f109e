-- ===== src/Ecommerce/Counted/Updates.antt =====
-- What the updates of src/repositories/ecommerce_chat_repository.ts do to the unread counts.
use driveparts_websockets.Prelude.{
  ℕ, ◌≡◌, refl, sym, ap, ◌∙◌, Bool, true, false, none, List, [], ◌∷◌, ◌++◌, String, arith, any,
  tally, All, update_first, update_all, eqb, eqb_iff, ◌==◌, eq_iff, Bool-cases, inl, inr,
}
use driveparts_websockets.Mongo.Unique.{
  any-append, any-update_first, append-IsUnique, update_first-IsUnique, KeepsKey,
}
use driveparts_websockets.Ecommerce.{
  SenderType, website_customer, store_user, Conversation, Message, Store,
}
use driveparts_websockets.Ecommerce.Conversations.{open_with_id}
use driveparts_websockets.Ecommerce.Reading.{set_read, unread_from}
use driveparts_websockets.Ecommerce.Counted.{
  count_of, same_id, tally-none, All-append, All-map, All-update_all, CountedIn, owned, Counted,
}
use driveparts_websockets.Ecommerce.Counted.Lists.{
  KeepsCounts, CountsOne, Subtracts, counts-sent, counts-read,
}

same_id-KeepsKey :
    (f : Conversation → Conversation)
    → ((c : Conversation) → (f c)._id ≡ c._id)
    → KeepsKey same_id f
same_id-KeepsKey f h = ((λ d e. ground (arith, h d)), (λ d e. ground (arith, h e)))

same_id_comm : (d e : Conversation) → same_id d e ≡ same_id e d
same_id_comm d e = ground arith

module _ (to_hex : ℕ → String) where
  abbrev pub Preserves : Store → Store → Type 0
  Preserves s t = Counted to_hex s → Counted to_hex t

  owned-update :
      (p : Conversation → Bool) (f : Conversation → Conversation) (cs : List Conversation)
      (m : Message)
      → ((c : Conversation) → (f c)._id ≡ c._id)
      → owned to_hex (update_first p f cs) m ≡ owned to_hex cs m
  owned-update p f cs m h =
      any-update_first (λ c. to_hex c._id == m.conversation_id) p f cs λ d. rw h refl

  counts-kept :
      (p : Conversation → Bool) (f : Conversation → Conversation) (ms : List Message)
      (cs : List Conversation)
      → KeepsCounts f
      → All (CountedIn to_hex ms) cs
      → All (CountedIn to_hex ms) (update_first p f cs)
  counts-kept p f ms [] k a = tt
  counts-kept p f ms (c ∷ cs) k (a, rest) = elim (Bool-cases (p c)) [
    | inl here ↦ rw here (
      (λ sender.
          (k c).1 sender
          ∙ (a sender ∙ ap (λ id. tally (unread_from (to_hex id) sender) ms) (sym (k c).0))),
      rest,
    )
    | inr later ↦ rw later (a, counts-kept p f ms cs k rest)
  ]

  pub updated-Counted :
      (s : Store) (p : Conversation → Bool) (f : Conversation → Conversation)
      → KeepsCounts f
      → Preserves s (record s { conversations = update_first p f s.conversations })
  updated-Counted s p f k h = record {
    counts = counts-kept p f s.messages s.conversations k h.counts;
    owners =
        All-map _ _ s.messages (λ m o. owned-update p f s.conversations m (λ c. (k c).0) ∙ o)
          h.owners;
    ids =
        update_first-IsUnique same_id p f (same_id-KeepsKey f (λ c. (k c).0)) s.conversations h.ids;
  }

  module _ (injective : (a b : ℕ) → to_hex a ≡ to_hex b → a ≡ b) where
    -- A message of a stored conversation is none of a conversation with another id.
    not_of_new :
        (c : Conversation) (cs : List Conversation) (sender : SenderType) (m : Message)
        → any (same_id c) cs ≡ false
        → owned to_hex cs m ≡ true
        → unread_from (to_hex c._id) sender m ≡ false
    not_of_new c [] sender m n o = absurd (ground arith)
    not_of_new c (d ∷ ds) sender m n o = elim (Bool-cases (m.conversation_id == to_hex c._id)) [
      | inr other ↦ ground arith
      | inl same ↦ elim (Bool-cases (to_hex d._id == m.conversation_id)) [
        | inl here ↦
            let e : d._id ≡ c._id =
              injective d._id c._id ((eq_iff _ _).0 here ∙ (eq_iff _ _).0 same) in
            absurd (ground (arith, e))
        | inr later ↦ not_of_new c ds sender m (ground arith) (ground arith)
      ]
    ]

    zero_counts :
        (c : Conversation)
        → c.unread_store_count ≡ 0
        → c.unread_customer_count ≡ 0
        → (sender : SenderType) → count_of sender c ≡ 0
    zero_counts c a b website_customer = a
    zero_counts c a b store_user = b

    -- A new conversation has no messages.
    pub inserted-Counted :
        (s : Store) (c : Conversation)
        → c.unread_store_count ≡ 0
        → c.unread_customer_count ≡ 0
        → any (same_id c) s.conversations ≡ false
        → Preserves s (record s { conversations = s.conversations ++ c ∷ [] })
    inserted-Counted s c z z' n h = record {
      counts = All-append (CountedIn to_hex s.messages) s.conversations c h.counts λ sender.
          zero_counts c z z' sender
          ∙ sym (
              tally-none (unread_from (to_hex c._id) sender)
                (λ m. owned to_hex s.conversations m ≡ true) s.messages
                (λ m. not_of_new c s.conversations sender m n) h.owners);
      owners =
          All-map _ _ s.messages
            (λ m o.
              ground
                (arith, any-append (λ d. to_hex d._id == m.conversation_id) s.conversations c, o))
            h.owners;
      ids = append-IsUnique same_id same_id_comm s.conversations c h.ids n;
    }

    owned-open :
        (id : ℕ) (cs : List Conversation) (m : Message)
        → m.conversation_id ≡ to_hex id
        → any (open_with_id id) cs ≡ true
        → owned to_hex cs m ≡ true
    owned-open id [] m e t = absurd (ground arith)
    owned-open id (c ∷ cs) m e t = elim (Bool-cases (eqb c._id id)) [
      | inl here ↦
          let same : to_hex c._id ≡ m.conversation_id =
            ap to_hex ((eqb_iff c._id id).0 here) ∙ sym e in
          ground (arith, (eq_iff (to_hex c._id) m.conversation_id).1 same)
      | inr later ↦ ground (arith, owned-open id cs m e (ground arith))
    ]

    pub sent-Counted :
        (s : Store) (id : ℕ) (sent : SenderType) (f : Conversation → Conversation) (m : Message)
        → CountsOne sent f
        → m.conversation_id ≡ to_hex id
        → m.sender_type ≡ sent
        → m.read_at ≡ none
        → any (open_with_id id) s.conversations ≡ true
        → Preserves s (record s {
          conversations = update_first (open_with_id id) f s.conversations;
          messages = s.messages ++ m ∷ [];
        })
    sent-Counted s id sent f m one e st r t h = record {
      counts =
          counts-sent to_hex injective id sent f s.messages m s.conversations one e st r h.ids t
            h.counts;
      owners =
          All-append _ s.messages m
            (All-map _ _ s.messages (λ d o. owned-update _ f s.conversations d (λ c. (one c).0) ∙ o)
              h.owners)
            (owned-update _ f s.conversations m (λ c. (one c).0)
              ∙ owned-open id s.conversations m e t);
      ids =
          update_first-IsUnique same_id _ f (same_id-KeepsKey f (λ c. (one c).0)) s.conversations
            h.ids;
    }

    pub read-Counted :
        (s : Store) (id : ℕ) (sent : SenderType) (at : ℕ) (f : Conversation → Conversation)
        → Subtracts sent (tally (unread_from (to_hex id) sent) s.messages) f
        → Preserves s (record s {
          conversations = update_first (λ c. eqb c._id id) f s.conversations;
          messages = update_all (unread_from (to_hex id) sent) (set_read at) s.messages;
        })
    read-Counted s id sent at f sub h = record {
      counts =
          counts-read to_hex injective id sent at s.messages f s.conversations sub h.ids h.counts;
      owners =
          All-update_all (λ m. owned to_hex (update_first _ f s.conversations) m ≡ true) _
            (set_read at) s.messages (λ m o. o)
            (All-map _ _ s.messages (λ m o. owned-update _ f s.conversations m (λ c. (sub c).0) ∙ o)
              h.owners);
      ids =
          update_first-IsUnique same_id _ f (same_id-KeepsKey f (λ c. (sub c).0)) s.conversations
            h.ids;
    }
