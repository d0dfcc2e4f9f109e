-- ===== src/Ecommerce/Counted/Lists.antt =====
-- How an insertion, an update and a reading change the unread counts of a list of conversations.
use mathlib.Core.Path.{subst}
use driveparts_websockets.Prelude.{
  ℕ, ◌+◌, ◌-◌, ◌≡◌, ◌≢◌, refl, sym, ap, ◌∙◌, true, false, ◌&&◌, none, List, [], ◌∷◌, ◌++◌, String,
  arith, any, tally, All, update_first, update_all, eqb, eqb_iff, ◌==◌, eq_iff, eq_refl,
  if◌then◌else◌, Bool-cases, inl, inr, and-left,
}
use driveparts_websockets.Mongo.Unique.{IsUnique}
use driveparts_websockets.Ecommerce.{
  SenderType, website_customer, store_user, same_sender, Conversation, Message,
}
use driveparts_websockets.Ecommerce.Conversations.{open_with_id}
use driveparts_websockets.Ecommerce.Reading.{unread_from, set_read}
use driveparts_websockets.Ecommerce.Counted.{
  count_of, same_id, tally-append, tally-update_self, tally-update_other, CountedIn,
}

-- An update of other fields than the id and the counts.
abbrev pub KeepsCounts : (Conversation → Conversation) → Type 0
KeepsCounts f =
    (c : Conversation)
    → ((f c)._id ≡ c._id) × ((sender : SenderType) → count_of sender (f c) ≡ count_of sender c)

-- An update that counts one message more from this side.
abbrev pub CountsOne : SenderType → (Conversation → Conversation) → Type 0
CountsOne sent f =
    (c : Conversation)
    → ((f c)._id ≡ c._id)
      × ((sender : SenderType)
          → count_of sender (f c) ≡ count_of sender c + (if same_sender sent sender then 1 else 0))

-- An update that takes n from the count of this side, not below 0.
abbrev pub Subtracts : SenderType → ℕ → (Conversation → Conversation) → Type 0
Subtracts sent n f =
    (c : Conversation)
    → ((f c)._id ≡ c._id)
      × ((sender : SenderType)
          → count_of sender (f c) ≡ count_of sender c - (if same_sender sent sender then n else 0))

unread_from-other :
    (hex : String) (sender : SenderType) (m : Message)
    → (m.conversation_id == hex) ≡ false
    → unread_from hex sender m ≡ false
unread_from-other hex sender m h = ground arith

not_equal : (a b : String) → a ≢ b → (a == b) ≡ false
not_equal a b h = elim (Bool-cases (a == b)) [
  | inl same ↦ absurd (h ((eq_iff a b).0 same))
  | inr differ ↦ differ
]

module _ (to_hex : ℕ → String) (injective : (a b : ℕ) → to_hex a ≡ to_hex b → a ≡ b) where
  hex_differs : (a b : ℕ) → eqb a b ≡ false → (to_hex a == to_hex b) ≡ false
  hex_differs a b h =
      not_equal (to_hex a) (to_hex b) λ e. absurd (ground (arith, injective a b e, eqb_iff a b))

  -- A new message of a conversation does not change the counts of another one.
  counted-other :
      (id : ℕ) (ms : List Message) (m : Message) (c : Conversation)
      → m.conversation_id ≡ to_hex id
      → eqb id c._id ≡ false
      → CountedIn to_hex ms c
      → CountedIn to_hex (ms ++ m ∷ []) c
  counted-other id ms m c e h k sender =
      let other : (m.conversation_id == to_hex c._id) ≡ false = rw e (hex_differs id c._id h) in
      ground (
        arith,
        k sender,
        tally-append (unread_from (to_hex c._id) sender) ms m,
        unread_from-other (to_hex c._id) sender m other,
      )

  counted-others :
      (id : ℕ) (ms : List Message) (m : Message) (c : Conversation) (cs : List Conversation)
      → m.conversation_id ≡ to_hex id
      → eqb c._id id ≡ true
      → any (same_id c) cs ≡ false
      → All (CountedIn to_hex ms) cs
      → All (CountedIn to_hex (ms ++ m ∷ [])) cs
  counted-others id ms m c [] e h n a = tt
  counted-others id ms m c (d ∷ ds) e h n (a, rest) = (
    counted-other id ms m d e (ground arith) a,
    counted-others id ms m c ds e h (ground arith) rest,
  )

  unread_from-sent :
      (hex : String) (sent sender : SenderType) (m : Message)
      → m.conversation_id ≡ hex
      → m.sender_type ≡ sent
      → m.read_at ≡ none
      → unread_from hex sender m ≡ same_sender sent sender
  unread_from-sent hex sent sender m e s r = rw (e, s, r) (ground (arith, eq_refl hex))

  any-same_id :
      (id : ℕ) (c : Conversation) (cs : List Conversation)
      → any (same_id c) cs ≡ false
      → any (open_with_id id) cs ≡ true
      → eqb id c._id ≡ false
  any-same_id id c [] n t = absurd (ground arith)
  any-same_id id c (d ∷ ds) n t = ground (arith, any-same_id id c ds)

  counted-one :
      (sent : SenderType) (f : Conversation → Conversation) (ms : List Message) (m : Message)
      (c : Conversation)
      → CountsOne sent f
      → m.conversation_id ≡ to_hex c._id
      → m.sender_type ≡ sent
      → m.read_at ≡ none
      → CountedIn to_hex ms c
      → CountedIn to_hex (ms ++ m ∷ []) (f c)
  counted-one sent f ms m c one e s r k sender =
      let (same, counted) = one c in
      let at_old : count_of sender (f c)
          ≡ tally (unread_from (to_hex c._id) sender) (ms ++ m ∷ []) =
        ground (
          arith,
          counted sender,
          k sender,
          tally-append (unread_from (to_hex c._id) sender) ms m,
          unread_from-sent (to_hex c._id) sent sender m e s r,
        ) in
      subst (λ id. count_of sender (f c) ≡ tally (unread_from (to_hex id) sender) (ms ++ m ∷ []))
        (sym same) at_old

  -- After a message was stored and its open conversation updated, every conversation still counts
  -- its unread messages.
  pub counts-sent :
      (id : ℕ) (sent : SenderType) (f : Conversation → Conversation) (ms : List Message)
      (m : Message) (cs : List Conversation)
      → CountsOne sent f
      → m.conversation_id ≡ to_hex id
      → m.sender_type ≡ sent
      → m.read_at ≡ none
      → IsUnique same_id cs
      → any (open_with_id id) cs ≡ true
      → All (CountedIn to_hex ms) cs
      → All (CountedIn to_hex (ms ++ m ∷ [])) (update_first (open_with_id id) f cs)
  counts-sent id sent f ms m [] one e s r u t a = tt
  counts-sent id sent f ms m (c ∷ cs) one e s r (n, u) t (k, ks) =
      elim (Bool-cases (open_with_id id c)) [
        | inl here ↦
            let at_id : eqb c._id id ≡ true = and-left (eqb c._id id) _ here in
            let e' : m.conversation_id ≡ to_hex c._id =
              e ∙ ap to_hex (sym ((eqb_iff c._id id).0 at_id)) in
            rw here
              (counted-one sent f ms m c one e' s r k, counted-others id ms m c cs e at_id n ks)
        | inr later ↦
            let there : any (open_with_id id) cs ≡ true = ground arith in
            rw later (
              counted-other id ms m c e (any-same_id id c cs n there) k,
              counts-sent id sent f ms m cs one e s r u there ks,
            )
      ]

  same_sender_refl : (s : SenderType) → same_sender s s ≡ true
  same_sender_refl website_customer = refl
  same_sender_refl store_user = refl

  -- After a reading, the conversation has no unread message from the side that was read.
  tally-read :
      (hex : String) (sent : SenderType) (at : ℕ) (ms : List Message)
      → tally (unread_from hex sent) (update_all (unread_from hex sent) (set_read at) ms) ≡ 0
  tally-read hex sent at ms =
      tally-update_self (unread_from hex sent) (set_read at) ms λ m. ground arith

  same_sender_trans :
      (a b c : SenderType) → same_sender a b ≡ true → same_sender a c ≡ same_sender b c
  same_sender_trans a b c h = ground arith

  text_eq_trans : (a b c : String) → (a == b) ≡ true → (a == c) ≡ (b == c)
  text_eq_trans a b c h = rw ((eq_iff a b).0 h) refl

  -- The other counts stay.
  tally-unread_other :
      (hex hex' : String) (sent sender : SenderType) (at : ℕ) (ms : List Message)
      → ((hex == hex') && same_sender sent sender) ≡ false
      → tally (unread_from hex' sender) (update_all (unread_from hex sent) (set_read at) ms)
        ≡ tally (unread_from hex' sender) ms
  tally-unread_other hex hex' sent sender at ms h =
      tally-update_other (unread_from hex sent) (unread_from hex' sender) (set_read at) ms
        (λ m t. ground (
          arith,
          text_eq_trans m.conversation_id hex hex',
          same_sender_trans m.sender_type sent sender,
        ))
        (λ m t. ground arith)

  same_sender-eq : (a b : SenderType) → same_sender a b ≡ true → a ≡ b
  same_sender-eq website_customer website_customer h = refl
  same_sender-eq website_customer store_user h = absurd (ground arith)
  same_sender-eq store_user website_customer h = absurd (ground arith)
  same_sender-eq store_user store_user h = refl

  Subtracts-self :
      (sent : SenderType) (at : ℕ) (ms : List Message) (c : Conversation)
      (f : Conversation → Conversation)
      → Subtracts sent (tally (unread_from (to_hex c._id) sent) ms) f
      → CountedIn to_hex ms c
      → count_of sent (f c)
        ≡ tally
            (unread_from (to_hex c._id) sent)
            (update_all (unread_from (to_hex c._id) sent) (set_read at) ms)
  Subtracts-self sent at ms c f sub k =
      ground
        (arith, (sub c).1 sent, k sent, same_sender_refl sent, tally-read (to_hex c._id) sent at ms)

  Subtracts-sender :
      (sent sender : SenderType) (at : ℕ) (ms : List Message) (c : Conversation)
      (f : Conversation → Conversation)
      → Subtracts sent (tally (unread_from (to_hex c._id) sent) ms) f
      → CountedIn to_hex ms c
      → count_of sender (f c)
        ≡ tally
            (unread_from (to_hex c._id) sender)
            (update_all (unread_from (to_hex c._id) sent) (set_read at) ms)
  Subtracts-sender sent sender at ms c f sub k = elim (Bool-cases (same_sender sent sender)) [
    | inl same ↦
        subst
          (λ x.
            count_of x (f c)
            ≡ tally (unread_from (to_hex c._id) x)
                (update_all (unread_from (to_hex c._id) sent) (set_read at) ms))
          (same_sender-eq sent sender same) (Subtracts-self sent at ms c f sub k)
    | inr other ↦ ground (
      arith,
      (sub c).1 sender,
      k sender,
      tally-unread_other (to_hex c._id) (to_hex c._id) sent sender at ms (ground arith),
    )
  ]

  Subtracts-counted :
      (sent : SenderType) (at : ℕ) (ms : List Message) (c : Conversation)
      (f : Conversation → Conversation)
      → Subtracts sent (tally (unread_from (to_hex c._id) sent) ms) f
      → CountedIn to_hex ms c
      → CountedIn to_hex (update_all (unread_from (to_hex c._id) sent) (set_read at) ms) (f c)
  Subtracts-counted sent at ms c f sub k sender =
      subst
        (λ id.
          count_of sender (f c)
          ≡ tally (unread_from (to_hex id) sender)
              (update_all (unread_from (to_hex c._id) sent) (set_read at) ms))
        (sym (sub c).0) (Subtracts-sender sent sender at ms c f sub k)

  unread_other-counted :
      (id : ℕ) (sent : SenderType) (at : ℕ) (ms : List Message) (c : Conversation)
      → eqb id c._id ≡ false
      → CountedIn to_hex ms c
      → CountedIn to_hex (update_all (unread_from (to_hex id) sent) (set_read at) ms) c
  unread_other-counted id sent at ms c h k sender =
      let other : ((to_hex id == to_hex c._id) && same_sender sent sender) ≡ false =
        ground (arith, hex_differs id c._id h) in
      k sender ∙ sym (tally-unread_other (to_hex id) (to_hex c._id) sent sender at ms other)

  unread_others-counted :
      (id : ℕ) (sent : SenderType) (at : ℕ) (ms : List Message) (c : Conversation)
      (cs : List Conversation)
      → eqb c._id id ≡ true
      → any (same_id c) cs ≡ false
      → All (CountedIn to_hex ms) cs
      → All (CountedIn to_hex (update_all (unread_from (to_hex id) sent) (set_read at) ms)) cs
  unread_others-counted id sent at ms c [] e n a = tt
  unread_others-counted id sent at ms c (d ∷ ds) e n (k, ks) = (
    unread_other-counted id sent at ms d (ground arith) k,
    unread_others-counted id sent at ms c ds e (ground arith) ks,
  )

  -- After a reading, with the number of the messages taken from the count of the conversation, every
  -- conversation still counts its unread messages.
  pub counts-read :
      (id : ℕ) (sent : SenderType) (at : ℕ) (ms : List Message) (f : Conversation → Conversation)
      (cs : List Conversation)
      → Subtracts sent (tally (unread_from (to_hex id) sent) ms) f
      → IsUnique same_id cs
      → All (CountedIn to_hex ms) cs
      → All
          (CountedIn to_hex (update_all (unread_from (to_hex id) sent) (set_read at) ms))
          (update_first (λ c. eqb c._id id) f cs)
  counts-read id sent at ms f [] sub u a = tt
  counts-read id sent at ms f (c ∷ cs) sub (n, u) (k, ks) = elim (Bool-cases (eqb c._id id)) [
    | inl here ↦
        let e : c._id ≡ id = (eqb_iff c._id id).0 here in
        rw here (
          subst
              (λ x.
                CountedIn to_hex (update_all (unread_from (to_hex x) sent) (set_read at) ms) (f c))
              e
              (Subtracts-counted sent at ms c f
                (subst (λ x. Subtracts sent (tally (unread_from (to_hex x) sent) ms) f) (sym e) sub)
                k),
          unread_others-counted id sent at ms c cs here n ks,
        )
    | inr later ↦ rw later (
      unread_other-counted id sent at ms c (ground arith) k,
      counts-read id sent at ms f cs sub u ks,
    )
  ]
