-- ===== src/Ecommerce/Counted.antt =====
-- The unread counts of a conversation are the numbers of its unread messages: the invariant, and what
-- it says of lists of conversations and messages.
pub mod Lists
pub mod Updates
pub mod Always
use driveparts_websockets.Prelude.{
  ℕ, ◌+◌, ◌-◌, ◌≡◌, ◌≢◌, refl, sym, ap, ◌∙◌, Bool, true, false, not, ◌&&◌, ◌||◌, Option, none, some,
  List, [], ◌∷◌, ◌++◌, String, arith, any, tally, All, update_first, update_all, eqb, eqb_iff, ◌==◌,
  eq_iff, is_some, if◌then◌else◌, Bool-cases, inl, inr, and-right,
}
use driveparts_websockets.Mongo.Unique.{IsUnique, any-append}
use driveparts_websockets.Ecommerce.{
  SenderType, website_customer, store_user, same_sender, Conversation, Message, Store,
}
use driveparts_websockets.Ecommerce.Conversations.{open_with_id}
use driveparts_websockets.Ecommerce.Reading.{unread_from, set_read}

-- The count of the messages from this side that the other has not read.
abbrev pub count_of : SenderType → Conversation → ℕ
count_of website_customer c = c.unread_store_count
count_of store_user c = c.unread_customer_count

abbrev pub same_id : Conversation → Conversation → Bool
same_id a b = eqb a._id b._id

module _ {A : Type 0} where
  pub tally-append :
      (p : A → Bool) (xs : List A) (x : A)
      → tally p (xs ++ x ∷ []) ≡ tally p xs + (if p x then 1 else 0)
  tally-append p [] x = ground arith
  tally-append p (y ∷ ys) x = ground (arith, tally-append p ys x)

  pub tally-none :
      (p : A → Bool) (P : A → Type 0) (xs : List A)
      → ((a : A) → P a → p a ≡ false)
      → All P xs
      → tally p xs ≡ 0
  tally-none p P [] h a = refl
  tally-none p P (x ∷ xs) h (k, ks) = ground (arith, h x k, tally-none p P xs h ks)

  pub tally-update_self :
      (p : A → Bool) (f : A → A) (xs : List A)
      → ((a : A) → p (f a) ≡ false)
      → tally p (update_all p f xs) ≡ 0
  tally-update_self p f [] h = refl
  tally-update_self p f (x ∷ xs) h = ground (arith, h x, tally-update_self p f xs h)

  pub tally-update_other :
      (p q : A → Bool) (f : A → A) (xs : List A)
      → ((a : A) → p a ≡ true → q a ≡ false)
      → ((a : A) → p a ≡ true → q (f a) ≡ false)
      → tally q (update_all p f xs) ≡ tally q xs
  tally-update_other p q f [] h k = refl
  tally-update_other p q f (x ∷ xs) h k = ground (arith, h x, k x, tally-update_other p q f xs h k)

  pub All-append : (P : A → Type 0) (xs : List A) (x : A) → All P xs → P x → All P (xs ++ x ∷ [])
  All-append P [] x h k = (k, tt)
  All-append P (y ∷ ys) x (h, hs) k = (h, All-append P ys x hs k)

  pub All-map : (P Q : A → Type 0) (xs : List A) → ((a : A) → P a → Q a) → All P xs → All Q xs
  All-map P Q [] f h = tt
  All-map P Q (x ∷ xs) f (h, hs) = (f x h, All-map P Q xs f hs)

  pub All-update_all :
      (P : A → Type 0) (p : A → Bool) (f : A → A) (xs : List A)
      → ((a : A) → P a → P (f a))
      → All P xs
      → All P (update_all p f xs)
  All-update_all P p f [] h hs = tt
  All-update_all P p f (x ∷ xs) h (k, ks) = ground (arith, k, h x k, All-update_all P p f xs h ks)

-- `to_hex` is the hexadecimal text of an id.
module _ (to_hex : ℕ → String) where
  abbrev pub CountedIn : List Message → Conversation → Type 0
  CountedIn ms c =
      (sender : SenderType) → count_of sender c ≡ tally (unread_from (to_hex c._id) sender) ms

  -- The message is one of a stored conversation.
  abbrev pub owned : List Conversation → Message → Bool
  owned cs m = any (λ c. to_hex c._id == m.conversation_id) cs

  -- Each conversation counts its unread messages, each message is one of a stored conversation, and
  -- no two conversations have one id.
  pub record Counted (s : Store) : Type 0 where
    pub counts : All (CountedIn s.messages) s.conversations
    pub owners : All (λ m. owned s.conversations m ≡ true) s.messages
    pub ids : IsUnique same_id s.conversations
