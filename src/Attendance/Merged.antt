-- ===== src/Attendance/Merged.antt =====
-- merge_chat_messages_by_id of src/repositories/chat_repository.ts: one list without repetition.
use driveparts_websockets.Prelude.{
  ℕ, ◌≡◌, ◌≢◌, ◌∙◌, refl, Bool, ◌||◌, List, [], ◌∷◌, arith, eqb, any, All, insert_by, sort_by,
  Bool-cases, inl, inr,
}
use driveparts_websockets.Prelude.Sorting.{Ascending, Distinct, sort_by-Ascending}
use mathlib.Core.Path.{subst}
use driveparts_websockets.Attendance.{Message}
use driveparts_websockets.Attendance.Listing.{
  put_message, collect_messages, merge_chat_messages_by_id,
}

abbrev number : Message → ℕ
number m = m._id

-- A message with the id is in the list.
abbrev pub holds : ℕ → List Message → Bool
holds id messages = any (λ m. eqb m._id id) messages

put_message-other :
    (m : Message) (n : ℕ) (xs : List Message)
    → n ≢ m._id
    → All (λ y. n ≢ number y) xs
    → All (λ y. n ≢ number y) (put_message m xs)
put_message-other m n [] h a = (h, tt)
put_message-other m n (x ∷ xs) h a = ground (arith, put_message-other m n xs h a.1)

put_message-Distinct :
    (m : Message) (xs : List Message) → Distinct number xs → Distinct number (put_message m xs)
put_message-Distinct m [] d = (tt, tt)
put_message-Distinct m (x ∷ xs) d = elim (Bool-cases (eqb x._id m._id)) [
  | inl same ↦
      let e : x._id ≡ m._id = ground arith in
      rw same (subst (λ n. All (λ y. n ≢ number y) xs) e d.0, d.1)
  | inr different ↦
      let n : x._id ≢ m._id = ground arith in
      rw different (put_message-other m x._id xs n d.0, put_message-Distinct m xs d.1)
]

collect_messages-Distinct :
    (found ms : List Message) → Distinct number found → Distinct number (collect_messages found ms)
collect_messages-Distinct found [] d = d
collect_messages-Distinct found (m ∷ ms) d =
    collect_messages-Distinct (put_message m found) ms (put_message-Distinct m found d)

holds-put_message :
    (id : ℕ) (m : Message) (xs : List Message)
    → holds id (put_message m xs) ≡ (eqb m._id id || holds id xs)
holds-put_message id m [] = refl
holds-put_message id m (x ∷ xs) = ground (arith, holds-put_message id m xs)

holds-collect_messages :
    (id : ℕ) (found ms : List Message)
    → holds id (collect_messages found ms) ≡ (holds id found || holds id ms)
holds-collect_messages id found [] = ground arith
holds-collect_messages id found (m ∷ ms) =
    ground (arith, holds-collect_messages id (put_message m found) ms, holds-put_message id m found)

holds-insert_by :
    (id : ℕ) (m : Message) (xs : List Message)
    → holds id (insert_by number m xs) ≡ (eqb m._id id || holds id xs)
holds-insert_by id m [] = refl
holds-insert_by id m (x ∷ xs) = ground (arith, holds-insert_by id m xs)

holds-sort_by : (id : ℕ) (xs : List Message) → holds id (sort_by number xs) ≡ holds id xs
holds-sort_by id [] = refl
holds-sort_by id (x ∷ xs) =
    ground (arith, holds-insert_by id x (sort_by number xs), holds-sort_by id xs)

-- The merged list is strictly in the order of the ids, so none is there twice, and it has a message
-- with an id exactly if the given list has one.
pub merge_chat_messages_by_id-Ascending :
    (messages : List Message)
    → Ascending (λ m. m._id) (merge_chat_messages_by_id messages)
      × ((id : ℕ) → holds id (merge_chat_messages_by_id messages) ≡ holds id messages)
unfolding merge_chat_messages_by_id
merge_chat_messages_by_id-Ascending messages = (
  sort_by-Ascending number _ (collect_messages-Distinct [] messages tt),
  λ id. holds-sort_by id (collect_messages [] messages) ∙ holds-collect_messages id [] messages,
)
