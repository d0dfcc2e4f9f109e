-- ===== src/Notifications/Owned.antt =====
-- Whose notification a creation answers: create_notification_with_result of
-- src/repositories/notification_repository.ts.
use driveparts_websockets.Prelude.{
  ℕ, ◌≡◌, refl, Bool, Option, none, some, List, String, Bool-cases, inl, inr,
}
use driveparts_websockets.Value.{Fields}
use driveparts_websockets.Notifications.{Content, Notification, Notifications, present_text}
use driveparts_websockets.Notifications.Creating.{
  new_notification, CreateResult, created, existing, conflict, duplicate_key, has_key, matches,
  return_existing, recheck, rechecked, inserted, checked, keyed, create_notification_with_result,
}
use driveparts_websockets.Notifications.Create.{matches_iff}

-- The notification that is answered, if any, is one of the store.
abbrev pub IsOfStore : String → CreateResult → Type 0
IsOfStore store_id (created d) = d.content.store_id ≡ store_id
IsOfStore store_id (existing d announced) = d.content.store_id ≡ store_id
IsOfStore store_id conflict = Unit
IsOfStore store_id duplicate_key = Unit

module _ (deep_equal : Option Fields → Option Fields → Bool) (db : Notifications)
    (input : Content) where
  return_existing-IsOfStore :
      (d : Notification) → IsOfStore input.store_id (return_existing deep_equal input d)
  return_existing-IsOfStore d = elim (Bool-cases (matches deep_equal d.content input)) [
    | inl equal ↦ rw equal ((matches_iff deep_equal d.content input).0 equal).0
    | inr unequal ↦ rw unequal tt
  ]

  rechecked-IsOfStore :
      (o : Option Notification) → IsOfStore input.store_id (rechecked deep_equal input o)
  rechecked-IsOfStore none = tt
  rechecked-IsOfStore (some d) = return_existing-IsOfStore d

  recheck-IsOfStore :
      (key : Option String) (docs : List Notification)
      → IsOfStore input.store_id (recheck deep_equal db input key docs)
  recheck-IsOfStore none docs = tt
  recheck-IsOfStore (some key) docs =
      rechecked-IsOfStore (db.find_one (has_key input.store_id key) docs)

  inserted-IsOfStore :
      (between : List Notification → List Notification) (now _id : ℕ)
      (o : Option (List Notification)) (docs : List Notification)
      → IsOfStore input.store_id
          (inserted deep_equal db between input (new_notification input now _id) o docs).1
  unfolding new_notification
  inserted-IsOfStore between now _id (some docs') docs = refl
  inserted-IsOfStore between now _id none docs =
      recheck-IsOfStore (present_text input.idempotency_key) (between docs)

  checked-IsOfStore :
      (between : ℕ → List Notification → List Notification) (now _id : ℕ) (o : Option Notification)
      (docs : List Notification)
      → IsOfStore input.store_id (checked deep_equal db between input now _id o docs).1
  checked-IsOfStore between now _id none docs =
      inserted-IsOfStore (between 1) now _id _ (between 0 docs)
  checked-IsOfStore between now _id (some d) docs = return_existing-IsOfStore d

  keyed-IsOfStore :
      (between : ℕ → List Notification → List Notification) (now _id : ℕ) (key : Option String)
      (docs : List Notification)
      → IsOfStore input.store_id (keyed deep_equal db between input now _id key docs).1
  keyed-IsOfStore between now _id none docs = inserted-IsOfStore (between 1) now _id _ docs
  keyed-IsOfStore between now _id (some key) docs = checked-IsOfStore between now _id _ docs

  pub create-IsOfStore :
      (between : ℕ → List Notification → List Notification) (now _id : ℕ) (docs : List Notification)
      → IsOfStore input.store_id
          (create_notification_with_result deep_equal db between input now _id docs).1
  unfolding create_notification_with_result
  create-IsOfStore between now _id docs = keyed-IsOfStore between now _id _ docs
