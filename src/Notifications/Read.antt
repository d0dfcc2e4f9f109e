-- ===== src/Notifications/Read.antt =====
-- Marking as read: only what the user may see, and once.
use driveparts_websockets.Prelude.{
  ℕ, ◌≡◌, refl, ap, Bool, true, false, ◌&&◌, Option, some, List, [], ◌∷◌, String, arith, ◌==◌, any,
  first, tally, update_first, update_all, Option-cases, inl, inr, first-eq-some, first-eq-none,
  update_first_none,
}
use driveparts_websockets.Mongo.Unique.{IsUnique, any_at_key}
use driveparts_websockets.Notifications.{
  Notification, Notifications, conflicts, is_visible, is_unread,
}
use driveparts_websockets.Notifications.Marking.{readable, set_read, mark_read, mark_all_read}

readable-set_read :
    (store_id user_id : String) (id now : ℕ) (d : Notification)
    → readable store_id user_id id (set_read now d) ≡ readable store_id user_id id d
unfolding is_visible
readable-set_read store_id user_id id now d = refl

module _ (object_id_of : String → Option ℕ) (db : Notifications) where
  -- Whatever other processes do meanwhile, the notification that `mark_read` returns is the one of
  -- the store with the given id, and the user may see it.
  mark_read_returns_readable :
      (between : List Notification → List Notification) (store_id user_id notification_id : String)
      (now id : ℕ) (docs : List Notification) (d : Notification)
      → object_id_of notification_id ≡ some id
      → (mark_read object_id_of db between store_id user_id notification_id now docs).1.notification
        ≡ some d
      → readable store_id user_id id d ≡ true
  unfolding mark_read
  mark_read_returns_readable between store_id user_id notification_id now id docs d valid =
      let p : Notification → Bool = λ e. readable store_id user_id id e && is_unread e in
      rw (valid, db.find_one_and_update_lem)
        (elim (Option-cases (first p docs)) [
          | inl missed ↦
              rw (missed, db.find_one_lem) λ h. first-eq-some (readable store_id user_id id) _ d h
          | inr (r, found) ↦ rw found λ h.
              let e : set_read now r ≡ d = ground arith in
              rw (← e, readable-set_read store_id user_id id now r)
                (ground (arith, first-eq-some p docs r found))
        ])

  -- The first call that finds an unread notification changes it, and a second call changes nothing:
  -- the first reports `changed`, the second does not.
  pub mark_read_once :
      (store_id user_id notification_id : String) (now later id : ℕ) (docs : List Notification)
      (d : Notification)
      → object_id_of notification_id ≡ some id
      → IsUnique conflicts docs
      → first (λ e. readable store_id user_id id e && is_unread e) docs ≡ some d
      → let once = mark_read object_id_of db (λ x. x) store_id user_id notification_id now docs in
        let twice =
          mark_read object_id_of db (λ x. x) store_id user_id notification_id later once.0 in
        (once.1 ≡ record { notification = some (set_read now d); changed = true })
        × (twice.0 ≡ once.0)
        × (twice.1.changed ≡ false)
  unfolding mark_read
  mark_read_once store_id user_id notification_id now later id docs d valid u found =
      let p : Notification → Bool = λ e. readable store_id user_id id e && is_unread e in
      let next = update_first p (set_read now) docs in
      let gone : any p next ≡ false =
        any_at_key conflicts p (set_read now) docs (λ x y a b. ground (arith)) (λ x. ground arith)
          u in
      rw
        (
          valid,
          db.find_one_and_update_lem,
          found,
          db.find_one_and_update_lem,
          first-eq-none p next gone,
        )
        (refl, update_first_none p (set_read later) next gone, refl)

unread_left :
    (p : Notification → Bool) (now : ℕ) (docs : List Notification)
    → ((d : Notification) → p (set_read now d) ≡ false)
    → any p (update_all p (set_read now) docs) ≡ false
unread_left p now [] h = refl
unread_left p now (d ∷ ds) h = ground (arith, h d, unread_left p now ds h)

-- `mark_all_read` counts the unread notifications of the store that the user may see, and leaves none
-- of them unread.
pub mark_all_read_complete :
    (db : Notifications) (store_id user_id : String) (now : ℕ) (docs : List Notification)
    → let p : Notification → Bool =
        λ d. d.content.store_id == store_id && (is_unread d && is_visible user_id d) in
      let (docs', updated_count) = mark_all_read db store_id user_id now docs in
      (updated_count ≡ tally p docs)
      × (any p docs' ≡ false)
      × (docs' ≡ update_all p (set_read now) docs)
unfolding mark_all_read
mark_all_read_complete db store_id user_id now docs =
    let p : Notification → Bool =
      λ d. d.content.store_id == store_id && (is_unread d && is_visible user_id d) in
    let read : (d : Notification) → p (set_read now d) ≡ false = λ d. ground arith in
    (
      db.update_many_modified p (set_read now) docs (λ d h e. ground (arith, read d, ap p e)),
      rw db.update_many_docs (unread_left p now docs read),
      db.update_many_docs p (set_read now) docs,
    )
