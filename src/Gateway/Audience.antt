-- ===== src/Gateway/Audience.antt =====
-- Who is told of a message between stores: `publish_chat_message` of
-- src/socket/realtime_gateway.ts.
use driveparts_websockets.Prelude.{
  ℕ, ◌≡◌, ◌≢◌, refl, sym, true, false, ◌||◌, some, List, [], ◌∷◌, ◌++◌, String, arith, ◌==◌, eq_iff,
  eq_refl, contains, ◌⊎◌, Option-cases, Bool-cases, inl, inr,
}
use driveparts_websockets.Attendance.{Responsible, Message}
use driveparts_websockets.Gateway.{
  Around, add_room, responsible_of, add_chat_visibility_rooms, Gateway, Emission,
  publish_chat_message,
}
use driveparts_websockets.Gateway.Rooms.{
  build_room_injective, NoColon, store_chat_attendant_room, chat_user_room,
}

contains-append :
    (s r : String) (rooms : List String)
    → contains s (rooms ++ r ∷ []) ≡ (contains s rooms || r == s)
contains-append s r [] = ground arith
contains-append s r (x ∷ xs) = ground (arith, contains-append s r xs)

contains-add_room :
    (s r : String) (rooms : List String)
    → (r == s) ≡ false
    → contains s rooms ≡ false
    → contains s (add_room r rooms) ≡ false
contains-add_room s r rooms h k = elim (Bool-cases (contains r rooms)) [
  | inl old ↦ rw old k
  | inr new ↦ rw new (ground (arith, contains-append s r rooms))
]

contains-added : (r : String) (rooms : List String) → contains r (add_room r rooms) ≡ true
contains-added r rooms = elim (Bool-cases (contains r rooms)) [
  | inl old ↦ rw old old
  | inr new ↦ rw new (ground (arith, contains-append r r rooms, eq_refl r))
]

contains-kept :
    (s r : String) (rooms : List String)
    → contains s rooms ≡ true
    → contains s (add_room r rooms) ≡ true
contains-kept s r rooms h = elim (Bool-cases (contains r rooms)) [
  | inl old ↦ rw old h
  | inr new ↦ rw new (ground (arith, contains-append s r rooms))
]

not_equal : (a b : String) → a ≢ b → (a == b) ≡ false
not_equal a b h = elim (Bool-cases (a == b)) [
  | inl same ↦ absurd (h ((eq_iff a b).0 same))
  | inr differ ↦ differ
]

kinds_differ : ◌≢◌ {A = String} "chat_user" "store_chat_attendant"
kinds_differ = ground (arith, eq_iff "chat_user" "store_chat_attendant")

roles_differ : ◌≢◌ {A = String} "master" "seller"
roles_differ = ground (arith, eq_iff "master" "seller")

module _ (around : Around) (plain : (s : String) → NoColon (around.base64url s))
    (injective : (s t : String) → around.base64url s ≡ around.base64url t → s ≡ t)
    (version : ℕ → String) where
  abbrev sellers : String → String
  sellers store_id = store_chat_attendant_room around.base64url store_id "seller"

  sellers-user :
      (store_id other user_id : String)
      → (chat_user_room around.base64url other user_id == sellers store_id) ≡ false
  sellers-user store_id other user_id = not_equal _ _ λ e.
      let (kinds, parts) =
        build_room_injective around.base64url plain injective "chat_user" "store_chat_attendant" _ _
          refl refl e in
      kinds_differ kinds

  sellers-masters :
      (store_id other : String)
      → (store_chat_attendant_room around.base64url other "master" == sellers store_id) ≡ false
  sellers-masters store_id other = not_equal _ _ λ e.
      let (kinds, parts) =
        build_room_injective around.base64url plain injective "store_chat_attendant"
          "store_chat_attendant" _ _ refl refl e in
      roles_differ cc

  sellers-others :
      (store_id other : String) → other ≢ store_id → (sellers other == sellers store_id) ≡ false
  sellers-others store_id other h = not_equal _ _ λ e.
      let (kinds, parts) =
        build_room_injective around.base64url plain injective "store_chat_attendant"
          "store_chat_attendant" _ _ refl refl e in
      h cc

  user-attendants :
      (store_id user_id other role : String)
      → (store_chat_attendant_room around.base64url other role
          == chat_user_room around.base64url store_id user_id)
        ≡ false
  user-attendants store_id user_id other role = not_equal _ _ λ e.
      let (kinds, parts) =
        build_room_injective around.base64url plain injective "store_chat_attendant" "chat_user" _ _
          refl refl e in
      kinds_differ (sym kinds)

  user-users :
      (store_id user_id other other_user : String)
      → (other ≢ store_id) ⊎ (other_user ≢ user_id)
      → (chat_user_room around.base64url other other_user
          == chat_user_room around.base64url store_id user_id)
        ≡ false
  user-users store_id user_id other other_user (inl h) = not_equal _ _ λ e.
      let (kinds, parts) =
        build_room_injective around.base64url plain injective "chat_user" "chat_user" _ _ refl refl
          e in
      h cc
  user-users store_id user_id other other_user (inr h) = not_equal _ _ λ e.
      let (kinds, parts) =
        build_room_injective around.base64url plain injective "chat_user" "chat_user" _ _ refl refl
          e in
      h cc

  module _ (m : Message) (store_id user_id : String) where
    -- A user is not among the rooms where the rooms so far do not have the user, and the side that is
    -- added is another store's or has another responsible user.
    user-side :
        (side : String) (rooms : List String)
        → (side ≢ store_id)
          ⊎ ((r : Responsible) × (responsible_of side m.attendance_responsibles ≡ some r)
              × (r.user_id ≢ user_id))
        → contains (chat_user_room around.base64url store_id user_id) rooms ≡ false
        → contains
            (chat_user_room around.base64url store_id user_id)
            (add_chat_visibility_rooms around version side m.attendance_responsibles rooms)
          ≡ false
    unfolding add_chat_visibility_rooms
    user-side side rooms why k =
        let with_master : contains (chat_user_room around.base64url store_id user_id)
              (add_room (store_chat_attendant_room around.base64url side "master") rooms)
            ≡ false =
          contains-add_room _ _ rooms (user-attendants store_id user_id side "master") k in
        elim why [
          | inr (r, held, differ) ↦ rw held (
              contains-add_room _ _ _ (user-users store_id user_id side r.user_id (inr differ))
                with_master)
          | inl other ↦ elim (Option-cases (responsible_of side m.attendance_responsibles)) [
            | inl free ↦ rw free (
                contains-add_room _ _ _ (user-attendants store_id user_id side "seller")
                  with_master)
            | inr (r, held) ↦ rw held (
                contains-add_room _ _ _ (user-users store_id user_id side r.user_id (inl other))
                  with_master)
          ]
        ]

  module _ (m : Message) (store_id : String) where
    -- A store's sellers are not among the rooms where the rooms so far do not have them, and the
    -- side that is added is another store's or has a responsible user.
    sellers-side :
        (side : String) (rooms : List String)
        → (side ≢ store_id)
          ⊎ ((r : Responsible) × (responsible_of side m.attendance_responsibles ≡ some r))
        → contains (sellers store_id) rooms ≡ false
        → contains
            (sellers store_id)
            (add_chat_visibility_rooms around version side m.attendance_responsibles rooms)
          ≡ false
    unfolding add_chat_visibility_rooms
    sellers-side side rooms why k =
        let with_master : contains (sellers store_id)
              (add_room (store_chat_attendant_room around.base64url side "master") rooms)
            ≡ false =
          contains-add_room _ _ rooms (sellers-masters store_id side) k in
        elim why [
          | inr (r, held) ↦
              rw held (contains-add_room _ _ _ (sellers-user store_id side r.user_id) with_master)
          | inl other ↦ elim (Option-cases (responsible_of side m.attendance_responsibles)) [
            | inl free ↦
                rw free (contains-add_room _ _ _ (sellers-others store_id side other) with_master)
            | inr (r, held) ↦
                rw held (contains-add_room _ _ _ (sellers-user store_id side r.user_id) with_master)
          ]
        ]

module _ (around : Around) (version : ℕ → String) (m : Message) (r : Responsible)
    (rooms : List String)
    (held : responsible_of m.recipient_store_id m.attendance_responsibles ≡ some r) where
  abbrev with_recipient : List String
  with_recipient =
      add_chat_visibility_rooms around version m.recipient_store_id m.attendance_responsibles rooms

  recipient_master :
      contains
        (store_chat_attendant_room around.base64url m.recipient_store_id "master")
        with_recipient
      ≡ true
  unfolding add_chat_visibility_rooms
  recipient_master =
      let master_room = store_chat_attendant_room around.base64url m.recipient_store_id "master" in
      rw held (
        contains-kept master_room (chat_user_room around.base64url m.recipient_store_id r.user_id)
          (add_room master_room rooms) (contains-added master_room rooms))

  recipient_user :
      contains (chat_user_room around.base64url m.recipient_store_id r.user_id) with_recipient
      ≡ true
  unfolding add_chat_visibility_rooms
  recipient_user = rw held (
      contains-added (chat_user_room around.base64url m.recipient_store_id r.user_id)
        (add_room (store_chat_attendant_room around.base64url m.recipient_store_id "master") rooms))

-- Where the recipient is not the sender's store and has a responsible user in the message's thread, the
-- emission of `publish_chat_message` is sent to the recipient's master room and to that user, and
-- neither to the room of the recipient's sellers nor to any other user of the recipient. base64url is
-- injective and writes no colon.
pub assigned_message_is_private :
    (around : Around) (version : ℕ → String) (m : Message) (r : Responsible) (g : Gateway)
    (user_id : String)
    → ((s : String) → NoColon (around.base64url s))
    → ((s t : String) → around.base64url s ≡ around.base64url t → s ≡ t)
    → m.sender_store_id ≢ m.recipient_store_id
    → responsible_of m.recipient_store_id m.attendance_responsibles ≡ some r
    → r.user_id ≢ user_id
    → (e : Emission) × ((publish_chat_message around version m g).emitted ≡ g.emitted ++ e ∷ [])
      × (contains (store_chat_attendant_room around.base64url m.recipient_store_id "master") e.rooms
          ≡ true)
      × (contains (chat_user_room around.base64url m.recipient_store_id r.user_id) e.rooms ≡ true)
      × (contains (store_chat_attendant_room around.base64url m.recipient_store_id "seller") e.rooms
          ≡ false)
      × (contains (chat_user_room around.base64url m.recipient_store_id user_id) e.rooms ≡ false)
unfolding publish_chat_message
assigned_message_is_private around version m r g user_id plain injective differ held another =
    let away = sellers-side around plain injective version m m.recipient_store_id in
    let apart = user-side around plain injective version m m.recipient_store_id user_id in
    let own = chat_user_room around.base64url m.sender_store_id m.sender_user_id in
    let sender_rooms =
      add_chat_visibility_rooms around version m.sender_store_id m.attendance_responsibles
        (own ∷ []) in
    (
      _,
      refl,
      recipient_master around version m r sender_rooms held,
      recipient_user around version m r sender_rooms held,
      away m.recipient_store_id sender_rooms (inr (r, held)) (
          away m.sender_store_id (own ∷ []) (inl differ) (
            ground (
              arith,
              sellers-user around plain injective version m.recipient_store_id m.sender_store_id
                  m.sender_user_id,
            ))),
      apart m.recipient_store_id sender_rooms (inr (r, held, another)) (
          apart m.sender_store_id (own ∷ []) (inl differ) (
            ground (
              arith,
              user-users around plain injective version m.recipient_store_id user_id
                  m.sender_store_id m.sender_user_id (inl differ),
            ))),
    )
