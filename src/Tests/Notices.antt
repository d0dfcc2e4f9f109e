-- ===== src/Tests/Notices.antt =====
-- Notifications at concrete inputs.
use driveparts_websockets.Prelude.{
  ◌⊎◌, ℕ, suc, ◌≤◌, ◌≡◌, refl, Bool, true, false, ◌&&◌, Option, none, some, List, [], ◌∷◌, String,
  ◌==◌, if◌then◌else◌, any, first, tally, length, take, drop, ltb, All, update_all, trim,
}
use driveparts_websockets.Mongo.{listed, sorted, SortedReads}
use driveparts_websockets.Mongo.Unique.{IsUnique}
use driveparts_websockets.Value.{Fields}
use driveparts_websockets.Notifications.{
  Content, Notification, Notifications, listing_updated, info, driveparts, listing, conflicts,
  is_unread, is_visible,
}
use driveparts_websockets.Notifications.Creating.{
  existing, conflict, new_notification, create_notification_with_result, has_key,
}
use driveparts_websockets.Notifications.Listing.{ListInput, wanted, list_notifications}
use driveparts_websockets.Notifications.Marking.{mark_read, mark_all_read, readable, set_read}
use driveparts_websockets.Notifications.Create.{SameContent, create_known_key, create_lost_race}
use driveparts_websockets.Notifications.Read.{mark_read_once, mark_all_read_complete}
use driveparts_websockets.Notifications.Pages.{
  after_id, following, list_notifications-wanted, pages_follow,
}

abbrev pub content : Content
content = record {
  store_id = "s1";
  user_id = some "u1";
  type = listing_updated;
  severity = info;
  source = driveparts;
  entity = listing;
  title = "t";
  message = "m";
  idempotency_key = some "k1";
  channel = none;
  listing_id = none;
  integration_id = none;
  inventory_item_id = none;
  external_listing_id = none;
  fields = none;
}

abbrev always_equal : Option Fields → Option Fields → Bool
always_equal a b = true

abbrev db : Notifications
db = listed conflicts

abbrev idle : ℕ → List Notification → List Notification
idle i docs = docs

abbrev one : Notification
one = new_notification content 1000 7

one_known : first (has_key "s1" "k1") (one ∷ []) ≡ some one
unfolding new_notification
one_known = refl

create_known_key_example :
    let (after, answer) =
      create_notification_with_result always_equal db idle content 2000 8 (one ∷ []) in
    (after ≡ one ∷ [])
    × (((SameContent always_equal one.content content) × (answer ≡ existing one false))
        ⊎ ((¬ SameContent always_equal one.content content) × (answer ≡ conflict)))
unfolding new_notification
create_known_key_example =
    create_known_key always_equal db idle content 2000 8 (one ∷ []) "k1" one refl one_known

-- Another process creates the notification while the call waits.
abbrev rival : ℕ → List Notification → List Notification
rival ℕ.zero docs = one ∷ docs
rival (suc i) docs = docs

taken : any (conflicts (new_notification content 2000 8)) (one ∷ []) ≡ true
unfolding new_notification
taken = refl

create_lost_race_example :
    let (after, answer) = create_notification_with_result always_equal db rival content 2000 8 [] in
    (after ≡ one ∷ [])
    × (((SameContent always_equal one.content content) × (answer ≡ existing one false))
        ⊎ ((¬ SameContent always_equal one.content content) × (answer ≡ conflict)))
unfolding new_notification
create_lost_race_example =
    create_lost_race always_equal db rival content 2000 8 [] "k1" one refl refl taken one_known

-- The text "7" is the id 7, "8" the id 8, and no other text is an id.
abbrev object_id_of : String → Option ℕ
object_id_of s = if s == "7" then some 7 else if s == "8" then some 8 else none

one-readable : first (λ e. readable "s1" "u1" 7 e && is_unread e) (one ∷ []) ≡ some one
unfolding new_notification is_visible trim
one-readable = refl

marked :
    (mark_read object_id_of db (λ x. x) "s1" "u1" "7" 3000 (one ∷ [])).1.notification
    ≡ some (set_read 3000 one)
unfolding mark_read new_notification is_visible trim
marked = refl

mark_read_once_example :
    let once = mark_read object_id_of db (λ x. x) "s1" "u1" "7" 3000 (one ∷ []) in
    let twice = mark_read object_id_of db (λ x. x) "s1" "u1" "7" 4000 once.0 in
    (once.1 ≡ record { notification = some (set_read 3000 one); changed = true })
    × (twice.0 ≡ once.0)
    × (twice.1.changed ≡ false)
mark_read_once_example =
    mark_read_once object_id_of db "s1" "u1" "7" 3000 4000 7 (one ∷ []) one refl (refl, tt)
      one-readable

mark_all_read_complete_example :
    let p : Notification → Bool =
      λ d. d.content.store_id == "s1" && (is_unread d && is_visible "u1" d) in
    let (docs', updated_count) = mark_all_read db "s1" "u1" 3000 (one ∷ []) in
    (updated_count ≡ tally p (one ∷ []))
    × (any p docs' ≡ false)
    × (docs' ≡ update_all p (set_read 3000) (one ∷ []))
mark_all_read_complete_example = mark_all_read_complete db "s1" "u1" 3000 (one ∷ [])

abbrev reads : SortedReads Notification (λ d. d._id)
reads = sorted (λ d. d._id)

abbrev two : Notification
two = new_notification (record content { idempotency_key = none }) 2000 8

abbrev stored : List Notification
stored = two ∷ one ∷ []

abbrev ask : ListInput
ask = record {
  store_id = "s1";
  user_id = "u1";
  before_notification_id = none;
  after_notification_id = none;
  unread_only = false;
  limit = 1;
}

list_notifications-wanted_example :
    All (λ d. wanted ask d ≡ true) (list_notifications object_id_of reads ask stored).notifications
    × (length (list_notifications object_id_of reads ask stored).notifications ≤ 1)
list_notifications-wanted_example = list_notifications-wanted object_id_of reads ask stored

-- Pages of one from the id 7 on: the page holds the id 8 alone.
newest :
    (list_notifications object_id_of reads (after_id ask "7") stored).newest_notification_id
    ≡ some 8
unfolding list_notifications new_notification is_visible trim
newest = refl

stored-IsUnique : IsUnique conflicts stored
unfolding new_notification
stored-IsUnique = (refl, (refl, tt))

pages_follow_example :
    let page = list_notifications object_id_of reads (after_id ask "7") stored in
    let next = list_notifications object_id_of reads (after_id ask "8") stored in
    (page.notifications ≡ take 1 (following ask 7 stored))
    × (page.has_more ≡ ltb 1 (length (following ask 7 stored)))
    × (next.notifications ≡ take 1 (drop 1 (following ask 7 stored)))
pages_follow_example =
    pages_follow object_id_of reads ask "7" "8" 7 8 stored stored-IsUnique refl refl refl refl
      newest
