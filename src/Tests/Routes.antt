-- ===== src/Tests/Routes.antt =====
-- The internal routes at concrete inputs: a published listing whose first delivery fails.
use driveparts_websockets.Prelude.{
  ℕ, ◌≡◌, ◌≢◌, refl, true, false, none, some, List, [], ◌∷◌, ◌++◌, String, arith, eq_iff, eqb,
  contains, if◌then◌else◌,
}
use driveparts_websockets.Prelude.Splits.{split_commas, decimal}
use driveparts_websockets.Config.{AppConfig}
use driveparts_websockets.Mongo.{listed}
use driveparts_websockets.Effects.{World, undisturbed}
use driveparts_websockets.Publication.Receipts
use driveparts_websockets.Notifications
use driveparts_websockets.Gateway.{Around, Emission, publish_chat_message}
use driveparts_websockets.Gateway.Rooms.{
  build_room_injective, store_chat_attendant_room, chat_user_room,
}
use driveparts_websockets.Gateway.Audience.{assigned_message_is_private}
use driveparts_websockets.Http.Publications.{Calls, Stored, Moment, answered, refused, handle}
use driveparts_websockets.Http.Publications.Calm.{Clock, calm}
use driveparts_websockets.Http.Publications.AtLeastOnce.{alone}
use driveparts_websockets.Http.Publications.OnlyClaimed.{OnlyClaimed}
use driveparts_websockets.Attendance.{Responsible, Message, store_to_store, seller}
use driveparts_websockets.Tests.Ids.{ticked, ticked-NoColon, ticked_injective}
use driveparts_websockets.Gateway.{publish_notification}
use driveparts_websockets.Notifications.Creating.{new_notification}
use driveparts_websockets.Http.Notices.{handle_notification, notified_answer}
use driveparts_websockets.Http.Notices.Announced.{announced_until_marked}
use driveparts_websockets.Tests.Notices.{content}
use driveparts_websockets.Tests.Publications.{event, print, redact, no_date, document, listings}

splits_run :
    (split_commas "a.b,c" ≡ "a.b" ∷ "c" ∷ [])
    × (split_commas "" ≡ "" ∷ [])
    × (decimal 1024 ≡ "1024")
splits_run = (refl, refl, refl)

abbrev config : AppConfig
config = record {
  ecommerce_customer_rate_limit_window_seconds = 60;
  ecommerce_customer_rate_limit_max = 10;
  redis_socket_presence_time_to_live_seconds = 60;
  presence_persist_interval_seconds = 60;
  redis_key_prefix = "p";
  redis_sync_cache_time_to_live_seconds = 0;
  socket_enforce_permissions = true;
  socket_max_in_flight_events = 10;
  max_chat_message_length = 1000;
}

abbrev around : Around
around = record {
  base64url = λ s. s;
  to_hex = λ n. "7";
  config = config;
  bytes = λ s. [];
  sha256 = λ bytes. "h";
  ready = false;
}

abbrev calls : Calls
calls = record {
  integrations = listings;
  receipts = listed Receipts.conflicts;
  notifications = listed Notifications.conflicts;
  redact = redact;
  parse_date = no_date;
  fingerprint_of = print;
  deep_equal = λ a b. true;
  around = around;
}

abbrev versions : ℕ → String
versions i = "r"

abbrev clock : ℕ → String → ℕ → Clock
clock now claim_id receipt_id = record {
  claim_now = now;
  claim_id = claim_id;
  receipt_id = receipt_id;
  notification_now = now;
  notification_id = 1;
  published_now = now;
  version = versions;
}

-- The third call, which marks the receipt as published, is refused.
abbrev failing : Moment
failing = record (calm (clock 1000 "c1" 1)) { fate = λ i. if eqb i 2 then refused else answered }

abbrev start : World Stored
start = record {
  store = record {
    integrations = document "active" ∷ [];
    receipts = [];
    notifications = [];
    gateway = record { kv = []; emitted = [] };
  };
  sent = 0;
}

abbrev tried : World Stored
tried = (handle calls undisturbed (alone failing) event start).0

build_room_injective_example :
    (◌≡◌ {A = String} "store" "store") × (◌≡◌ {A = List String} ("loja" ∷ []) ("loja" ∷ []))
build_room_injective_example =
    build_room_injective ticked ticked-NoColon ticked_injective "store" "store" ("loja" ∷ [])
      ("loja" ∷ []) refl refl refl

abbrev encoding : Around
encoding = record around { base64url = ticked }

abbrev holder : Responsible
holder = record {
  store_id = "s2";
  user_id = "u2";
  user_name = "Ana";
  user_role = seller;
  assigned_at = 5;
}

abbrev message : Message
message = record {
  _id = 1;
  attendance_thread_id = "t";
  attendance_thread_key = "k";
  client_thread_id = none;
  channel = store_to_store;
  sender_store_id = "s1";
  recipient_store_id = "s2";
  sender_user_id = "u1";
  sender_user_name = none;
  sender_user_role = none;
  message_type = none;
  transfer = none;
  body = "oi";
  created_at = 5;
  attachments = none;
  reference = none;
  client_message_id = none;
  delivered_at = none;
  read_at = none;
  attendance_responsibles = some (holder ∷ []);
}

stores_differ : ◌≢◌ {A = String} "s1" "s2"
stores_differ = ground (arith, eq_iff "s1" "s2")

others_differ : ◌≢◌ {A = String} "u2" "u3"
others_differ = ground (arith, eq_iff "u2" "u3")

assigned_message_is_private_example :
    (e : Emission) × ((publish_chat_message encoding versions message start.store.gateway).emitted
      ≡ [] ++ e ∷ [])
    × (contains (store_chat_attendant_room ticked "s2" "master") e.rooms ≡ true)
    × (contains (chat_user_room ticked "s2" "u2") e.rooms ≡ true)
    × (contains (store_chat_attendant_room ticked "s2" "seller") e.rooms ≡ false)
    × (contains (chat_user_room ticked "s2" "u3") e.rooms ≡ false)
assigned_message_is_private_example =
    assigned_message_is_private encoding versions message holder start.store.gateway "u3"
      ticked-NoColon ticked_injective stores_differ refl others_differ

-- The marking of the announcement is refused.
abbrev unmarked : Moment
unmarked = record (calm (clock 1000 "c1" 1)) { fate = λ i. if eqb i 1 then refused else answered }

announced_until_marked_example :
    let tried = (handle_notification calls undisturbed (alone unmarked) content start).0 in
    let later = handle_notification calls undisturbed (calm (clock 2000 "c2" 2)) content tried in
    let n = new_notification content 1000 1 in
    (tried.store.gateway ≡ publish_notification around versions n start.store.gateway)
    × (later.1 ≡ notified_answer calls undisturbed (calm (clock 2000 "c2" 2)) false n)
    × (later.0.store.gateway ≡ publish_notification around versions n tried.store.gateway)
announced_until_marked_example =
    announced_until_marked calls content unmarked (clock 2000 "c2" 2) "k1" start
      (record {
        user_id = refl;
        idempotency_key = refl;
        channel = refl;
        listing_id = refl;
        integration_id = refl;
        inventory_item_id = refl;
        external_listing_id = refl;
      })
      refl refl refl refl refl
