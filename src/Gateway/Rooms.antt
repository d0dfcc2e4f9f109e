-- ===== src/Gateway/Rooms.antt =====
-- The room names of src/socket/realtime_gateway.ts: a kind and the parts, each in base64url, with
-- colons between them. `base64url` is the text encoding of Buffer.
use Prim.Native.String
use driveparts_websockets.Prelude.{
  ◌≡◌, refl, sym, true, List, [], ◌∷◌, map, String, avoids, colon_injective, colon_missing, All,
}

-- `[kind, ...parts].join(':')`
abbrev join : String → List String → String
join kind [] = kind
join kind (part ∷ parts) = String.◌++◌ kind (String.◌++◌ ":" (join part parts))

module _ (base64url : String → String) where
  unfoldable pub build_room : String → List String → String
  build_room kind parts = join kind (map base64url parts)

  abbrev pub store_room : String → String
  store_room store_id = build_room "store" (store_id ∷ [])

  abbrev pub chat_user_room : String → String → String
  chat_user_room store_id user_id = build_room "chat_user" (store_id ∷ user_id ∷ [])

  abbrev pub notification_user_room : String → String → String
  notification_user_room store_id user_id = build_room "notification_user" (store_id ∷ user_id ∷ [])

  abbrev pub publication_store_room : String → String
  publication_store_room store_id = build_room "publication_store" (store_id ∷ [])

  abbrev pub support_request_store_room : String → String
  support_request_store_room store_id = build_room "support_request_store" (store_id ∷ [])

  abbrev pub support_request_queue_room : String
  support_request_queue_room = "support_request_queue"

  abbrev pub store_chat_attendant_room : String → String → String
  store_chat_attendant_room store_id user_role =
      build_room "store_chat_attendant" (store_id ∷ user_role ∷ [])

  abbrev pub ecommerce_store_attendant_room : String → String → String
  ecommerce_store_attendant_room store_id user_role =
      build_room "ecommerce_store_attendant" (store_id ∷ user_role ∷ [])

  abbrev pub marketplace_store_attendant_room : String → String → String
  marketplace_store_attendant_room store_id user_role =
      build_room "marketplace_store_attendant" (store_id ∷ user_role ∷ [])

  abbrev pub ecommerce_customer_room : String → String → String
  ecommerce_customer_room store_id visitor_id =
      build_room "ecommerce_customer" (store_id ∷ visitor_id ∷ [])

  abbrev pub ecommerce_presence_room : String → String
  ecommerce_presence_room store_id = build_room "ecommerce_presence" (store_id ∷ [])

  abbrev pub store_presence_listener_room : String → String
  store_presence_listener_room store_id = build_room "store_presence_listener" (store_id ∷ [])

abbrev pub NoColon : String → Type 0
NoColon s = avoids 58 s ≡ true

join_injective :
    (kind kind' : String) (parts parts' : List String)
    → NoColon kind
    → NoColon kind'
    → All NoColon parts
    → All NoColon parts'
    → join kind parts ≡ join kind' parts'
    → (kind ≡ kind') × (parts ≡ parts')
join_injective kind kind' [] [] k k' ps ps' e = (e, refl)
join_injective kind kind' [] (q ∷ qs) k k' ps ps' e =
    absurd (colon_missing kind' kind (join q qs) k (sym e))
join_injective kind kind' (p ∷ ps) [] k k' _ _ e =
    absurd (colon_missing kind kind' (join p ps) k' e)
join_injective kind kind' (p ∷ ps) (q ∷ qs) k k' (np, nps) (nq, nqs) e =
    let (same, rest) = colon_injective kind kind' (join p ps) (join q qs) k k' e in
    let (head, tail) = join_injective p q ps qs np nq nps nqs rest in (same, cc)

module _ (base64url : String → String) (plain : (s : String) → NoColon (base64url s))
    (injective : (s t : String) → base64url s ≡ base64url t → s ≡ t) where
  encoded-NoColon : (parts : List String) → All NoColon (map base64url parts)
  encoded-NoColon [] = tt
  encoded-NoColon (p ∷ ps) = (plain p, encoded-NoColon ps)

  map_injective : (ps qs : List String) → map base64url ps ≡ map base64url qs → ps ≡ qs
  map_injective [] [] e = refl
  map_injective [] (q ∷ qs) e = absurd cc
  map_injective (p ∷ ps) [] e = absurd cc
  map_injective (p ∷ ps) (q ∷ qs) e =
      let head : p ≡ q = injective p q cc in let tail : ps ≡ qs = map_injective ps qs cc in cc

  -- Two rooms of kinds without a colon have one name only if they are of the same kind and of the
  -- same store, user or visitor, whatever characters the ids are made of; base64url is injective and
  -- writes no colon.
  pub build_room_injective :
      (kind kind' : String) (parts parts' : List String)
      → NoColon kind
      → NoColon kind'
      → build_room base64url kind parts ≡ build_room base64url kind' parts'
      → (kind ≡ kind') × (parts ≡ parts')
  unfolding build_room
  build_room_injective kind kind' parts parts' k k' e =
      let (same, rest) =
        join_injective kind kind' _ _ k k' (encoded-NoColon parts) (encoded-NoColon parts') e in
      (same, map_injective parts parts' rest)
