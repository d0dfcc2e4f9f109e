-- ===== src/Notifications/Create.antt =====
-- A notification with an idempotency key is created at most once.
use mathlib.Core.Bool.{true≢false}
use driveparts_websockets.Prelude.{
  ◌⊎◌, sym, ◌↔◌, ◌&&◌, Bool-cases, inl, inr, is_some, eq_iff, opt_eq_iff, ℕ, ◌≡◌, ◌∙◌, refl, Bool,
  true, false, Option, none, some, List, [], ◌∷◌, ◌++◌, String, arith, eq_refl, opt_eq, any, first,
  first-eq-none,
}
use driveparts_websockets.Mongo.Unique.{first-append}
use driveparts_websockets.Value.{Fields}
use driveparts_websockets.Notifications.{
  Content, Notification, Notifications, NotificationType-discrete, Severity-discrete,
  Source-discrete, Entity-discrete, is_yes, conflicts, present_text,
}
use driveparts_websockets.Notifications.Creating.{
  new_notification, CreateResult, created, existing, conflict, has_key, matches, return_existing,
  create_notification_with_result,
}

is_yes_refl {ℓ} : {A : Type ℓ} (d : Discrete A) (a : A) → is_yes (d a a) ≡ true
is_yes_refl d a = elim (d a a) as (λ x. is_yes x ≡ true) [ yes _ ↦ refl | no n ↦ absurd (n refl) ]

is_yes_iff {ℓ} : {A : Type ℓ} (d : Discrete A) (a b : A) → (is_yes (d a b) ≡ true) ↔ (a ≡ b)
is_yes_iff d a b = elim (d a b) as (λ x. (is_yes x ≡ true) ↔ (a ≡ b)) [
  | yes e ↦ ((λ _. e), (λ _. refl))
  | no n ↦ ((λ h. absurd (ground arith)), (λ e. absurd (n e)))
]

and_iff {ℓ κ} :
    {P : Type ℓ} {Q : Type κ} (a b : Bool)
    → (a ≡ true) ↔ P
    → (b ≡ true) ↔ Q
    → (a && b ≡ true) ↔ (P × Q)
and_iff true b p q = ((λ h. (p.0 refl, q.0 h)), (λ (h, k). q.1 k))
and_iff false b p q = ((λ h. absurd (ground arith)), (λ (h, k). p.1 h))

opt_eq_refl : (o : Option String) → opt_eq o o ≡ true
opt_eq_refl none = refl
opt_eq_refl (some s) = eq_refl s

-- No optional text of the input is empty: the schema of the endpoint trims each and refuses an
-- empty one.
pub record IsTrimmed (input : Content) : Type 0 where
  pub user_id : present_text input.user_id ≡ input.user_id
  pub idempotency_key : present_text input.idempotency_key ≡ input.idempotency_key
  pub channel : present_text input.channel ≡ input.channel
  pub listing_id : present_text input.listing_id ≡ input.listing_id
  pub integration_id : present_text input.integration_id ≡ input.integration_id
  pub inventory_item_id : present_text input.inventory_item_id ≡ input.inventory_item_id
  pub external_listing_id : present_text input.external_listing_id ≡ input.external_listing_id

pub new_notification-content :
    (input : Content) (now _id : ℕ)
    → IsTrimmed input
    → (new_notification input now _id).content ≡ input
unfolding new_notification
new_notification-content input now _id t = ground (
  arith, t.user_id, t.idempotency_key, t.channel, t.listing_id, t.integration_id,
  t.inventory_item_id, t.external_listing_id,
)

module _ (deep_equal : Option Fields → Option Fields → Bool) where
  pub matches_refl :
      (input : Content)
      → deep_equal input.fields input.fields ≡ true
      → matches deep_equal input input ≡ true
  unfolding matches
  matches_refl input h = simp (
    eq_refl,
    opt_eq_refl,
    is_yes_refl NotificationType-discrete,
    is_yes_refl Severity-discrete,
    is_yes_refl Source-discrete,
    is_yes_refl Entity-discrete,
    h,
  )

  -- The contents are the same but for the key, the data as `deep_equal` compares them.
  abbrev pub SameContent : Content → Content → Type 0
  SameContent d input =
      (d.store_id ≡ input.store_id)
      × ((d.user_id ≡ input.user_id)
          × ((d.type ≡ input.type)
              × ((d.severity ≡ input.severity)
                  × ((d.source ≡ input.source)
                      × ((d.entity ≡ input.entity)
                          × ((d.title ≡ input.title)
                              × ((d.message ≡ input.message)
                                  × ((d.channel ≡ input.channel)
                                      × ((d.listing_id ≡ input.listing_id)
                                          × ((d.integration_id ≡ input.integration_id)
                                              × ((d.inventory_item_id ≡ input.inventory_item_id)
                                                  × ((d.external_listing_id
                                                        ≡ input.external_listing_id)
                                                      × (deep_equal d.fields input.fields
                                                          ≡ true)))))))))))))

  pub matches_iff : (d input : Content) → (matches deep_equal d input ≡ true) ↔ SameContent d input
  unfolding matches
  matches_iff d input = and_iff _ _ (eq_iff d.store_id input.store_id) (
      and_iff _ _ (opt_eq_iff d.user_id input.user_id) (
        and_iff _ _ (is_yes_iff NotificationType-discrete d.type input.type) (
          and_iff _ _ (is_yes_iff Severity-discrete d.severity input.severity) (
            and_iff _ _ (is_yes_iff Source-discrete d.source input.source) (
              and_iff _ _ (is_yes_iff Entity-discrete d.entity input.entity) (
                and_iff _ _ (eq_iff d.title input.title) (
                  and_iff _ _ (eq_iff d.message input.message) (
                    and_iff _ _ (opt_eq_iff d.channel input.channel) (
                      and_iff _ _ (opt_eq_iff d.listing_id input.listing_id) (
                        and_iff _ _ (opt_eq_iff d.integration_id input.integration_id) (
                          and_iff _ _ (opt_eq_iff d.inventory_item_id input.inventory_item_id) (
                            and_iff _ _ (opt_eq_iff d.external_listing_id input.external_listing_id)
                              (((λ h. h), (λ h. h)))))))))))))))

  existing_or_conflict :
      (d : Notification) (input : Content)
      → ((SameContent d.content input)
          × (return_existing deep_equal input d ≡ existing d (is_some d.realtime_published_at)))
        ⊎ ((¬ SameContent d.content input) × (return_existing deep_equal input d ≡ conflict))
  existing_or_conflict d input =
      let (to, from) = matches_iff d.content input in
      elim (Bool-cases (matches deep_equal d.content input)) [
        | inl equal ↦ inl (to equal, rw equal refl)
        | inr unequal ↦ inr ((λ same. true≢false (sym (from same) ∙ unequal)), rw unequal refl)
      ]

  module _ (db : Notifications) where
    abbrev create :
        (ℕ → List Notification → List Notification)
        → Content
        → ℕ
        → ℕ
        → List Notification
        → List Notification × CreateResult
    create = create_notification_with_result deep_equal db

    pub known_key :
        (between : ℕ → List Notification → List Notification) (input : Content) (now _id : ℕ)
        (docs : List Notification) (key : String) (d : Notification)
        → present_text input.idempotency_key ≡ some key
        → first (has_key input.store_id key) docs ≡ some d
        → create_notification_with_result deep_equal db between input now _id docs
          ≡ (docs, return_existing deep_equal input d)
    unfolding create_notification_with_result
    known_key between input now _id docs key d k h = rw (k, db.find_one_lem, h)

    -- A key that a notification of the store has already never gets a second one: the call changes
    -- nothing. If the request has that notification's content it is answered with that notification,
    -- and whether it was announced; if any part of the content differs the call reports the conflict.
    pub create_known_key :
        (between : ℕ → List Notification → List Notification) (input : Content) (now _id : ℕ)
        (docs : List Notification) (key : String) (d : Notification)
        → present_text input.idempotency_key ≡ some key
        → first (has_key input.store_id key) docs ≡ some d
        → let (after, answer) =
            create_notification_with_result deep_equal db between input now _id docs in
          (after ≡ docs)
          × (((SameContent d.content input)
                × (answer ≡ existing d (is_some d.realtime_published_at)))
              ⊎ ((¬ SameContent d.content input) × (answer ≡ conflict)))
    create_known_key between input now _id docs key d k h =
        rw (known_key between input now _id docs key d k h) (refl, existing_or_conflict d input)

    -- A race: the key was free when the call looked, and other processes then created `d` with it. The
    -- insertion is refused and the call changes nothing. If the request has the content of `d` it is
    -- answered with `d`, and whether it was announced; if any part of the content differs the call
    -- reports the conflict.
    pub create_lost_race :
        (between : ℕ → List Notification → List Notification) (input : Content) (now _id : ℕ)
        (docs : List Notification) (key : String) (d : Notification)
        → present_text input.idempotency_key ≡ some key
        → first (has_key input.store_id key) docs ≡ none
        → any (conflicts (new_notification input now _id)) (between 0 docs) ≡ true
        → first (has_key input.store_id key) (between 1 (between 0 docs)) ≡ some d
        → let (after, answer) =
            create_notification_with_result deep_equal db between input now _id docs in
          (after ≡ between 1 (between 0 docs))
          × (((SameContent d.content input)
                × (answer ≡ existing d (is_some d.realtime_published_at)))
              ⊎ ((¬ SameContent d.content input) × (answer ≡ conflict)))
    unfolding create_notification_with_result
    create_lost_race between input now _id docs key d k free taken found =
        rw (k, db.find_one_lem, free, db.insert_one_lem, taken, k, db.find_one_lem, found)
          (refl, existing_or_conflict d input)

    pub create_free :
        (input : Content) (now _id : ℕ) (docs : List Notification) (key : String)
        → present_text input.idempotency_key ≡ some key
        → first (has_key input.store_id key) docs ≡ none
        → any (conflicts (new_notification input now _id)) docs ≡ false
        → create_notification_with_result deep_equal db (λ _ d. d) input now _id docs
          ≡ (docs ++ new_notification input now _id ∷ [], created (new_notification input now _id))
    unfolding create_notification_with_result
    create_free input now _id docs key k free fresh =
        rw (k, db.find_one_lem, free, db.insert_one_lem, fresh)

    -- Sending the same notification twice creates it once: the first call creates it, the second
    -- changes nothing and returns what the first created.
    create_twice :
        (input : Content) (now later _id other : ℕ) (docs : List Notification) (key : String)
        → IsTrimmed input
        → deep_equal input.fields input.fields ≡ true
        → input.idempotency_key ≡ some key
        → any (has_key input.store_id key) docs ≡ false
        → any (conflicts (new_notification input now _id)) docs ≡ false
        → let d = new_notification input now _id in
          let once = create_notification_with_result deep_equal db (λ _ x. x) input now _id docs in
          let twice =
            create_notification_with_result deep_equal db (λ _ x. x) input later other once.0 in
          (once ≡ (docs ++ d ∷ [], created d)) × (twice ≡ (docs ++ d ∷ [], existing d false))
    create_twice input now later _id other docs key t e k free fresh =
        let d = new_notification input now _id in
        let p : present_text input.idempotency_key ≡ some key = t.idempotency_key ∙ k in
        let once =
          create_free input now _id docs key p
            (first-eq-none (has_key input.store_id key) docs free) fresh in
        let content : d.content ≡ input = new_notification-content input now _id t in
        let known : has_key input.store_id key d ≡ true = rw content (rw (eq_refl, k, eq_refl)) in
        let found : first (has_key input.store_id key) (docs ++ d ∷ []) ≡ some d =
          first-append (has_key input.store_id key) docs d free known in
        let again = known_key (λ _ x. x) input later other (docs ++ d ∷ []) key d p found in
        (
          once,
          rw once (again ∙ rw (content, matches_refl input e) (unfold new_notification in refl)),
        )
