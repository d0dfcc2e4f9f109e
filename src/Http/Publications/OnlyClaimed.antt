-- ===== src/Http/Publications/OnlyClaimed.antt =====
-- Nothing is emitted for a result that was not claimed: POST /internal/publication-results of
-- src/http/app.ts, whatever its calls do and whatever other processes do between them.
use driveparts_websockets.Prelude.{ℕ, ◌+◌, ◌≡◌, refl, ◌∙◌, ◌⊎◌, Bool, Option, none, some, String}
use driveparts_websockets.Effects.{World, Result, ok, err}
use driveparts_websockets.Effects.Keeps.{Keeps}
use driveparts_websockets.Publication.{ResultInput, Status, active, error}
use driveparts_websockets.Publication.Resolve.{Snapshot, accepted}
use driveparts_websockets.Publication.Receipts.{ClaimResult, claimed}
use driveparts_websockets.Notifications.{Notification}
use driveparts_websockets.Notifications.Creating
use driveparts_websockets.Notifications.Creating.{CreateResult}
use driveparts_websockets.Gateway.{Gateway}
use driveparts_websockets.Http.Events.{build_publication_error_notification}
use driveparts_websockets.Http.{Raised}
use driveparts_websockets.Http.Publications.{
  Calls, Stored, Moment, Route, resolving, claiming, creating, emissions,
}

abbrev SameGateway : Stored → Stored → Type 0
SameGateway s t = t.gateway ≡ s.gateway

abbrev Silent : {A : Type 0} → Route A → Type 0
Silent m = Keeps {E = Raised} SameGateway (λ s. refl) (λ s t u h k. k ∙ h) m

module _ (calls : Calls) (others : ℕ → Stored → Stored) (moment : Moment) (input : ResultInput)
    (h : (i : ℕ) (s : Stored) → (others i s).gateway ≡ s.gateway) where
  module _ (snapshot : Snapshot) where
    -- What the creation of the error notification answers.
    abbrev creation : Stored → CreateResult
    creation s =
        (creating calls others moment (build_publication_error_notification input snapshot) s).1

    -- The notification that goes with the result: none if it is published, else the one that the
    -- creation answers, which is one of the listing's store.
    abbrev pub GoesWith : Stored → Status → Option Notification → Type 0
    GoesWith s active n = n ≡ none
    GoesWith s error n =
        (d : Notification) × (n ≡ some d)
        × ((creation s ≡ Creating.created d)
            ⊎ ((announced : Bool) × (creation s ≡ Creating.existing d announced)))
        × (d.content.store_id ≡ snapshot.store_id)

    abbrev Answered : Stored → Status → World Stored × Result Raised (Option Notification) → Type 0
    Answered s status (w, ok n) = GoesWith s status n
    Answered s status (w, err e) = Unit

    -- The gateway as it was, or with the emissions of the result and what goes with it.
    abbrev pub Emits : Stored → Gateway → Gateway → Type 0
    Emits s g g' =
        (g' ≡ g)
        ⊎ ((n : Option Notification) × GoesWith s snapshot.status n
            × (g' ≡ emissions calls others moment input snapshot n g))

  -- The state in which the claim is made.
  abbrev pub at_claim : World Stored → Stored
  at_claim w = others (w.sent + 1) (others w.sent w.store)

  abbrev pub claim_answer : Stored → ClaimResult
  claim_answer s = (claiming calls others moment input s).1

  -- The state in which the notification is created.
  abbrev pub at_creation : World Stored → Stored
  at_creation w = others (w.sent + 1 + 1) (claiming calls others moment input (at_claim w)).0

  -- The gateway is as it was, or the result was accepted and claimed, and it was emitted and then the
  -- notification that goes with it, if one does.
  abbrev pub OnlyClaimed : World Stored → Gateway → Type 0
  OnlyClaimed w g =
      (g ≡ w.store.gateway)
      ⊎ ((snapshot : Snapshot) × ((resolving calls others moment input (others w.sent w.store)).1
            ≡ accepted snapshot)
          × ((claim_id : String) × (claim_answer (at_claim w) ≡ claimed claim_id))
          × ((n : Option Notification) × GoesWith snapshot (at_creation w) snapshot.status n
              × (g ≡ emissions calls others moment input snapshot n w.store.gateway)))
