-- ===== src/Http/Publications/AtLeastOnce.antt =====
-- However a delivery fails after its claim, the result is announced by it or by a later one: POST
-- /internal/publication-results of src/http/app.ts.
use driveparts_websockets.Prelude.{◌+◌, ◌≡◌, false, List, any, eqb}
use driveparts_websockets.Effects.{World}
use driveparts_websockets.Publication.{ResultInput}
use driveparts_websockets.Publication.Resolve.{Snapshot}
use driveparts_websockets.Publication.Receipts.{Receipt, ClaimResult, claim}
use driveparts_websockets.Http.Publications.{Calls, Stored, Moment}
use driveparts_websockets.Http.Publications.Calm.{Clock}

-- No other process acts while the calls of the request wait.
abbrev pub alone : Moment → Moment
alone m = record m { between = λ i d. d; inside = λ i d. d }

module _ (calls : Calls) (input : ResultInput) (snapshot : Snapshot) (moment : Moment) where
  abbrev claim_of : List Receipt → List Receipt × ClaimResult
  claim_of docs =
      claim calls.fingerprint_of calls.receipts (λ i d. d) input moment.claim_now moment.claim_id
        moment.receipt_id docs

  abbrev claimed_world : World Stored → World Stored
  claimed_world w = record {
    store = record w.store { receipts = (claim_of w.store.receipts).0 };
    sent = w.sent + 1 + 1;
  }

  abbrev FreshId : Clock → Stored → Type 0
  FreshId clock s = any (λ r. eqb r._id clock.receipt_id) s.receipts ≡ false
