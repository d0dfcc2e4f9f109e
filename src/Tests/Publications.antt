-- ===== src/Tests/Publications.antt =====
-- Publication results at concrete inputs: a result with two processes that publish it, and the
-- listing's document.
use driveparts_websockets.Prelude.{
  ℕ, ◌≡◌, ◌≢◌, ◌↔◌, refl, true, false, Option, none, some, List, [], ◌∷◌, String, arith, first,
  eq_iff, inl,
}
use driveparts_websockets.Mongo.{listed}
use driveparts_websockets.Value.{
  undefined, string, object_id, boolean, integer, object, field, end, normalized_string,
}
use driveparts_websockets.Publication.{ResultInput, active}
use driveparts_websockets.Publication.Receipts.{
  Receipt, Receipts, conflicts, publish, relock, has_key, new_receipt, claim, claim_existing,
  reclaim, mark_published, release, claimed, duplicate, busy,
}
use driveparts_websockets.Publication.Receipts.Holder.{
  finish_needs_claim, mark_published_by_holder, ours,
}
use driveparts_websockets.Publication.Receipts.Claims.{
  takeover_wins_once, claim-after-mark_published,
}
use driveparts_websockets.Publication.Receipts.Steps.{here, next, take_over, published_for_good}
use driveparts_websockets.Publication.Resolve.{
  Integration, Integrations, never, matches_text, normalized_document_id, query, resolve, accepted,
  retry, Snapshot, snapshot,
}
use driveparts_websockets.Publication.Resolve.Accepts.{Confirms, resolve-accepted_iff}
use driveparts_websockets.Publication.Sanitize.{
  IsBounded, sanitize_publication_error, sanitize_publication_error-IsBounded,
}

abbrev pub event : ResultInput
event = record {
  idempotency_key = "listing_publication:d1:1";
  event_id = "e1";
  delivery_id = "d1";
  store_id = "s1";
  integration_id = "i1";
  inventory_item_id = "item1";
  channel = "shopee";
  status = active;
  execution_id = "e1:d1:1";
  attempt = 1;
  finished_at = "2026-01-01T00:00:00Z";
  operation = none;
  external_listing_id = none;
  error = none;
}

abbrev pub print : ResultInput → String
print i = i.execution_id

abbrev db : Receipts
db = listed conflicts

abbrev mine : Receipt
mine = new_receipt print event 1000 "c1" 1

abbrev finished : Receipt
finished = publish 2000 mine

abbrev idle : ℕ → List Receipt → List Receipt
idle i docs = docs

c1_ne_c2 : ◌≢◌ {A = String} "c1" "c2"
c1_ne_c2 = ground (arith, eq_iff "c1" "c2")

claim_runs :
    (claim print db idle event 1000 "c1" 1 [] ≡ (mine ∷ [], claimed "c1"))
    × (claim print db idle event 1500 "c2" 2 (mine ∷ []) ≡ (mine ∷ [], busy))
    × (claim print db idle event 61000 "c2" 2 (mine ∷ [])
        ≡ (relock "c2" 61000 mine ∷ [], claimed "c2"))
unfolding claim claim_existing reclaim
claim_runs = (refl, refl, refl)

finish_needs_claim_example :
    (mark_published print db event "c2" 2000 (mine ∷ []) ≡ (mine ∷ [], false))
    × (release print db event "c2" (mine ∷ []) ≡ (mine ∷ [], false))
finish_needs_claim_example =
    finish_needs_claim print db event "c2" 2000 (mine ∷ []) mine (refl, tt) refl (inl c1_ne_c2)

mark_published_by_holder_example :
    ((mark_published print db event "c1" 2000 (mine ∷ [])).1 ≡ true)
    × (first (ours print db event) (mark_published print db event "c1" 2000 (mine ∷ [])).0
        ≡ some finished)
mark_published_by_holder_example =
    mark_published_by_holder print db event "c1" 2000 (mine ∷ []) mine refl refl

takeover_wins_once_example :
    let won = reclaim print db mine (print event) "c2" 61000 (mine ∷ []) in
    (won.1 ≡ claimed "c2") × (reclaim print db mine (print event) "c3" 61001 won.0 ≡ (won.0, busy))
takeover_wins_once_example =
    takeover_wins_once print db event mine mine "c2" "c3" 61000 61001 (mine ∷ []) (refl, tt)
      (λ e. ground (arith, eq_iff "c2" "c1")) refl

first_claim : (claim print db idle event 1000 "c1" 1 []).1 ≡ claimed "c1"
unfolding claim
first_claim = refl

claim-after-mark_published_example :
    let after = (mark_published print db event "c1" 2000 (mine ∷ [])).0 in
    claim print db idle event 90000 "c2" 2 after ≡ (after, duplicate)
claim-after-mark_published_example =
    claim-after-mark_published print db event "c1" "c2" 2000 90000 2 (mine ∷ []) mine refl refl

abbrev stolen : List Receipt
stolen = (reclaim print db finished (print event) "c2" 61000 (finished ∷ [])).0

published_for_good_example : first (has_key "s1" "listing_publication:d1:1") stolen ≡ some finished
published_for_good_example =
    published_for_good print db "s1" "listing_publication:d1:1" finished (finished ∷ []) stolen refl
      refl (next here (take_over finished event "c2" 61000 refl))

abbrev pub redact : String → String
redact s = s

abbrev pub no_date : String → Option ℕ
no_date s = none

abbrev pub document : String → Integration
document status = record {
  _id = object_id "a1";
  store_id = string "s1";
  integration_id = string "i1";
  inventory_item_id = string "item1";
  channel = string "shopee";
  status = string status;
  execution_id = string " e1:d1:1 ";
  enabled = boolean true;
  updated_at = undefined;
  error = undefined;
}

abbrev pub listings : Integrations
listings = listed never

abbrev pub snap : Snapshot
snap = snapshot redact no_date event (document "active") active "a1"

confirms : Confirms redact no_date event (document "active") snap
confirms = record {
  status = unfold normalized_string in refl;
  execution = unfold normalized_string in refl;
  id = "a1";
  identified = unfold normalized_document_id normalized_string in refl;
  taken = refl;
}

resolve-accepted_iff_example :
    (resolve redact no_date listings event (document "active" ∷ []) ≡ accepted snap) ↔ (
      (d : Integration) × (first (query event) (document "active" ∷ []) ≡ some d)
      × Confirms redact no_date event d snap)
resolve-accepted_iff_example =
    resolve-accepted_iff redact no_date listings event (document "active" ∷ []) snap

found_document : first (query event) (document "active" ∷ []) ≡ some (document "active")
unfolding matches_text
found_document = refl

pub accepted_run : resolve redact no_date listings event (document "active" ∷ []) ≡ accepted snap
accepted_run = resolve-accepted_iff_example.1 (document "active", found_document, confirms)

retry_run : resolve redact no_date listings event (document "processing" ∷ []) ≡ retry
unfolding resolve matches_text normalized_string
retry_run = refl

sanitize_publication_error-IsBounded_example :
    IsBounded redact
      (sanitize_publication_error redact (object (field "status_code" (integer 429) end)))
sanitize_publication_error-IsBounded_example =
    sanitize_publication_error-IsBounded redact (object (field "status_code" (integer 429) end))
