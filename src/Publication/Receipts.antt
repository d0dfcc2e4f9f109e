-- ===== src/Publication/Receipts.antt =====
-- `claim`, `mark_published` and `release` of
-- src/repositories/publication_result_repository.ts: one receipt for each store and idempotency key
-- keeps a result from being announced twice while it is stored. Between two database commands of a
-- claim other processes may act: `between` is what they do to the collection at each wait.
pub mod Holder
pub mod Claims
pub mod Unique
pub mod Steps
pub mod Takes
use driveparts_websockets.Prelude.{
  ℕ, ◌+◌, ◌*◌, Bool, true, false, not, ◌&&◌, ◌||◌, Option, none, some, List, String, keep, ltb, eqb,
  ◌==◌, if◌then◌else◌,
}
use driveparts_websockets.Mongo.{Collection}
use driveparts_websockets.Publication.{ResultInput}

pub data ReceiptState : Type 0 where
  publishing published : ReceiptState

abbrev pub is_publishing : ReceiptState → Bool
is_publishing publishing = true
is_publishing published = false

-- Times are milliseconds, and `_id` numbers the ObjectIds in the order of their creation.
pub record Receipt : Type 0 where
  pub _id : ℕ
  pub store_id : String
  pub idempotency_key : String
  pub fingerprint : String
  pub state : ReceiptState
  pub claim_id : String
  pub locked_at : Option ℕ
  pub published_at : Option ℕ
  pub created_at : ℕ
  pub expires_at : ℕ

abbrev pub has_key : String → String → Receipt → Bool
has_key store_id idempotency_key r = r.store_id == store_id && r.idempotency_key == idempotency_key

-- The unique index on `_id`, which every collection has, and store_id_1_idempotency_key_1.
abbrev pub conflicts : Receipt → Receipt → Bool
conflicts a b = eqb a._id b._id || has_key a.store_id a.idempotency_key b

-- What the TTL index expires_at_1, with expireAfterSeconds 0, has left at the time `now`.
unfoldable pub expire : ℕ → List Receipt → List Receipt
expire now docs = keep (λ r. ltb now r.expires_at) docs

abbrev pub Receipts : Type 0
Receipts = Collection Receipt conflicts

pub data ClaimResult : Type 0 where
  claimed : String → ClaimResult
  duplicate busy : ClaimResult
  -- The call throws PublicationResultIdempotencyConflictError.
  conflict : ClaimResult

abbrev pub stale_after : ℕ
stale_after = 60000

-- `existing.locked_at && existing.locked_at > now - 60_000`
abbrev pub recently_locked : Option ℕ → ℕ → Bool
recently_locked none now = false
recently_locked (some locked_at) now = ltb now (locked_at + stale_after)

abbrev pub relock : String → ℕ → Receipt → Receipt
relock claim_id now r = record r { claim_id = claim_id; locked_at = some now }

abbrev pub publish : ℕ → Receipt → Receipt
publish now r = record r { state = published; locked_at = none; published_at = some now }

-- The receipt of the key, with this fingerprint, that this claim holds.
abbrev pub holds : String → String → String → String → Receipt → Bool
holds store_id idempotency_key fingerprint claim_id r =
    has_key store_id idempotency_key r
    && (r.fingerprint == fingerprint && (is_publishing r.state && r.claim_id == claim_id))

-- The filter of the reclaim: the receipt that was read, unchanged since.
abbrev pub still_as_read : Receipt → String → Receipt → Bool
still_as_read existing fingerprint r =
    eqb r._id existing._id
    && (is_publishing r.state && (r.fingerprint == fingerprint && r.claim_id == existing.claim_id))

-- `fingerprint_of` is the SHA-256 of the JSON text of the input.
module _ (fingerprint_of : ResultInput → String) where
  abbrev pub new_receipt : ResultInput → ℕ → String → ℕ → Receipt
  new_receipt input now claim_id _id = record {
    _id = _id;
    store_id = input.store_id;
    idempotency_key = input.idempotency_key;
    fingerprint = fingerprint_of input;
    state = publishing;
    claim_id = claim_id;
    locked_at = some now;
    published_at = none;
    created_at = now;
    expires_at = now + 7 * 24 * 60 * 60 * 1000;
  }

  module _ (db : Receipts) where
    abbrev pub reclaimed : Option Receipt → String → ClaimResult
    reclaimed none claim_id = busy
    reclaimed (some _) claim_id = claimed claim_id

    unfoldable pub reclaim :
        Receipt → String → String → ℕ → List Receipt → List Receipt × ClaimResult
    reclaim existing fingerprint claim_id now docs =
        let (docs', found) =
          db.find_one_and_update (still_as_read existing fingerprint) (relock claim_id now) docs in
        (docs', reclaimed found claim_id)

    -- What a claim does with the receipt that its read found.
    unfoldable pub claim_existing :
        (List Receipt → List Receipt)
        → Option Receipt
        → String
        → String
        → ℕ
        → List Receipt
        → List Receipt × ClaimResult
    claim_existing between none fingerprint claim_id now docs = (docs, busy)
    claim_existing between (some existing) fingerprint claim_id now docs =
        if not (existing.fingerprint == fingerprint)
        then (docs, conflict)
        else if not (is_publishing existing.state)
        then (docs, duplicate)
        else if recently_locked existing.locked_at now
        then (docs, busy)
        else reclaim existing fingerprint claim_id now (between docs)

    abbrev claim_inserted :
        (ℕ → List Receipt → List Receipt)
        → ResultInput
        → String
        → ℕ
        → Option (List Receipt)
        → List Receipt
        → List Receipt × ClaimResult
    claim_inserted between input claim_id now (some docs') docs = (docs', claimed claim_id)
    claim_inserted between input claim_id now none docs =
        let docs' = between 0 docs in
        claim_existing (between 1)
          (db.find_one (has_key input.store_id input.idempotency_key) docs') (fingerprint_of input)
          claim_id now docs'

    -- `now`, `claim_id` and `_id` are the clock, randomUUID() and the new ObjectId.
    unfoldable pub claim :
        (ℕ → List Receipt → List Receipt)
        → ResultInput
        → ℕ
        → String
        → ℕ
        → List Receipt
        → List Receipt × ClaimResult
    claim between input now claim_id _id docs =
        claim_inserted between input claim_id now
          (db.insert_one (new_receipt input now claim_id _id) docs) docs

    unfoldable pub mark_published : ResultInput → String → ℕ → List Receipt → List Receipt × Bool
    mark_published input claim_id now docs =
        let (docs', matched, modified) =
          db.update_one (holds input.store_id input.idempotency_key (fingerprint_of input) claim_id)
            (publish now) docs in
        (docs', eqb modified 1)

    unfoldable pub release : ResultInput → String → List Receipt → List Receipt × Bool
    release input claim_id docs =
        let (docs', deleted) =
          db.delete_one (holds input.store_id input.idempotency_key (fingerprint_of input) claim_id)
            docs in
        (docs', eqb deleted 1)
