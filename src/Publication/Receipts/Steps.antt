-- ===== src/Publication/Receipts/Steps.antt =====
-- Many processes at once: each command on the collection is a step, in any order.
use driveparts_websockets.Prelude.{
  ℕ, ◌≡◌, refl, List, String, arith, any, first, some, Bool-cases, inl, inr,
}
use driveparts_websockets.Mongo.Unique.{first-update_other, first-remove_other, first-append_old}
use driveparts_websockets.Publication.{ResultInput}
use driveparts_websockets.Publication.Receipts.{
  Receipt, Receipts, published, conflicts, publish, relock, has_key, new_receipt, reclaim,
  mark_published, release,
}
use driveparts_websockets.Publication.Receipts.Holder.{mark_published_modified, release_deleted}
use driveparts_websockets.Publication.Receipts.Claims.{reclaim_value}

module _ (fingerprint_of : ResultInput → String) (db : Receipts) where
  -- The commands of `claim`, `mark_published` and `release`, by any process at any time.
  pub data Step (docs : List Receipt) : List Receipt → Type 0 where
    insert :
        {docs' : List Receipt} (input : ResultInput) (now : ℕ) (claim_id : String) (_id : ℕ)
        → db.insert_one (new_receipt fingerprint_of input now claim_id _id) docs ≡ some docs'
        → Step docs docs'
    take_over :
        {docs' : List Receipt} (existing : Receipt) (input : ResultInput) (claim_id : String)
        (now : ℕ)
        → docs' ≡ (reclaim fingerprint_of db existing (fingerprint_of input) claim_id now docs).0
        → Step docs docs'
    finish :
        {docs' : List Receipt} (input : ResultInput) (claim_id : String) (now : ℕ)
        → docs' ≡ (mark_published fingerprint_of db input claim_id now docs).0
        → Step docs docs'
    give_up :
        {docs' : List Receipt} (input : ResultInput) (claim_id : String)
        → docs' ≡ (release fingerprint_of db input claim_id docs).0
        → Step docs docs'

  pub data Run (docs : List Receipt) : List Receipt → Type 0 where
    here : Run docs docs
    next : {mid docs' : List Receipt} → Run docs mid → Step mid docs' → Run docs docs'

  module _ (store key : String) (r : Receipt) (done : r.state ≡ published) where
    -- No command passes over a published receipt.
    Step-published :
        {docs docs' : List Receipt}
        → Step docs docs'
        → first (has_key store key) docs ≡ some r
        → first (has_key store key) docs' ≡ some r
    Step-published {docs} (insert input now claim_id _id e) h =
        elim (Bool-cases
          (any (conflicts (new_receipt fingerprint_of input now claim_id _id)) docs)) [
            | inl taken ↦ absurd (
                ground (
                  arith,
                  db.insert_one_lem (new_receipt fingerprint_of input now claim_id _id) docs,
                ))
            | inr free ↦ ground (
              arith,
              db.insert_one_lem (new_receipt fingerprint_of input now claim_id _id) docs,
              first-append_old (has_key store key) docs
                  (new_receipt fingerprint_of input now claim_id _id) r h,
            )
          ]
    Step-published {docs} (take_over existing input claim_id now e) h =
        rw (e, reclaim_value fingerprint_of db input existing claim_id now docs)
          (first-update_other _ (has_key store key) (relock claim_id now) docs r (λ d. refl) h
            (ground arith))
    Step-published {docs} (finish input claim_id now e) h =
        rw (e, mark_published_modified)
          (first-update_other _ (has_key store key) (publish now) docs r (λ d. refl) h
            (ground arith))
    Step-published {docs} (give_up input claim_id e) h =
        rw (e, release_deleted) (first-remove_other _ (has_key store key) docs r h (ground arith))

    Run-published :
        {docs docs' : List Receipt}
        → first (has_key store key) docs ≡ some r
        → Run docs docs'
        → first (has_key store key) docs' ≡ some r
    Run-published h here = h
    Run-published h (next run step) = Step-published step (Run-published h run)

-- A published receipt stays as it is through any interleaving of the commands of any processes, until
-- the database expires it: whatever they claim, mark or release, the key still finds it.
pub published_for_good :
    (fingerprint_of : ResultInput → String) (db : Receipts) (store key : String) (r : Receipt)
    (docs docs' : List Receipt)
    → r.state ≡ published
    → first (has_key store key) docs ≡ some r
    → Run fingerprint_of db docs docs'
    → first (has_key store key) docs' ≡ some r
published_for_good fingerprint_of db store key r docs docs' done h run =
    Run-published fingerprint_of db store key r done h run
