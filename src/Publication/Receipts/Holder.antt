-- ===== src/Publication/Receipts/Holder.antt =====
-- Who may finish a publication: the holder of the receipt's claim, and nobody else.
use driveparts_websockets.Prelude.{
  ℕ, ◌≡◌, ◌≢◌, ap, Bool, true, false, none, some, List, String, arith, any, first, update_first,
  remove_first, eq_iff, and-left, ◌⊎◌, update_first_none, remove_first_none,
}
use driveparts_websockets.Mongo.Unique.{IsUnique, any_by_key, any_of_first, first-update_first}
use driveparts_websockets.Publication.{ResultInput}
use driveparts_websockets.Publication.Receipts.{
  Receipt, Receipts, published, has_key, holds, conflicts, publish, mark_published, release,
}

-- Documents with one key conflict.
pub has_key-conflicts :
    (store key : String) (d e : Receipt)
    → has_key store key d ≡ true
    → has_key store key e ≡ true
    → conflicts d e ≡ true
has_key-conflicts store key d e h k = ground (
  arith,
  eq_iff d.store_id store,
  eq_iff d.idempotency_key key,
  eq_iff e.store_id store,
  eq_iff e.idempotency_key key,
  eq_iff e.store_id d.store_id,
  eq_iff e.idempotency_key d.idempotency_key,
)

pub holds-has_key :
    (store key print claim_id : String) (d : Receipt)
    → holds store key print claim_id d ≡ true
    → has_key store key d ≡ true
holds-has_key store key print claim_id d h = and-left (has_key store key d) _ h

publish-ne :
    (store key print claim_id : String) (now : ℕ) (d : Receipt)
    → holds store key print claim_id d ≡ true
    → publish now d ≢ d
publish-ne store key print claim_id now d h e = ground (arith, ap (λ (r : Receipt). r.state) e)

module _ (fingerprint_of : ResultInput → String) (db : Receipts) (input : ResultInput) where
  abbrev pub ours : Receipt → Bool
  ours = has_key input.store_id input.idempotency_key

  abbrev pub held : String → Receipt → Bool
  held = holds input.store_id input.idempotency_key (fingerprint_of input)

  pub mark_published_modified :
      (claim_id : String) (now : ℕ) (docs : List Receipt)
      → mark_published fingerprint_of db input claim_id now docs
        ≡ (update_first (held claim_id) (publish now) docs, any (held claim_id) docs)
  unfolding mark_published
  mark_published_modified claim_id now docs = ground (
    arith,
    db.update_one_docs (held claim_id) (publish now) docs,
    db.update_one_modified (held claim_id) (publish now) docs (publish-ne _ _ _ claim_id now),
  )

  pub release_deleted :
      (claim_id : String) (docs : List Receipt)
      → release fingerprint_of db input claim_id docs
        ≡ (remove_first (held claim_id) docs, any (held claim_id) docs)
  unfolding release
  release_deleted claim_id docs = ground (arith, db.delete_one_lem (held claim_id) docs)

  -- While another process holds the claim on the result, or the result is published, a process that
  -- lost its claim can neither mark the result as published nor release it: both calls answer false
  -- and the collection stays as it is.
  pub finish_needs_claim :
      (claim_id : String) (now : ℕ) (docs : List Receipt) (r : Receipt)
      → IsUnique conflicts docs
      → first ours docs ≡ some r
      → (r.claim_id ≢ claim_id) ⊎ (r.state ≡ published)
      → (mark_published fingerprint_of db input claim_id now docs ≡ (docs, false))
        × (release fingerprint_of db input claim_id docs ≡ (docs, false))
  finish_needs_claim claim_id now docs r u h lost =
      let lost_held : held claim_id r ≡ false = ground (arith, eq_iff r.claim_id claim_id) in
      let nobody : any (held claim_id) docs ≡ false =
        any_by_key conflicts (held claim_id) ours docs r (holds-has_key _ _ _ claim_id)
          (has_key-conflicts _ _) u h lost_held in
      (
        ground (
          arith,
          mark_published_modified claim_id now docs,
          update_first_none (held claim_id) (publish now) docs,
        ),
        ground (arith, release_deleted claim_id docs, remove_first_none (held claim_id) docs),
      )

  -- The holder of the claim marks the result as published: the call answers true, and the receipt of
  -- the key is the old one with the state published, the time in published_at, and no locked_at.
  pub mark_published_by_holder :
      (claim_id : String) (now : ℕ) (docs : List Receipt) (r : Receipt)
      → first ours docs ≡ some r
      → held claim_id r ≡ true
      → ((mark_published fingerprint_of db input claim_id now docs).1 ≡ true)
        × (first ours (mark_published fingerprint_of db input claim_id now docs).0
            ≡ some (record r { state = published; locked_at = none; published_at = some now }))
  mark_published_by_holder claim_id now docs r h own = (
    ground (
      arith,
      mark_published_modified claim_id now docs,
      any_of_first (held claim_id) ours docs r,
    ),
    rw mark_published_modified (
        first-update_first (held claim_id) ours (publish now) docs r (holds-has_key _ _ _ claim_id)
          h own (holds-has_key _ _ _ claim_id r own)),
  )
