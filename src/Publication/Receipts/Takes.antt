-- ===== src/Publication/Receipts/Takes.antt =====
-- When a claim that nobody disturbs is answered `claimed`, and what it leaves.
use driveparts_websockets.Prelude.{
  ◌++◌, ◌∷◌, [], ℕ, ◌+◌, ◌≤◌, ◌≡◌, refl, true, false, Option, none, some, List, String, arith, any,
  first, eq_iff, eq_refl, first-eq-some,
}
use driveparts_websockets.Mongo.Unique.{
  IsUnique, any-implies, first-append, first_unique, first-update_same,
}
use driveparts_websockets.Publication.{ResultInput}
use driveparts_websockets.Publication.Receipts.{
  Receipt, Receipts, publishing, conflicts, relock, is_publishing, still_as_read, ClaimResult,
  recently_locked, claimed, claim, claim_existing, reclaim, stale_after,
}
use driveparts_websockets.Publication.Receipts.Holder.{ours, held}
use driveparts_websockets.Publication.Receipts.Claims.{
  created, claim_refused, claim_fresh, reclaim_value,
}

not_recent :
    (locked_at : Option ℕ) (now : ℕ)
    → ((since : ℕ) → locked_at ≡ some since → since + stale_after ≤ now)
    → recently_locked locked_at now ≡ false
not_recent none now h = refl
not_recent (some since) now h = ground (arith, h since refl)

publishing_state : (r : Receipt) → r.state ≡ publishing → is_publishing r.state ≡ true
publishing_state r p = rw p refl

module _ (fingerprint_of : ResultInput → String) (db : Receipts) (input : ResultInput) where
  -- A result can be claimed: nothing conflicts with a new receipt, or there is a receipt of the same
  -- result that is still to be published and was locked a minute ago or before, if at all.
  pub data Claimable (now : ℕ) (claim_id : String) (_id : ℕ) (docs : List Receipt) : Type 0 where
    fresh :
        any (conflicts (created fingerprint_of db input now claim_id _id)) docs ≡ false
        → Claimable now claim_id _id docs
    stale :
        (r : Receipt)
        → IsUnique conflicts docs
        → first (ours fingerprint_of db input) docs ≡ some r
        → r.fingerprint ≡ fingerprint_of input
        → r.state ≡ publishing
        → ((since : ℕ) → r.locked_at ≡ some since → since + stale_after ≤ now)
        → Claimable now claim_id _id docs

  -- The claim is answered `claimed`, and the key finds a receipt that the claim
  -- holds since then.
  abbrev pub Taken : ℕ → String → List Receipt × ClaimResult → Type 0
  Taken now claim_id o =
      (o.1 ≡ claimed claim_id)
      × ((r : Receipt) × (first (ours fingerprint_of db input) o.0 ≡ some r)
          × (held fingerprint_of db input claim_id r ≡ true)
          × (r.locked_at ≡ some now))

  new_found :
      (now : ℕ) (claim_id : String) (_id : ℕ) (docs : List Receipt)
      → any (conflicts (created fingerprint_of db input now claim_id _id)) docs ≡ false
      → first
          (ours fingerprint_of db input)
          (docs ++ created fingerprint_of db input now claim_id _id ∷ [])
        ≡ some (created fingerprint_of db input now claim_id _id)
  new_found now claim_id _id docs free =
      let new = created fingerprint_of db input now claim_id _id in
      first-append (ours fingerprint_of db input) docs new
        (any-implies (ours fingerprint_of db input) (conflicts new) docs (λ d h. ground arith) free)
        (ground (arith, eq_refl input.store_id, eq_refl input.idempotency_key))

  -- A claim of a key without a receipt leaves the new one.
  pub new_taken :
      (now : ℕ) (claim_id : String) (_id : ℕ) (docs : List Receipt)
      → any (conflicts (created fingerprint_of db input now claim_id _id)) docs ≡ false
      → first
          (ours fingerprint_of db input)
          (claim fingerprint_of db (λ i d. d) input now claim_id _id docs).0
        ≡ some (created fingerprint_of db input now claim_id _id)
  new_taken now claim_id _id docs free =
      rw (claim_fresh fingerprint_of db input (λ i d. d) now claim_id _id docs free)
        (new_found now claim_id _id docs free)

  fresh-Taken :
      (now : ℕ) (claim_id : String) (_id : ℕ) (docs : List Receipt)
      → any (conflicts (created fingerprint_of db input now claim_id _id)) docs ≡ false
      → Taken now claim_id (claim fingerprint_of db (λ i d. d) input now claim_id _id docs)
  fresh-Taken now claim_id _id docs free =
      let new = created fingerprint_of db input now claim_id _id in
      rw (claim_fresh fingerprint_of db input (λ i d. d) now claim_id _id docs free) (
        refl,
        (
          new,
          new_found now claim_id _id docs free,
          ground (
            arith,
            eq_refl input.store_id,
            eq_refl input.idempotency_key,
            eq_refl claim_id,
            eq_refl (fingerprint_of input),
          ),
          refl,
        ),
      )

  as_read :
      (r : Receipt)
      → r.fingerprint ≡ fingerprint_of input
      → r.state ≡ publishing
      → still_as_read r (fingerprint_of input) r ≡ true
  as_read r f p = ground (arith, eq_iff r.fingerprint (fingerprint_of input), eq_refl r.claim_id)

  existing_reclaims :
      (now : ℕ) (claim_id : String) (docs : List Receipt) (r : Receipt)
      → r.fingerprint ≡ fingerprint_of input
      → r.state ≡ publishing
      → recently_locked r.locked_at now ≡ false
      → claim_existing fingerprint_of db (λ d. d) (some r) (fingerprint_of input) claim_id now docs
        ≡ reclaim fingerprint_of db r (fingerprint_of input) claim_id now docs
  unfolding claim_existing
  existing_reclaims now claim_id docs r f p old =
      rw ((eq_iff r.fingerprint (fingerprint_of input)).1 f, publishing_state r p, old) refl

  stale-Taken :
      (now : ℕ) (claim_id : String) (_id : ℕ) (docs : List Receipt) (r : Receipt)
      → IsUnique conflicts docs
      → first (ours fingerprint_of db input) docs ≡ some r
      → r.fingerprint ≡ fingerprint_of input
      → r.state ≡ publishing
      → ((since : ℕ) → r.locked_at ≡ some since → since + stale_after ≤ now)
      → Taken now claim_id (claim fingerprint_of db (λ i d. d) input now claim_id _id docs)
  stale-Taken now claim_id _id docs r u h f p old =
      let mine = ours fingerprint_of db input in
      let same = still_as_read r (fingerprint_of input) in
      let is_mine : mine r ≡ true = first-eq-some mine docs r h in
      let found : first same docs ≡ some r =
        first_unique conflicts same mine docs r (λ d t. ground arith) u h (as_read r f p) in
      rw
        (
          claim_refused fingerprint_of db input (λ i d. d) now claim_id _id docs r r h h,
          existing_reclaims now claim_id docs r f p (not_recent r.locked_at now old),
          reclaim_value fingerprint_of db input r claim_id now docs,
          found,
        )
        (
          refl,
          (
            relock claim_id now r,
            first-update_same same mine (relock claim_id now) docs r found h (as_read r f p) is_mine
                is_mine,
            ground (arith, is_mine, eq_refl claim_id, eq_iff r.fingerprint (fingerprint_of input)),
            refl,
          ),
        )

  pub claim-Taken :
      (now : ℕ) (claim_id : String) (_id : ℕ) (docs : List Receipt)
      → Claimable now claim_id _id docs
      → Taken now claim_id (claim fingerprint_of db (λ i d. d) input now claim_id _id docs)
  claim-Taken now claim_id _id docs (fresh free) = fresh-Taken now claim_id _id docs free
  claim-Taken now claim_id _id docs (stale r u h f p old) =
      stale-Taken now claim_id _id docs r u h f p old
