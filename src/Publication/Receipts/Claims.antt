-- ===== src/Publication/Receipts/Claims.antt =====
-- What a claim answers, on every branch, whatever other processes do between its commands.
use driveparts_websockets.Prelude.{
  ℕ, ◌+◌, ◌<◌, ◌≡◌, ◌≢◌, refl, sym, ◌∙◌, Bool, true, false, ◌&&◌, Option, none, some, List, [], ◌∷◌,
  ◌++◌, String, arith, any, first, update_first, ◌==◌, eq_iff, eq_refl, Bool-cases, inl, inr,
  first-eq-some, first-eq-none, Option-cases, update_first_none,
}
use mathlib.Core.Option
use driveparts_websockets.Mongo.Unique.{
  IsUnique, any_of_first, any-update_self, any_at_key, any-append,
}
use driveparts_websockets.Publication.{ResultInput}
use driveparts_websockets.Publication.Receipts.{
  Receipt, Receipts, publishing, published, conflicts, publish, relock, is_publishing,
  still_as_read, new_receipt, ClaimResult, claimed, duplicate, busy, conflict, claim,
  claim_existing, reclaim, reclaimed, mark_published, stale_after,
}
use driveparts_websockets.Publication.Receipts.Holder.{ours, held, mark_published_by_holder}

-- The receipt of a claim that is in force.
abbrev pub in_force : String → String → Receipt → Bool
in_force fingerprint claim_id r =
    r.fingerprint == fingerprint && (is_publishing r.state && r.claim_id == claim_id)

relock-in_force :
    (existing r : Receipt) (fingerprint claim_id : String) (now : ℕ)
    → still_as_read existing fingerprint r ≡ true
    → in_force fingerprint claim_id (relock claim_id now r) ≡ true
relock-in_force existing r fingerprint claim_id now h = ground (arith, eq_refl claim_id)

relock-moved :
    (existing r : Receipt) (fingerprint claim_id : String) (now : ℕ)
    → claim_id ≢ existing.claim_id
    → still_as_read existing fingerprint (relock claim_id now r) ≡ false
relock-moved existing r fingerprint claim_id now h =
    ground (arith, eq_iff claim_id existing.claim_id)

-- Why a claim of a key with the receipt `r` is refused, and with what.
pub data Refusal (r : Receipt) (fingerprint : String) (now : ℕ) : ClaimResult → Type 0 where
  mismatch : r.fingerprint ≢ fingerprint → Refusal r fingerprint now conflict
  announced :
      r.fingerprint ≡ fingerprint → r.state ≡ published → Refusal r fingerprint now duplicate
  locked :
      (since : ℕ)
      → r.fingerprint ≡ fingerprint
      → r.state ≡ publishing
      → r.locked_at ≡ some since
      → now < since + stale_after
      → Refusal r fingerprint now busy

module _ (fingerprint_of : ResultInput → String) (db : Receipts) (input : ResultInput) where
  abbrev ours_here : Receipt → Bool
  ours_here = ours fingerprint_of db input

  abbrev pub created : ℕ → String → ℕ → Receipt
  created = new_receipt fingerprint_of input

  conflicts_new :
      (now _id : ℕ) (claim_id : String) (docs : List Receipt) (r : Receipt)
      → first ours_here docs ≡ some r
      → any (conflicts (created now claim_id _id)) docs ≡ true
  conflicts_new now _id claim_id docs r h =
      any_of_first (conflicts (created now claim_id _id)) ours_here docs r h
        (ground (arith, first-eq-some ours_here docs r))

  -- What a claim answers where the key has a receipt `r` when the claim reads it.
  pub claim_refused :
      (between : ℕ → List Receipt → List Receipt) (now : ℕ) (claim_id : String) (_id : ℕ)
      (docs : List Receipt) (old r : Receipt)
      → first ours_here docs ≡ some old
      → first ours_here (between 0 docs) ≡ some r
      → claim fingerprint_of db between input now claim_id _id docs
        ≡ claim_existing fingerprint_of db
            (between 1)
            (some r)
            (fingerprint_of input)
            claim_id
            now
            (between 0 docs)
  unfolding claim
  claim_refused between now claim_id _id docs old r h k =
      rw (db.insert_one_lem, conflicts_new now _id claim_id docs old h, db.find_one_lem, k)

  claim_existing_refused :
      (between : List Receipt → List Receipt) (now : ℕ) (claim_id : String) (docs : List Receipt)
      (r : Receipt) (answer : ClaimResult)
      → Refusal r (fingerprint_of input) now answer
      → claim_existing fingerprint_of db between (some r) (fingerprint_of input) claim_id now docs
        ≡ (docs, answer)
  unfolding claim_existing
  claim_existing_refused between now claim_id docs r _ (mismatch p) =
      ground (arith, eq_iff r.fingerprint (fingerprint_of input))
  claim_existing_refused between now claim_id docs r _ (announced p q) =
      ground (arith, eq_iff r.fingerprint (fingerprint_of input))
  claim_existing_refused between now claim_id docs r _ (locked since p q l t) =
      ground (arith, eq_iff r.fingerprint (fingerprint_of input))

  -- A claim of a key that has a receipt never inserts one. With `r` the receipt that it reads, it
  -- reports a conflict if the fingerprints differ, else a duplicate if the result is published, else
  -- busy if the lock is less than a minute old; the collection stays as the other processes left it.
  pub claim_of_existing :
      (between : ℕ → List Receipt → List Receipt) (now : ℕ) (claim_id : String) (_id : ℕ)
      (docs : List Receipt) (old r : Receipt) (answer : ClaimResult)
      → first ours_here docs ≡ some old
      → first ours_here (between 0 docs) ≡ some r
      → Refusal r (fingerprint_of input) now answer
      → claim fingerprint_of db between input now claim_id _id docs ≡ (between 0 docs, answer)
  claim_of_existing between now claim_id _id docs old r answer h k refusal =
      claim_refused between now claim_id _id docs old r h k
      ∙ claim_existing_refused (between 1) now claim_id (between 0 docs) r answer refusal

  pub reclaim_value :
      (existing : Receipt) (claim_id : String) (now : ℕ) (docs : List Receipt)
      → reclaim fingerprint_of db existing (fingerprint_of input) claim_id now docs ≡ (
        update_first (still_as_read existing (fingerprint_of input)) (relock claim_id now) docs,
        reclaimed fingerprint_of db
            (Option.map
              (relock claim_id now)
              (first (still_as_read existing (fingerprint_of input)) docs))
            claim_id,
      )
  unfolding reclaim
  reclaim_value existing claim_id now docs = rw db.find_one_and_update_lem

  reclaim_claimed :
      (existing : Receipt) (claim_id : String) (now : ℕ) (docs : List Receipt) (c : String)
      → (reclaim fingerprint_of db existing (fingerprint_of input) claim_id now docs).1 ≡ claimed c
      → (c ≡ claim_id)
        × (any
              (in_force (fingerprint_of input) c)
              (reclaim fingerprint_of db existing (fingerprint_of input) claim_id now docs).0
            ≡ true)
  reclaim_claimed existing claim_id now docs c =
      let p = still_as_read existing (fingerprint_of input) in
      rw (reclaim_value existing claim_id now docs) (elim (Option-cases (first p docs)) [
        | inl missed ↦ λ h. absurd (ground (arith, missed))
        | inr (r, found) ↦ λ h.
            let same : c ≡ claim_id = ground (arith, found) in
            (
              same,
              rw same (
                  any-update_self p (in_force (fingerprint_of input) claim_id) (relock claim_id now)
                    docs (λ d t. relock-in_force existing d (fingerprint_of input) claim_id now t)
                    (any_of_first p p docs r found (first-eq-some p docs r found))),
            )
      ])

  pub claim_fresh :
      (between : ℕ → List Receipt → List Receipt) (now : ℕ) (claim_id : String) (_id : ℕ)
      (docs : List Receipt)
      → any (conflicts (created now claim_id _id)) docs ≡ false
      → claim fingerprint_of db between input now claim_id _id docs
        ≡ (docs ++ created now claim_id _id ∷ [], claimed claim_id)
  unfolding claim
  claim_fresh between now claim_id _id docs h = rw (db.insert_one_lem, h)

  -- Two processes that read the same stale receipt and both try to take it over: the first command
  -- that finds the receipt as it was read claims the result; the second then finds no such receipt,
  -- answers busy, and changes nothing.
  pub takeover_wins_once :
      (existing r : Receipt) (winner loser : String) (now later : ℕ) (docs : List Receipt)
      → IsUnique conflicts docs
      → winner ≢ existing.claim_id
      → first (still_as_read existing (fingerprint_of input)) docs ≡ some r
      → let won = reclaim fingerprint_of db existing (fingerprint_of input) winner now docs in
        (won.1 ≡ claimed winner)
        × (reclaim fingerprint_of db existing (fingerprint_of input) loser later won.0
            ≡ (won.0, busy))
  takeover_wins_once existing r winner loser now later docs u h found =
      let p = still_as_read existing (fingerprint_of input) in
      let next = update_first p (relock winner now) docs in
      let gone : any p next ≡ false =
        any_at_key conflicts p (relock winner now) docs (λ d e t v. ground arith)
          (λ d. relock-moved existing d (fingerprint_of input) winner now h) u in
      rw (reclaim_value existing winner now docs) (
        ground (arith, found),
        rw (reclaim_value existing loser later next) (
            ground
              (arith, gone, first-eq-none p next, update_first_none p (relock loser later) next)),
      )

  claim_existing_claimed :
      (between : List Receipt → List Receipt) (now : ℕ) (claim_id : String) (docs : List Receipt)
      (o : Option Receipt) (c : String)
      → (claim_existing fingerprint_of db between o (fingerprint_of input) claim_id now docs).1
        ≡ claimed c
      → (c ≡ claim_id)
        × (any
              (in_force (fingerprint_of input) c)
              (claim_existing fingerprint_of db between o
                (fingerprint_of input)
                claim_id
                now
                docs).0
            ≡ true)
  unfolding claim_existing
  claim_existing_claimed between now claim_id docs none c h = absurd (ground arith)
  claim_existing_claimed between now claim_id docs (some r) c h =
      ground (arith, reclaim_claimed r claim_id now (between docs) c)

  new_in_force :
      (now : ℕ) (claim_id : String) (_id : ℕ)
      → in_force (fingerprint_of input) claim_id (created now claim_id _id) ≡ true
  new_in_force now claim_id _id = ground (arith, eq_refl claim_id, eq_refl (fingerprint_of input))

  -- A claim that is answered `claimed` is answered with its own claim id, and leaves a receipt with
  -- that claim id and the input's fingerprint that is still to be published, whatever the other
  -- processes did between its commands.
  claim_claimed :
      (between : ℕ → List Receipt → List Receipt) (now : ℕ) (claim_id : String) (_id : ℕ)
      (docs : List Receipt) (c : String)
      → (claim fingerprint_of db between input now claim_id _id docs).1 ≡ claimed c
      → (c ≡ claim_id)
        × (any
              (in_force (fingerprint_of input) c)
              (claim fingerprint_of db between input now claim_id _id docs).0
            ≡ true)
  claim_claimed between now claim_id _id docs c =
      elim (Bool-cases (any (conflicts (created now claim_id _id)) docs)) [
        | inr free ↦ rw (claim_fresh between now claim_id _id docs free) λ h.
            let same : claim_id ≡ c = ground arith in
            (
              sym same,
              rw (← same) (
                  ground (
                    arith,
                    any-append (in_force (fingerprint_of input) claim_id) docs
                        (created now claim_id _id),
                    new_in_force now claim_id _id,
                  )),
            )
        | inl taken ↦
            unfold claim in
            rw (db.insert_one_lem, taken)
              (claim_existing_claimed (between 1) now claim_id (between 0 docs) _ c)
      ]

  -- Once its holder has marked a result as published, a later claim of the same result, while the
  -- receipt is stored and with nothing between its commands, is answered `duplicate` and changes nothing.
  pub claim-after-mark_published :
      (mine other : String) (now later : ℕ) (_id : ℕ) (docs : List Receipt) (r : Receipt)
      → first ours_here docs ≡ some r
      → held fingerprint_of db input mine r ≡ true
      → let after = (mark_published fingerprint_of db input mine now docs).0 in
        claim fingerprint_of db (λ _ d. d) input later other _id after ≡ (after, duplicate)
  claim-after-mark_published mine other now later _id docs r h own =
      let after = (mark_published fingerprint_of db input mine now docs).0 in
      let stored : first ours_here after ≡ some (publish now r) =
        (mark_published_by_holder fingerprint_of db input mine now docs r h own).1 in
      claim_of_existing (λ _ d. d) later other _id after (publish now r) (publish now r) duplicate
        stored stored (announced (ground (arith, eq_iff r.fingerprint (fingerprint_of input))) refl)
