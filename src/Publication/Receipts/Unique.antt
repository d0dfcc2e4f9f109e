-- ===== src/Publication/Receipts/Unique.antt =====
-- The commands keep one receipt for each key.
use driveparts_websockets.Prelude.{
  ℕ, ◌≡◌, refl, List, String, arith, any, ◌==◌, eq_iff, eqb, Bool-cases, inl, inr, Option, none,
  some,
}
use driveparts_websockets.Mongo.Unique.{IsUnique, append-IsUnique, update_first-IsUnique, KeepsKey}
use driveparts_websockets.Publication.{ResultInput}
use driveparts_websockets.Publication.Receipts.{
  Receipt, Receipts, conflicts, publish, relock, claim, claim_existing, reclaim, mark_published,
}
use driveparts_websockets.Publication.Receipts.Holder.{mark_published_modified}
use driveparts_websockets.Publication.Receipts.Claims.{created, claim_fresh, reclaim_value}

eq_comm : (a b : String) → (a == b) ≡ (b == a)
eq_comm a b = ground (arith, eq_iff a b, eq_iff b a)

eqb_comm : (a b : ℕ) → eqb a b ≡ eqb b a
eqb_comm a b = ground arith

conflicts_comm : (d e : Receipt) → conflicts d e ≡ conflicts e d
conflicts_comm d e = rw (
  eqb_comm d._id e._id,
  eq_comm d.store_id e.store_id,
  eq_comm d.idempotency_key e.idempotency_key,
)

publish-KeepsKey : (now : ℕ) → KeepsKey conflicts (publish now)
publish-KeepsKey now = ((λ d e. refl), (λ d e. refl))

relock-KeepsKey : (claim_id : String) (now : ℕ) → KeepsKey conflicts (relock claim_id now)
relock-KeepsKey claim_id now = ((λ d e. refl), (λ d e. refl))

module _ (fingerprint_of : ResultInput → String) (db : Receipts) (input : ResultInput) where
  reclaim-IsUnique :
      (existing : Receipt) (claim_id : String) (now : ℕ) (docs : List Receipt)
      → IsUnique conflicts docs
      → IsUnique conflicts
          (reclaim fingerprint_of db existing (fingerprint_of input) claim_id now docs).0
  reclaim-IsUnique existing claim_id now docs u =
      rw (reclaim_value fingerprint_of db input existing claim_id now docs)
        (update_first-IsUnique conflicts _ _ (relock-KeepsKey claim_id now) docs u)

  claim_existing-IsUnique :
      (between : List Receipt → List Receipt) (o : Option Receipt) (claim_id : String) (now : ℕ)
      (docs : List Receipt)
      → ((xs : List Receipt) → IsUnique conflicts xs → IsUnique conflicts (between xs))
      → IsUnique conflicts docs
      → IsUnique conflicts
          (claim_existing fingerprint_of db between o (fingerprint_of input) claim_id now docs).0
  unfolding claim_existing
  claim_existing-IsUnique between none claim_id now docs b u = u
  claim_existing-IsUnique between (some r) claim_id now docs b u =
      ground (arith, reclaim-IsUnique r claim_id now (between docs) (b docs u))

  pub claim-IsUnique :
      (between : ℕ → List Receipt → List Receipt) (now : ℕ) (claim_id : String) (_id : ℕ)
      (docs : List Receipt)
      → ((i : ℕ) (xs : List Receipt) → IsUnique conflicts xs → IsUnique conflicts (between i xs))
      → IsUnique conflicts docs
      → IsUnique conflicts (claim fingerprint_of db between input now claim_id _id docs).0
  claim-IsUnique between now claim_id _id docs b u =
      elim (Bool-cases (any (conflicts (created fingerprint_of db input now claim_id _id)) docs)) [
        | inr free ↦
            rw (claim_fresh fingerprint_of db input between now claim_id _id docs free)
              (append-IsUnique conflicts conflicts_comm docs _ u free)
        | inl taken ↦
            unfold claim in
            rw (db.insert_one_lem, taken)
              (claim_existing-IsUnique (between 1) _ claim_id now (between 0 docs) (b 1)
                (b 0 docs u))
      ]

  pub mark_published-IsUnique :
      (now : ℕ) (claim_id : String) (docs : List Receipt)
      → IsUnique conflicts docs
      → IsUnique conflicts (mark_published fingerprint_of db input claim_id now docs).0
  mark_published-IsUnique now claim_id docs u =
      rw mark_published_modified (update_first-IsUnique conflicts _ _ (publish-KeepsKey now) docs u)
