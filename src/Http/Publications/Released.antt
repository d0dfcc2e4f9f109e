-- ===== src/Http/Publications/Released.antt =====
-- A delivery that fails after its claim gives the claim up: POST /internal/publication-results of
-- src/http/app.ts, whatever its calls do, when no other process acts.
use mathlib.Core.Path.{subst}
use driveparts_websockets.Prelude.{
  ◌+◌, ◌≡◌, refl, sym, ap, ◌∙◌, Bool, true, false, not, inr, Option, none, some, List, String,
  arith, any, first, eq_iff,
}
use driveparts_websockets.Effects.{
  World, Result, ok, err, command, undisturbed, ◌>>=◌, ◌>>◌, pure, throw, throw_if, continue, catch,
  handled,
}
use driveparts_websockets.Mongo.Unique.{IsUnique, first-remove_first}
use driveparts_websockets.Publication.{ResultInput, Status, active, error}
use driveparts_websockets.Publication.Resolve.{Snapshot}
use driveparts_websockets.Publication.Receipts.{
  Receipt, conflicts, publish, published, mark_published, release,
}
use driveparts_websockets.Publication.Receipts.Holder.{
  ours, held, holds-has_key, has_key-conflicts, mark_published_by_holder, release_deleted,
  finish_needs_claim,
}
use driveparts_websockets.Publication.Receipts.Unique.{mark_published-IsUnique}
use driveparts_websockets.Notifications.{Notification}
use driveparts_websockets.Notifications.Creating
use driveparts_websockets.Notifications.Creating.{CreateResult}
use driveparts_websockets.Http.{Response, Raised}
use driveparts_websockets.Http.Events.{build_publication_error_notification}
use driveparts_websockets.Http.Publications.{
  Calls, Stored, Moment, Fate, answered, refused, lost, call, fated, marking, releasing, creating,
  created_or_throw, notification_for, emissions, published_answer, finish, announce, give_up,
  receipt_lost,
}

module _ (calls : Calls) (moment : Moment) (input : ResultInput) where
  abbrev marked_at : String → List Receipt → List Receipt
  marked_at claim_id docs =
      (mark_published calls.fingerprint_of calls.receipts input claim_id moment.published_now
        docs).0

  -- How the announcing ends: with an error before the receipt was marked, or in any way after the
  -- result was emitted and the receipt marked.
  pub data Ended (snapshot : Snapshot) (claim_id : String) (s : Stored)
      : World Stored × Result Raised Response → Type 0 where
    unmarked :
        (w : World Stored) (e : Raised)
        → w.store.receipts ≡ s.receipts
        → Ended snapshot claim_id s (w, err e)
    marked :
        (w : World Stored) (o : Result Raised Response) (n : Option Notification)
        → w.store.receipts ≡ marked_at claim_id s.receipts
        → w.store.gateway ≡ emissions calls undisturbed moment input snapshot n s.gateway
        → Ended snapshot claim_id s (w, o)

  -- A call of a repository, by its fate.
  abbrev outcome :
      {A : Type 0} → Fate → (Stored → Stored × A) → World Stored → World Stored × Result Raised A
  outcome f c w =
      let (s, r) = fated f w.store (c w.store) in (record { store = s; sent = w.sent + 1 }, r)

  abbrev IsMarked : String → List Receipt → Type 0
  IsMarked claim_id docs =
      (mark_published calls.fingerprint_of calls.receipts input claim_id moment.published_now
        docs).1
      ≡ true

  module _ (snapshot : Snapshot) (claim_id : String) where
    abbrev emitted_at : Option Notification → World Stored → World Stored
    emitted_at n w = record w {
      store = record w.store {
        gateway = emissions calls undisturbed moment input snapshot n w.store.gateway;
      };
    }

    finish_by_fate :
        (f : Fate) (n : Option Notification) (w : World Stored)
        → IsMarked claim_id w.store.receipts
        → Ended snapshot claim_id w.store (
            continue
              (λ marked.
                throw_if (not marked) receipt_lost
                >> pure (published_answer calls undisturbed moment input snapshot n))
              (outcome f (marking calls undisturbed moment input claim_id) (emitted_at n w)))
    unfolding throw_if pure ◌>>=◌
    finish_by_fate answered n w h = rw h (marked _ _ n refl refl)
    finish_by_fate refused n w h = unmarked _ _ refl
    finish_by_fate lost n w h = marked _ _ n refl refl

    finish-Ended :
        (n : Option Notification) (w : World Stored)
        → IsMarked claim_id w.store.receipts
        → Ended snapshot claim_id w.store
            (finish calls undisturbed moment input snapshot claim_id n w)
    unfolding ◌>>=◌ call command
    finish-Ended n w h = finish_by_fate (moment.fate w.sent) n w h

    Ended-notifications :
        (s : Stored) (ns : List Notification) (o : World Stored × Result Raised Response)
        → Ended snapshot claim_id (record s { notifications = ns }) o
        → Ended snapshot claim_id s o
    Ended-notifications s ns o (unmarked w e h) = unmarked w e h
    Ended-notifications s ns o (marked w a n h g) = marked w a n h g

    created-Ended :
        (r : CreateResult) (w : World Stored)
        → IsMarked claim_id w.store.receipts
        → Ended snapshot claim_id w.store (
            (created_or_throw calls undisturbed moment r
                >>= finish calls undisturbed moment input snapshot claim_id)
              w)
    unfolding ◌>>=◌ pure throw
    created-Ended (Creating.created n) w h = finish-Ended (some n) w h
    created-Ended (Creating.existing n announced) w h = finish-Ended (some n) w h
    created-Ended Creating.conflict w h = unmarked _ _ refl
    created-Ended Creating.duplicate_key w h = unmarked _ _ refl

    create_by_fate :
        (f : Fate) (w : World Stored)
        → IsMarked claim_id w.store.receipts
        → Ended snapshot claim_id w.store (
            continue (finish calls undisturbed moment input snapshot claim_id) (
              continue (created_or_throw calls undisturbed moment) (
                outcome f
                  (creating calls undisturbed moment
                    (build_publication_error_notification input snapshot))
                  w)))
    unfolding ◌>>=◌
    create_by_fate answered w h = Ended-notifications w.store _ _ (created-Ended _ _ h)
    create_by_fate refused w h = unmarked _ _ refl
    create_by_fate lost w h = unmarked _ _ refl

    inner-Ended :
        (status : Status) (w : World Stored)
        → IsMarked claim_id w.store.receipts
        → Ended snapshot claim_id w.store (
            (notification_for calls undisturbed moment input snapshot status
                >>= finish calls undisturbed moment input snapshot claim_id)
              w)
    unfolding ◌>>=◌ call command pure
    inner-Ended active w h = finish-Ended none w h
    inner-Ended error w h = create_by_fate (moment.fate w.sent) w h

  abbrev pub ours_at : Receipt → Bool
  ours_at = ours calls.fingerprint_of calls.receipts input

  -- What a delivery that claimed the result, in the state `s`, leaves: the key free again, or the
  -- receipt as it was claimed, or a published receipt and the result emitted.
  pub data Settled (snapshot : Snapshot) (s t : Stored) : Type 0 where
    free : any ours_at t.receipts ≡ false → Settled snapshot s t
    held_on : t.receipts ≡ s.receipts → Settled snapshot s t
    done :
        (r : Receipt) (n : Option Notification)
        → first ours_at t.receipts ≡ some r
        → r.state ≡ published
        → r.fingerprint ≡ calls.fingerprint_of input
        → t.gateway ≡ emissions calls undisturbed moment input snapshot n s.gateway
        → Settled snapshot s t

  module _ (snapshot : Snapshot) (claim_id : String) where
    abbrev released_by : Fate → World Stored → World Stored × Result Raised Bool
    released_by f w = outcome f (releasing calls undisturbed moment input claim_id) w

    give_up_by_fate :
        (f : Fate) (e : Raised) (w : World Stored)
        → (continue
            (λ (u : Unit {0}). throw {A = Response} e)
            (handled
              (λ (x : Raised). pure tt)
              (continue (λ (released : Bool). pure tt) (released_by f w)))).0.store
          ≡ (released_by f w).0.store
    unfolding pure throw
    give_up_by_fate answered e w = refl
    give_up_by_fate refused e w = refl
    give_up_by_fate lost e w = refl

    give_up-store :
        (e : Raised) (w : World Stored)
        → (give_up calls undisturbed moment input claim_id e w).0.store
          ≡ (released_by (moment.fate w.sent) w).0.store
    unfolding ◌>>=◌ call command catch
    give_up-store e w = give_up_by_fate (moment.fate w.sent) e w

    abbrev held_at : Receipt → Bool
    held_at = held calls.fingerprint_of calls.receipts input claim_id

    released_gone :
        (r : Receipt) (docs : List Receipt)
        → IsUnique conflicts docs
        → first ours_at docs ≡ some r
        → held_at r ≡ true
        → any ours_at (release calls.fingerprint_of calls.receipts input claim_id docs).0 ≡ false
    released_gone r docs u h k =
        rw (release_deleted calls.fingerprint_of calls.receipts input claim_id docs) (
          first-remove_first conflicts held_at ours_at docs r (holds-has_key _ _ _ claim_id)
            (has_key-conflicts _ _) u h k)

    published_stays :
        (r : Receipt) (docs : List Receipt)
        → IsUnique conflicts docs
        → first ours_at docs ≡ some r
        → r.state ≡ published
        → first ours_at (release calls.fingerprint_of calls.receipts input claim_id docs).0 ≡ some r
    published_stays r docs u h p =
        let (marks, releases) =
          finish_needs_claim calls.fingerprint_of calls.receipts input claim_id moment.published_now
            docs r u h (inr p) in
        ap (λ (o : List Receipt × Bool). first ours_at o.0) releases ∙ h

    -- A receipt that the claim holds is removed, unless the call is refused.
    released_held :
        (f : Fate) (r : Receipt) (w : World Stored) (s : Stored)
        → IsUnique conflicts s.receipts
        → first ours_at s.receipts ≡ some r
        → held_at r ≡ true
        → w.store.receipts ≡ s.receipts
        → Settled snapshot s (released_by f w).0.store
    released_held answered r w s u h k e = free (rw e (released_gone r s.receipts u h k))
    released_held refused r w s u h k e = held_on e
    released_held lost r w s u h k e = free (rw e (released_gone r s.receipts u h k))

    -- A published receipt stays.
    released_published :
        (f : Fate) (r : Receipt) (n : Option Notification) (w : World Stored) (s : Stored)
        → IsUnique conflicts w.store.receipts
        → first ours_at w.store.receipts ≡ some r
        → r.state ≡ published
        → r.fingerprint ≡ calls.fingerprint_of input
        → w.store.gateway ≡ emissions calls undisturbed moment input snapshot n s.gateway
        → Settled snapshot s (released_by f w).0.store
    released_published answered r n w s u h p f g =
        done r n (published_stays r w.store.receipts u h p) p f g
    released_published refused r n w s u h p f g = done r n h p f g
    released_published lost r n w s u h p f g =
        done r n (published_stays r w.store.receipts u h p) p f g

    mark_holder :
        (r : Receipt) (docs : List Receipt)
        → first ours_at docs ≡ some r
        → held_at r ≡ true
        → first ours_at (marked_at claim_id docs) ≡ some (publish moment.published_now r)
    mark_holder r docs h k =
        (mark_published_by_holder calls.fingerprint_of calls.receipts input claim_id
          moment.published_now docs r h k).1

    handled-Settled :
        (r : Receipt) (s : Stored) (o : World Stored × Result Raised Response)
        → IsUnique conflicts s.receipts
        → first ours_at s.receipts ≡ some r
        → held_at r ≡ true
        → Ended snapshot claim_id s o
        → Settled snapshot s (handled (give_up calls undisturbed moment input claim_id) o).0.store
    handled-Settled r s _ u h k (unmarked w e same) =
        subst (Settled snapshot s) (sym (give_up-store e w))
          (released_held (moment.fate w.sent) r w s u h k same)
    handled-Settled r s _ u h k (marked w (ok response) n same g) =
        done (publish moment.published_now r) n (rw same (mark_holder r s.receipts h k)) refl
          (ground (arith, eq_iff r.fingerprint (calls.fingerprint_of input))) g
    handled-Settled r s _ u h k (marked w (err e) n same g) =
        subst (Settled snapshot s) (sym (give_up-store e w)) (
          released_published (moment.fate w.sent) (publish moment.published_now r) n w s
            (rw same (
              mark_published-IsUnique calls.fingerprint_of calls.receipts input moment.published_now
                claim_id s.receipts u))
            (rw same (mark_holder r s.receipts h k)) refl
            (ground (arith, eq_iff r.fingerprint (calls.fingerprint_of input))) g)

    pub announce-Settled :
        (r : Receipt) (w : World Stored)
        → IsUnique conflicts w.store.receipts
        → first ours_at w.store.receipts ≡ some r
        → held_at r ≡ true
        → Settled snapshot w.store
            (announce calls undisturbed moment input snapshot claim_id w).0.store
    unfolding catch
    announce-Settled r w u h k = handled-Settled r w.store _ u h k (
        inner-Ended snapshot claim_id snapshot.status w
          (mark_published_by_holder calls.fingerprint_of calls.receipts input claim_id
            moment.published_now w.store.receipts r h k).0)
