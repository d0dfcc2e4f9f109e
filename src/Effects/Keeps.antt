-- ===== src/Effects/Keeps.antt =====
-- What an action makes of the stored state, by a relation that goes on from step to step: the rules
-- for each way in which actions are put together.
use driveparts_websockets.Prelude.{ℕ, Bool, true, false, if◌then◌else◌}
use driveparts_websockets.Effects.{
  World, Result, ok, err, Action, pure, throw, command, query, continue, ◌>>=◌, throw_if, handled,
  catch, rolled_back, undisturbed, execute_atomic,
}

module _ {S E : Type 0} (R : S → S → Type 0) (R-refl : (s : S) → R s s)
    (R-trans : (s t u : S) → R s t → R t u → R s u) where
  -- The action goes from a state to one that is related to it, whether it returns or throws.
  pub record Keeps {A : Type 0} (m : Action S E A) : Type 0 where
    pub at : (w : World S) → R w.store (m w).0.store

  module _ {A : Type 0} where
    pub pure-Keeps : (a : A) → Keeps (pure a)
    unfolding pure
    pure-Keeps a = record { at = λ w. R-refl w.store }

    pub throw-Keeps : (e : E) → Keeps (throw {A = A} e)
    unfolding throw
    throw-Keeps e = record { at = λ w. R-refl w.store }

    pub command-Keeps :
        (others : ℕ → S → S) (c : S → S × Result E A)
        → ((i : ℕ) (s : S) → R s (others i s))
        → ((s : S) → R s (c s).0)
        → Keeps (command others c)
    unfolding command
    command-Keeps others c h k = record {
      at = λ w. R-trans _ _ _ (h w.sent w.store) (k (others w.sent w.store));
    }

    pub query-Keeps :
        (others : ℕ → S → S) (q : S → A)
        → ((i : ℕ) (s : S) → R s (others i s))
        → Keeps (query others q)
    unfolding query command
    query-Keeps others q h = record { at = λ w. h w.sent w.store }

    pub if-Keeps : (b : Bool) (m n : Action S E A) → Keeps m → Keeps n → Keeps (if b then m else n)
    if-Keeps true m n h k = h
    if-Keeps false m n h k = k

    handled-Keeps :
        (f : E → Action S E A)
        → ((e : E) → Keeps (f e))
        → (s : S) (o : World S × Result E A) → R s o.0.store
        → R s (handled f o).0.store
    handled-Keeps f k s (w, ok a) h = h
    handled-Keeps f k s (w, err e) h = R-trans _ _ _ h ((k e).at w)

    pub catch-Keeps :
        (m : Action S E A) (f : E → Action S E A)
        → Keeps m
        → ((e : E) → Keeps (f e))
        → Keeps (catch m f)
    unfolding catch
    catch-Keeps m f h k = record { at = λ w. handled-Keeps f k w.store (m w) (h.at w) }

    rolled_back-Keeps :
        (w : World S) (o : World S × Result E A)
        → R w.store o.0.store
        → R w.store (rolled_back w o).0.store
    rolled_back-Keeps w (w', ok a) h = h
    rolled_back-Keeps w (w', err e) h = R-refl w.store

    -- In a transaction it is enough that the operation keeps the relation when it returns.
    pub transaction-Keeps :
        (others : ℕ → S → S) (operation : (ℕ → S → S) → Action S E A)
        → ((i : ℕ) (s : S) → R s (others i s))
        → ((w : World S) → R w.store (rolled_back w (operation undisturbed w)).0.store)
        → Keeps (execute_atomic true others operation)
    unfolding execute_atomic
    transaction-Keeps others operation h k = record {
      at = λ w. R-trans _ _ _ (h w.sent w.store) (k (record w { store = others w.sent w.store }));
    }

    pub execute_atomic-Keeps :
        (enabled : Bool) (others : ℕ → S → S) (operation : (ℕ → S → S) → Action S E A)
        → ((i : ℕ) (s : S) → R s (others i s))
        → Keeps (operation others)
        → Keeps (operation undisturbed)
        → Keeps (execute_atomic enabled others operation)
    unfolding execute_atomic
    execute_atomic-Keeps false others operation h k q = record { at = λ w. k.at w }
    execute_atomic-Keeps true others operation h k q =
        transaction-Keeps others operation h
          λ w. rolled_back-Keeps w (operation undisturbed w) (q.at w)

  module _ {A B : Type 0} where
    continue-Keeps :
        (f : A → Action S E B)
        → ((a : A) → Keeps (f a))
        → (s : S) (o : World S × Result E A) → R s o.0.store
        → R s (continue f o).0.store
    continue-Keeps f k s (w, ok a) h = R-trans _ _ _ h ((k a).at w)
    continue-Keeps f k s (w, err e) h = h

    pub bind-Keeps :
        (m : Action S E A) (f : A → Action S E B)
        → Keeps m
        → ((a : A) → Keeps (f a))
        → Keeps (m >>= f)
    unfolding ◌>>=◌
    bind-Keeps m f h k = record { at = λ w. continue-Keeps f k w.store (m w) (h.at w) }

  pub throw_if-Keeps : (b : Bool) (e : E) → Keeps (throw_if b e)
  unfolding throw_if
  throw_if-Keeps true e = throw-Keeps e
  throw_if-Keeps false e = pure-Keeps tt
