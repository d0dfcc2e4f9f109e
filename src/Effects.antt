-- ===== src/Effects.antt =====
-- Asynchronous methods of the repositories and of the routes: database commands in sequence, each of
-- which finds what other processes made of the stored state while the method waited, and errors that
-- are thrown. `S` is the stored state and `E` the errors.
pub mod Keeps
use driveparts_websockets.Prelude.{ℕ, ◌+◌, Bool, true, false}

pub data Result (E A : Type 0) : Type 0 where
  ok : A → Result E A
  err : E → Result E A

-- The stored state, and how many commands the method has sent.
pub record World (S : Type 0) : Type 0 where
  pub store : S
  pub sent : ℕ

-- What was written before a throw stays written: the state comes back beside the error.
abbrev pub Action : Type 0 → Type 0 → Type 0 → Type 0
Action S E A = World S → World S × Result E A

module _ {S E A : Type 0} where
  unfoldable pub pure : A → Action S E A
  pure a w = (w, ok a)

  unfoldable pub throw : E → Action S E A
  throw e w = (w, err e)

  -- One command: `others i` is what other processes do before the command number i.
  unfoldable pub command : (ℕ → S → S) → (S → S × Result E A) → Action S E A
  command others c w =
      let (store', r) = c (others w.sent w.store) in
      (record { store = store'; sent = w.sent + 1 }, r)

  -- A command that only reads.
  unfoldable pub query : (ℕ → S → S) → (S → A) → Action S E A
  query others q = command others (λ s. (s, ok (q s)))

module _ {S E A B : Type 0} where
  abbrev pub continue : (A → Action S E B) → World S × Result E A → World S × Result E B
  continue f (w, ok a) = f a w
  continue f (w, err e) = (w, err e)

  infixl 5 ◌>>=◌ ◌>>◌
  unfoldable pub ◌>>=◌ : Action S E A → (A → Action S E B) → Action S E B
  (m >>= f) w = continue f (m w)

  abbrev pub ◌>>◌ : Action S E A → Action S E B → Action S E B
  m >> n = m >>= λ _. n

-- `if (b) throw e;`
unfoldable pub throw_if : {S E : Type 0} → Bool → E → Action S E (Unit {0})
throw_if true e = throw e
throw_if false e = pure tt

-- catch: what the handler does with the error.
module _ {S E A : Type 0} where
  abbrev pub handled : (E → Action S E A) → World S × Result E A → World S × Result E A
  handled h (w, ok a) = (w, ok a)
  handled h (w, err e) = h e w

  unfoldable pub catch : Action S E A → (E → Action S E A) → Action S E A
  catch m h w = handled h (m w)

abbrev pub undisturbed : {S : Type 0} → ℕ → S → S
undisturbed i s = s

module _ {S E A : Type 0} where
  -- What withTransaction does with the operation: it runs at one point of time, and a throw leaves no
  -- trace in the stored state.
  abbrev pub rolled_back : World S → World S × Result E A → World S × Result E A
  rolled_back w (w', ok a) = (w', ok a)
  rolled_back w (w', err e) = (w, err e)

  unfoldable pub execute_atomic : Bool → (ℕ → S → S) → ((ℕ → S → S) → Action S E A) → Action S E A
  execute_atomic false others operation w = operation others w
  execute_atomic true others operation w =
      let start = record w { store = others w.sent w.store } in
      rolled_back start (operation undisturbed start)
