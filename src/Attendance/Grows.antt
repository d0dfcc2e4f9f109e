-- ===== src/Attendance/Grows.antt =====
-- What never goes back in a stored thread, and the actions that respect it.
use driveparts_websockets.Prelude.{
  ℕ, ◌+◌, ◌≤◌, ◌≡◌, refl, Bool, true, false, Option, none, some, List, [], ◌∷◌, ◌++◌, String, arith,
  if◌then◌else◌, update_first,
}
use driveparts_websockets.Attendance.{Error, ThreadStatus, waiting, opened, closed, Thread, Store}
use driveparts_websockets.Attendance.Actions.{
  Action, World, Result, ok, err, pure, throw, query, command, continue, ◌>>=◌, throw_if, handled,
  catch,
}

-- The order in which a thread's status moves.
abbrev pub rank : ThreadStatus → ℕ
rank waiting = 0
rank opened = 1
rank closed = 2

-- A thread without a message comes before one with any.
abbrev pub latest_rank : Option ℕ → ℕ
latest_rank none = 0
latest_rank (some id) = id + 1

-- A responsible, once there, is the same later.
abbrev pub Stays : Option String → Option String → Type 0
Stays none o = Unit
Stays (some id) o = o ≡ some id

pub Stays-trans : (a b c : Option String) → Stays a b → Stays b c → Stays a c
Stays-trans none b c h k = tt
Stays-trans (some id) none c h k = absurd (ground arith)
Stays-trans (some id) (some j) c h k = ground arith

pub Stays-refl : (a : Option String) → Stays a a
Stays-refl none = tt
Stays-refl (some id) = refl

-- `new` is the thread `old` at the same or a later time.
pub record Later (old new : Thread) : Type 0 where
  pub _id : new._id ≡ old._id
  pub attendance_thread_key : new.attendance_thread_key ≡ old.attendance_thread_key
  pub channel : new.channel ≡ old.channel
  pub participant_store_ids : new.participant_store_ids ≡ old.participant_store_ids
  pub origin_store_id : new.origin_side.store_id ≡ old.origin_side.store_id
  pub target_store_id : new.target_side.store_id ≡ old.target_side.store_id
  pub status : rank old.status ≤ rank new.status
  pub origin_responsible :
      Stays old.origin_side.responsible_user_id new.origin_side.responsible_user_id
  pub target_responsible :
      Stays old.target_side.responsible_user_id new.target_side.responsible_user_id
  pub last_message_id : latest_rank old.last_message_id ≤ latest_rank new.last_message_id

pub Later-refl : (t : Thread) → Later t t
Later-refl t = record {
  _id = refl;
  attendance_thread_key = refl;
  channel = refl;
  participant_store_ids = refl;
  origin_store_id = refl;
  target_store_id = refl;
  status = omega arith;
  origin_responsible = Stays-refl _;
  target_responsible = Stays-refl _;
  last_message_id = omega arith;
}

pub Later-trans : (a b c : Thread) → Later a b → Later b c → Later a c
Later-trans a b c h k = record {
  _id = cc;
  attendance_thread_key = cc;
  channel = cc;
  participant_store_ids = cc;
  origin_store_id = cc;
  target_store_id = cc;
  status = omega arith;
  origin_responsible = Stays-trans _ _ _ h.origin_responsible k.origin_responsible;
  target_responsible = Stays-trans _ _ _ h.target_responsible k.target_responsible;
  last_message_id = omega arith;
}

-- Every thread of the first list is in the second at its place, at the same or a later time.
abbrev pub Grows : List Thread → List Thread → Type 0
Grows [] ys = Unit
Grows (x ∷ xs) [] = ⊥
Grows (x ∷ xs) (y ∷ ys) = Later x y × Grows xs ys

pub Grows-refl : (xs : List Thread) → Grows xs xs
Grows-refl [] = tt
Grows-refl (x ∷ xs) = (Later-refl x, Grows-refl xs)

pub Grows-trans : (xs ys zs : List Thread) → Grows xs ys → Grows ys zs → Grows xs zs
Grows-trans [] ys zs h k = tt
Grows-trans (x ∷ xs) [] zs h k = absurd h
Grows-trans (x ∷ xs) (y ∷ ys) [] h k = absurd k
Grows-trans (x ∷ xs) (y ∷ ys) (z ∷ zs) h k =
    (Later-trans x y z h.0 k.0, Grows-trans xs ys zs h.1 k.1)

pub Grows-append : (xs ys : List Thread) → Grows xs (xs ++ ys)
Grows-append [] ys = tt
Grows-append (x ∷ xs) ys = (Later-refl x, Grows-append xs ys)

pub Grows-update_first :
    (p : Thread → Bool) (f : Thread → Thread) (xs : List Thread)
    → ((t : Thread) → p t ≡ true → Later t (f t))
    → Grows xs (update_first p f xs)
Grows-update_first p f [] h = tt
Grows-update_first p f (x ∷ xs) h =
    ground (arith, h x, Grows-refl xs, Later-refl x, Grows-update_first p f xs h)

-- The action only moves the threads on, whether it returns or throws.
pub record Onward {A : Type 0} (m : Action A) : Type 0 where
  pub at : (w : World) → Grows w.store.threads (m w).0.store.threads

module _ {A : Type 0} where
  pub pure-Onward : (a : A) → Onward (pure a)
  unfolding pure
  pure-Onward a = record { at = λ w. Grows-refl w.store.threads }

  pub throw-Onward : (e : Error) → Onward (throw {A = A} e)
  unfolding throw
  throw-Onward e = record { at = λ w. Grows-refl w.store.threads }

  pub command-Onward :
      (others : ℕ → Store → Store) (c : Store → Store × Result A)
      → ((i : ℕ) (s : Store) → Grows s.threads (others i s).threads)
      → ((s : Store) → Grows s.threads (c s).0.threads)
      → Onward (command others c)
  unfolding command
  command-Onward others c h k = record {
    at = λ w. Grows-trans _ _ _ (h w.sent w.store) (k (others w.sent w.store));
  }

  pub query-Onward :
      (others : ℕ → Store → Store) (q : Store → A)
      → ((i : ℕ) (s : Store) → Grows s.threads (others i s).threads)
      → Onward (query others q)
  unfolding query command
  query-Onward others q h = record { at = λ w. h w.sent w.store }

  pub if-Onward : (b : Bool) (m n : Action A) → Onward m → Onward n → Onward (if b then m else n)
  if-Onward true m n h k = h
  if-Onward false m n h k = k

  pub catch-Onward :
      (m : Action A) (f : Error → Action A)
      → Onward m
      → ((e : Error) → Onward (f e))
      → Onward (catch m f)
  unfolding catch
  catch-Onward m f h k = record { at = λ w. Grows-trans _ _ _ (h.at w) (after (m w)) }
    where
      after : (o : World × Result A) → Grows o.0.store.threads (handled f o).0.store.threads
      after (w, ok a) = Grows-refl w.store.threads
      after (w, err e) = (k e).at w

pub throw_if-Onward : (b : Bool) (e : Error) → Onward (throw_if b e)
unfolding throw_if
throw_if-Onward true e = throw-Onward e
throw_if-Onward false e = pure-Onward tt

module _ {A B : Type 0} where
  continue-Onward :
      (f : A → Action B) (o : World × Result A)
      → ((a : A) → Onward (f a))
      → Grows o.0.store.threads (continue f o).0.store.threads
  continue-Onward f (w, ok a) h = (h a).at w
  continue-Onward f (w, err e) h = Grows-refl w.store.threads

  pub bind-Onward :
      (m : Action A) (f : A → Action B) → Onward m → ((a : A) → Onward (f a)) → Onward (m >>= f)
  unfolding ◌>>=◌
  bind-Onward m f h k = record { at = λ w. Grows-trans _ _ _ (h.at w) (continue-Onward f (m w) k) }
