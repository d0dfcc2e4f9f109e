-- ===== src/RateLimiter/Trim.antt =====
-- Trimming the local map: it comes back within its bound, and keeps the entry that was just written.
use driveparts_websockets.Prelude.{
  ℕ, ◌+◌, ◌-◌, ◌≤◌, ◌≡◌, ◌⊎◌, refl, true, false, none, some, [], ◌∷◌, String, arith, leb, ◌==◌,
  eq_refl, if◌then◌else◌, length, inl, inr,
}
use driveparts_websockets.Prelude.Maps.{Map, get, set, delete}
use driveparts_websockets.RateLimiter.{
  LocalWindow, sweep, drop_oldest, trim_local_windows, maximum_local_scopes,
}

-- No scope is the empty text: a scope is a digest.
abbrev pub Named : Map LocalWindow → Type 0
Named [] = Unit
Named ((scope, w) ∷ m) = ((scope == "") ≡ false) × Named m

pub Named-delete : (k : String) (m : Map LocalWindow) → Named m → Named (delete k m)
unfolding delete
Named-delete k [] n = tt
Named-delete k ((j, w) ∷ m) n = ground (arith, Named-delete k m n.1)

pub Named-set :
    (k : String) (w : LocalWindow) (m : Map LocalWindow)
    → (k == "") ≡ false
    → Named m
    → Named (set k w m)
unfolding set
Named-set k w [] h n = (h, tt)
Named-set k w ((j, v) ∷ m) h n = ground (arith, Named-set k w m h n.1)

Named-sweep : (now i size : ℕ) (m : Map LocalWindow) → Named m → Named (sweep now i size m)
unfolding sweep
Named-sweep now i size [] n = tt
Named-sweep now i size ((j, w) ∷ m) n =
    ground (arith, Named-sweep now (i + 1) (if leb w.reset_at now then size - 1 else size) m n.1)

length-drop_oldest-le :
    (m : Map LocalWindow) → Named m → length (drop_oldest m) ≤ maximum_local_scopes
unfolding drop_oldest
length-drop_oldest-le [] n = omega arith
length-drop_oldest-le ((j, w) ∷ m) n = ground (arith, length-drop_oldest-le m n.1)

pub length-trim_local_windows-le :
    (now : ℕ) (m : Map LocalWindow)
    → Named m
    → length (trim_local_windows now m) ≤ maximum_local_scopes
unfolding trim_local_windows
length-trim_local_windows-le now m n =
    ground
      (arith, length-drop_oldest-le (sweep now 0 (length m) m) (Named-sweep now 0 (length m) m n))

-- The key's only entry is the last one.
abbrev AtEnd : String → LocalWindow → Map LocalWindow → Type 0
AtEnd k w [] = ⊥
AtEnd k w ((j, v) ∷ m) =
    ((m ≡ []) × ((j == k) ≡ true) × (v ≡ w)) ⊎ (((j == k) ≡ false) × AtEnd k w m)

pub AtEnd-set :
    (k : String) (w : LocalWindow) (m : Map LocalWindow) → get k m ≡ none → AtEnd k w (set k w m)
unfolding get set
AtEnd-set k w [] h = inl (refl, eq_refl k, refl)
AtEnd-set k w ((j, v) ∷ m) h = ground (arith, AtEnd-set k w m)

pub get-AtEnd :
    (k : String) (w : LocalWindow) (m : Map LocalWindow) → AtEnd k w m → get k m ≡ some w
unfolding get
get-AtEnd k w [] h = absurd h
get-AtEnd k w ((j, v) ∷ m) (inl h) = ground arith
get-AtEnd k w ((j, v) ∷ m) (inr h) = ground (arith, get-AtEnd k w m h.1)

sweep-AtEnd :
    (now i size : ℕ) (k : String) (w : LocalWindow) (m : Map LocalWindow)
    → leb w.reset_at now ≡ false
    → AtEnd k w m
    → AtEnd k w (sweep now i size m)
unfolding sweep
sweep-AtEnd now i size k w [] live h = h
sweep-AtEnd now i size k w ((j, v) ∷ []) live (inl h) = ground arith
sweep-AtEnd now i size k w ((j, v) ∷ (x ∷ m)) live (inl h) = ground arith
sweep-AtEnd now i size k w ((j, v) ∷ m) live (inr h) =
    ground (
      arith,
      sweep-AtEnd now (i + 1) (if leb v.reset_at now then size - 1 else size) k w m live h.1,
    )

drop_oldest-AtEnd :
    (k : String) (w : LocalWindow) (m : Map LocalWindow) → AtEnd k w m → AtEnd k w (drop_oldest m)
unfolding drop_oldest
drop_oldest-AtEnd k w [] h = h
drop_oldest-AtEnd k w ((j, v) ∷ []) (inl h) = ground arith
drop_oldest-AtEnd k w ((j, v) ∷ (x ∷ m)) (inl h) = ground arith
drop_oldest-AtEnd k w ((j, v) ∷ m) (inr h) = ground (arith, drop_oldest-AtEnd k w m h.1)

pub trim_local_windows-AtEnd :
    (now : ℕ) (k : String) (w : LocalWindow) (m : Map LocalWindow)
    → leb w.reset_at now ≡ false
    → AtEnd k w m
    → AtEnd k w (trim_local_windows now m)
unfolding trim_local_windows
trim_local_windows-AtEnd now k w m live h = ground (
  arith,
  drop_oldest-AtEnd k w (sweep now 0 (length m) m) (sweep-AtEnd now 0 (length m) k w m live h),
)
