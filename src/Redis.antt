-- ===== src/Redis.antt =====
-- The sorted sets of the Redis server that the scripts in src/services run on, as a record of the
-- commands in use and of what the manual promises about them. Scores are milliseconds.
use driveparts_websockets.Prelude.{
  ℕ, ◌≡◌, ◌≤◌, ◌-◌, refl, Bool, false, not, Option, none, some, List, [], ◌∷◌, String, arith, leb,
  ◌==◌, if◌then◌else◌, length, keep, All, Bool-cases, inl, inr,
}

-- A member and its score.
abbrev pub Zset : Type 0
Zset = List (String × ℕ)

-- The upper end of a range of scores that starts at `-inf`.
pub data Bound : Type 0 where
  at_most : ℕ → Bound
  -- A negative number: no score of the scripts is in range.
  negative : Bound

-- `a - b` as such an end.
abbrev pub minus : ℕ → ℕ → Bound
minus a b = if leb b a then at_most (a - b) else negative

abbrev in_range : Bound → String × ℕ → Bool
in_range (at_most n) e = leb e.1 n
in_range negative e = false

abbrev pub out_of_range : Bound → String × ℕ → Bool
out_of_range bound e = not (in_range bound e)

abbrev pub is_member : String → String × ℕ → Bool
is_member m e = e.0 == m

abbrev pub is_other : String → String × ℕ → Bool
is_other m e = not (e.0 == m)

pub record SortedSets : Type 0 where
  -- ZREMRANGEBYSCORE key -inf bound: the set and how many members it lost
  pub zremrangebyscore : Bound → Zset → Zset × ℕ
  pub zremrangebyscore_lem :
      (b : Bound) (zs : Zset)
      → zremrangebyscore b zs ≡ (keep (out_of_range b) zs, length (keep (in_range b) zs))
  -- ZADD key score member
  pub zadd : ℕ → String → Zset → Zset
  pub zadd_lem :
      (score : ℕ) (m : String) (zs : Zset) → zadd score m zs ≡ (m, score) ∷ keep (is_other m) zs
  -- ZREM key member: the set and how many members it lost
  pub zrem : String → Zset → Zset × ℕ
  pub zrem_lem :
      (m : String) (zs : Zset) → zrem m zs ≡ (keep (is_other m) zs, length (keep (is_member m) zs))
  -- ZCARD key
  pub zcard : Zset → ℕ
  pub zcard_lem : (zs : Zset) → zcard zs ≡ length zs
  -- ZRANGE key 0 0 WITHSCORES: a member of the lowest score
  pub zfirst : Zset → Option (String × ℕ)
  pub zfirst_nil : zfirst [] ≡ none
  pub zfirst_least : (zs : Zset) (e : String × ℕ) → zfirst zs ≡ some e → All (λ d. e.1 ≤ d.1) zs

-- A server that keeps the promises, for the tests.
abbrev lower : String × ℕ → Option (String × ℕ) → Option (String × ℕ)
lower e none = some e
lower e (some d) = if leb e.1 d.1 then some e else some d

abbrev lowest : Zset → Option (String × ℕ)
lowest [] = none
lowest (e ∷ zs) = lower e (lowest zs)

All-le : (zs : Zset) (n k : ℕ) → n ≤ k → All (λ d. k ≤ d.1) zs → All (λ d. n ≤ d.1) zs
All-le [] n k h a = tt
All-le (e ∷ zs) n k h a = (omega arith, All-le zs n k h a.1)

lowest-nil : (zs : Zset) → lowest zs ≡ none → zs ≡ []
lowest-nil [] h = refl
lowest-nil (e ∷ zs) h = absurd (ground arith)

lower_least :
    (zs : Zset) (d e : String × ℕ) (o : Option (String × ℕ))
    → (o ≡ none → zs ≡ [])
    → ((x : String × ℕ) → o ≡ some x → All (λ y. x.1 ≤ y.1) zs)
    → lower d o ≡ some e
    → All (λ y. e.1 ≤ y.1) (d ∷ zs)
lower_least zs d e none n l h = rw (n refl) (ground arith, tt)
lower_least zs d e (some x) n l h = elim (Bool-cases (leb d.1 x.1)) [
  | inl le ↦ (ground arith, All-le zs e.1 x.1 (ground arith) (l x refl))
  | inr gt ↦ (ground arith, All-le zs e.1 x.1 (ground arith) (l x refl))
]

pub lowest_least : (zs : Zset) (e : String × ℕ) → lowest zs ≡ some e → All (λ d. e.1 ≤ d.1) zs
lowest_least [] e h = tt
lowest_least (d ∷ zs) e h = lower_least zs d e (lowest zs) (lowest-nil zs) (lowest_least zs) h

abbrev pub server : SortedSets
server = record {
  zremrangebyscore = λ b zs. (keep (out_of_range b) zs, length (keep (in_range b) zs));
  zremrangebyscore_lem = λ b zs. refl;
  zadd = λ score m zs. (m, score) ∷ keep (is_other m) zs;
  zadd_lem = λ score m zs. refl;
  zrem = λ m zs. (keep (is_other m) zs, length (keep (is_member m) zs));
  zrem_lem = λ m zs. refl;
  zcard = length;
  zcard_lem = λ zs. refl;
  zfirst = lowest;
  zfirst_nil = refl;
  zfirst_least = lowest_least;
}
