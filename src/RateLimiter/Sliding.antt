-- ===== src/RateLimiter/Sliding.antt =====
-- The script's sliding window: in no window of the configured length are more requests admitted than
-- the limit.
use driveparts_websockets.Prelude.{
  ℕ, ◌+◌, ◌≤◌, ◌<◌, ◌≡◌, ◌↔◌, refl, Bool, false, List, [], ◌∷◌, String, arith, leb, ltb,
  if◌then◌else◌, length, keep, tally, any,
}
use driveparts_websockets.Redis.{SortedSets, Zset, minus, out_of_range, is_member, is_other}
use driveparts_websockets.RateLimiter.{consume_rate_limit_script, is_one}

-- The request is less than a window old at time `t`.
abbrev pub admitted_within : ℕ → ℕ → ℕ → Bool
admitted_within window t at = ltb t (at + window)

abbrev within : ℕ → ℕ → String × ℕ → Bool
within window t e = ltb t (e.1 + window)

minus-within :
    (window now : ℕ) (e : String × ℕ) → out_of_range (minus now window) e ≡ within window now e
minus-within window now e = ground arith

keep-within :
    (window now : ℕ) (zs : Zset)
    → keep (out_of_range (minus now window)) zs ≡ keep (within window now) zs
keep-within window now [] = refl
keep-within window now (e ∷ zs) = rw (minus-within window now e, keep-within window now zs)

length-keep-within :
    (window now : ℕ) (zs : Zset)
    → length (keep (within window now) zs) ≡ tally (within window now) zs
length-keep-within window now [] = refl
length-keep-within window now (e ∷ zs) = ground (arith, length-keep-within window now zs)

-- What is in the window later was in it before.
tally-later :
    (window now t : ℕ) (zs : Zset)
    → now ≤ t
    → tally (within window t) (keep (within window now) zs) ≡ tally (within window t) zs
tally-later window now t [] h = refl
tally-later window now t (e ∷ zs) h = ground (arith, tally-later window now t zs h)

tally_mono :
    (window now t : ℕ) (log : List ℕ)
    → now ≤ t
    → tally (admitted_within window t) log ≤ tally (admitted_within window now) log
tally_mono window now t [] h = omega arith
tally_mono window now t (a ∷ log) h = ground (arith, tally_mono window now t log h)

keep-is_other : (m : String) (zs : Zset) → any (is_member m) zs ≡ false → keep (is_other m) zs ≡ zs
keep-is_other m [] h = refl
keep-is_other m (e ∷ zs) h = ground (arith, keep-is_other m zs)

any-keep :
    (m : String) (window now : ℕ) (zs : Zset)
    → any (is_member m) zs ≡ false
    → any (is_member m) (keep (within window now) zs) ≡ false
any-keep m window now [] h = refl
any-keep m window now (e ∷ zs) h = ground (arith, any-keep m window now zs)

module _ (redis : SortedSets) (window limit : ℕ) where
  abbrev script : ℕ → String → Zset → Zset × ℕ × ℕ × ℕ
  script now member zs = consume_rate_limit_script redis now window limit member zs

  -- The set, the times of the admitted requests, and the time of the last request, after any
  -- requests of one scope at times that do not run backwards, each with a member of its own.
  pub data Requests : Zset → List ℕ → ℕ → Type 0 where
    start : Requests [] [] 0
    request :
        {zs zs' : Zset} {log log' : List ℕ} {last : ℕ} (now : ℕ) (member : String)
        → Requests zs log last
        → last ≤ now
        → any (is_member member) zs ≡ false
        → zs' ≡ (script now member zs).0
        → log' ≡ (if is_one (script now member zs).1 then now ∷ log else log)
        → Requests zs' log' now

  -- The script in terms of the window.
  abbrev after : ℕ → String → Zset → Zset
  after now member zs =
      if leb limit (tally (within window now) zs)
      then keep (within window now) zs
      else (member, now) ∷ keep (within window now) zs

  script_set :
      (now : ℕ) (member : String) (zs : Zset)
      → any (is_member member) zs ≡ false
      → (script now member zs).0 ≡ after now member zs
  unfolding consume_rate_limit_script
  script_set now member zs h = ground (
    arith,
    redis.zremrangebyscore_lem (minus now window) zs,
    keep-within window now zs,
    redis.zcard_lem (keep (within window now) zs),
    length-keep-within window now zs,
    redis.zadd_lem now member (keep (within window now) zs),
    keep-is_other member (keep (within window now) zs) (any-keep member window now zs h),
  )

  script_admits :
      (now : ℕ) (member : String) (zs : Zset)
      → is_one (script now member zs).1 ≡ ltb (tally (within window now) zs) limit
  unfolding consume_rate_limit_script
  script_admits now member zs = ground (
    arith,
    redis.zremrangebyscore_lem (minus now window) zs,
    keep-within window now zs,
    redis.zcard_lem (keep (within window now) zs),
    length-keep-within window now zs,
  )

  record InStep (zs : Zset) (log : List ℕ) (last : ℕ) : Type 0 where
    same : (t : ℕ) → last ≤ t → tally (within window t) zs ≡ tally (admitted_within window t) log
    fits : (t : ℕ) → last ≤ t → tally (admitted_within window t) log ≤ limit

  request-same :
      (zs : Zset) (log : List ℕ) (last now t : ℕ) (member : String)
      → InStep zs log last
      → last ≤ now
      → now ≤ t
      → tally (within window t) (after now member zs)
        ≡ tally
            (admitted_within window t)
            (if ltb (tally (within window now) zs) limit then now ∷ log else log)
  request-same zs log last now t member inv h k =
      ground (arith, tally-later window now t zs k, inv.same t (omega arith))

  request-fits :
      (zs : Zset) (log : List ℕ) (last now t : ℕ)
      → InStep zs log last
      → last ≤ now
      → now ≤ t
      → tally
          (admitted_within window t)
          (if ltb (tally (within window now) zs) limit then now ∷ log else log)
        ≤ limit
  request-fits zs log last now t inv h k =
      ground (arith, inv.same now h, inv.fits t (omega arith), tally_mono window now t log k)

  Requests-InStep :
      {zs : Zset} {log : List ℕ} {last : ℕ} → Requests zs log last → InStep zs log last
  Requests-InStep start = record { same = λ t h. refl; fits = λ t h. omega arith }
  Requests-InStep (request {zs} {log = log} {last = last} now member before h fresh e d) =
      let inv = Requests-InStep before in
      record {
        same = λ t k.
            rw (e, d, script_set now member zs fresh, script_admits now member zs)
              (request-same zs log last now t member inv h k);
        fits = λ t k. rw (d, script_admits now member zs) (request-fits zs log last now t inv h k);
      }

-- Whatever the requests of a scope, at any time from the last of them on no more than `limit` of
-- them have been admitted during the last window.
pub sliding_limit :
    (redis : SortedSets) (window limit : ℕ) {zs : Zset} {log : List ℕ} {last : ℕ} (t : ℕ)
    → Requests redis window limit zs log last
    → last ≤ t
    → tally (admitted_within window t) log ≤ limit
sliding_limit redis window limit t run h = (Requests-InStep redis window limit run).fits t h

-- A request is admitted exactly when fewer requests than the limit have been admitted during the
-- last window, so none is refused too early.
sliding_admits_iff :
    (redis : SortedSets) (window limit : ℕ) (zs : Zset) (log : List ℕ) (last now : ℕ)
    (member : String)
    → Requests redis window limit zs log last
    → last ≤ now
    → ((consume_rate_limit_script redis now window limit member zs).1 ≡ 1)
      ↔ (tally (admitted_within window now) log < limit)
sliding_admits_iff redis window limit zs log last now member run h = ground (
  arith,
  script_admits redis window limit now member zs,
  (Requests-InStep redis window limit run).same now h,
)
