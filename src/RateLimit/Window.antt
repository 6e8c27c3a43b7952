-- ===== src/RateLimit/Window.antt =====
-- How many notifications a window lets through.
use notification_system.Base.{
  ℕ, zero, suc, ◌+◌, ◌<◌, String, false, Option, none, ◌≡◌, ◌≢◌, ◌-◌, min, arith, leb,
  if◌then◌else◌, ◌↔◌, eqb, Bool-cases, inl, inr,
}
use notification_system.Failure.{Failure, ok}
use notification_system.Effect.{returns, Exec, pure, ◌>>=◌}
use notification_system.Redis.{Redis}
use notification_system.RateLimit.{Limiter, rate_key, allow}

-- Calls for one user and channel, one after the other: how many of them are allowed.
unfoldable allowed : {W : Type 0} → Limiter W → String → String → ℕ → Exec W ℕ
allowed l user_id channel zero = pure 0
allowed l user_id channel (suc n) = do
  reply ← allow l user_id channel
  later ← allowed l user_id channel n
  pure (if reply.0 then later + 1 else later)

-- Redis answers every command, and no key expires: `count key w` is the value at the key, 0 for a
-- key that is not there.
pub record Answers {W : Type 0} (redis : Redis W) (count : String → W → ℕ) : Type 0 where
  pub incr_ok : (key : String) (w : W) → (redis.incr key w).0 ≡ ok (count key w + 1)
  pub incr_adds : (key : String) (w : W) → count key (redis.incr key w).1 ≡ count key w + 1
  pub expire_ok : (key : String) (d : ℕ) (w : W) → (redis.expire key d w).0 ≡ none
  pub expire_keeps :
      (key : String) (d : ℕ) (w : W) → count key (redis.expire key d w).1 ≡ count key w

module _ {W : Type 0} (l : Limiter W) (count : String → W → ℕ) (answers : Answers l.redis count)
    (user_id channel : String) where
  abbrev key : String
  key = rate_key user_id channel

  allow-eq :
      (w : W)
      → allow l user_id channel w
        ≡ (returns (leb (count key w + 1) l.limit, none), (allow l user_id channel w).1)
  unfolding allow
  allow-eq w =
      ground (arith, answers.incr_ok key w, answers.expire_ok key l.window (l.redis.incr key w).1)

  count-allow : (w : W) → count key (allow l user_id channel w).1 ≡ count key w + 1
  unfolding allow
  count-allow w = ground (
    arith,
    answers.incr_ok key w,
    answers.incr_adds key w,
    answers.expire_ok key l.window (l.redis.incr key w).1,
    answers.expire_keeps key l.window (l.redis.incr key w).1,
  )

  -- While Redis answers and the window does not end: of n calls those up to the limit are allowed
  -- and the others refused, counting from the calls that the window has seen before.
  allowed-eq-min :
      (n : ℕ) (w : W) → (allowed l user_id channel n w).0 ≡ returns (min n (l.limit - count key w))
  unfolding allowed
  allowed-eq-min zero w = ground arith
  allowed-eq-min (suc n) w =
      let x = (allow l user_id channel w).1 in
      rw (allow-eq w, allowed) (ground (arith, count-allow w, allowed-eq-min n x))

-- Where INCR answers another count than 1, `Allow` does the same whatever EXPIRE does: it sets no
-- expiry after the first call, and none where the EXPIRE of the first call failed.
allow-ignores_expire :
    {W : Type 0} (l : Limiter W) (user_id channel : String)
    (other : String → ℕ → W → Option Failure × W) (w : W)
    → (l.redis.incr (rate_key user_id channel) w).0 ≢ ok 1
    → allow (record l { redis = record (l.redis) { expire = other } }) user_id channel w
      ≡ allow l user_id channel w
unfolding allow
allow-ignores_expire l user_id channel other w h = ground arith

-- What a refusal rests on: INCR answered a count above the limit, and the EXPIRE of a first call
-- went through.
abbrev pub Refuses : {W : Type 0} → Limiter W → String → W → Option Failure → Type 0
Refuses l key w e =
    (count : ℕ) × ((l.redis.incr key w).0 ≡ ok count)
    × (l.limit < count)
    × (count ≡ 1 → (l.redis.expire key l.window (l.redis.incr key w).1).0 ≡ none)
    × (e ≡ none)

module _ {W : Type 0} (l : Limiter W) (user_id channel : String) (w : W) (e : Option Failure) where
  -- A refusal comes without an error and only where INCR answered a count above the limit: an INCR
  -- or an EXPIRE that fails refuses nothing.
  allow-refusal :
      (allow l user_id channel w).0 ≡ returns (false, e) → Refuses l (rate_key user_id channel) w e
  unfolding allow
  allow-refusal h = ground arith

  allow-Refuses :
      Refuses l (rate_key user_id channel) w e → (allow l user_id channel w).0 ≡ returns (false, e)
  unfolding allow
  allow-Refuses (count, h, k, x, n) = elim (Bool-cases (eqb count 1)) [
    | inl q ↦ let sent = x (ground arith) in ground arith
    | inr q ↦ ground arith
  ]

  -- `Allow` refuses exactly where INCR answered a count above the limit and the EXPIRE of a first
  -- call went through, and then without an error: an INCR or an EXPIRE that fails refuses nothing.
  pub allow-Refuses_iff :
      ((allow l user_id channel w).0 ≡ returns (false, e))
      ↔ Refuses l (rate_key user_id channel) w e
  allow-Refuses_iff = (allow-refusal, allow-Refuses)
